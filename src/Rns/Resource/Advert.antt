-- ===== src/Rns/Resource/Advert.antt =====
-- internal/rns/resource_adv.go: what the receiver of an advertisement checks. The msgpack decoder
-- is a parameter.
pub mod Acceptance
mod Examples
use reticulum_forwarding_ser.Base.{
  ℕ, ◌+◌, ◌-◌, ◌*◌, ◌/◌, ◌%◌, ◌^◌, Bool, true, false, not, ◌&&◌, ◌||◌, ◌==◌, ltb, if◌then◌else◌,
  length, Option, none, some, Result, ok, fail_if, or_fail, ◌>>=◌, ◌>>◌,
}
use reticulum_forwarding_ser.Base.Bytes.{Bytes}
use reticulum_forwarding_ser.Rns.Resource.{resource_map_hash_len, resource_random_hash_size}
use reticulum_forwarding_ser.Rns.Resource.Sender.{
  max_accepted_resource_size, max_accepted_resource_parts,
}

-- Go's int; `negsuc n` is -(n + 1).
pub data ℤ : Type 0 where
  pos negsuc : ℕ → ℤ

abbrev pub positive : ℤ → Bool
positive (pos n) = not (n == 0)
positive (negsuc n) = false

-- `a > b`
abbrev pub greater : ℤ → ℤ → Bool
greater (pos n) (pos m) = ltb m n
greater (pos n) (negsuc m) = true
greater (negsuc n) (pos m) = false
greater (negsuc n) (negsuc m) = ltb n m

abbrev pub equal : ℤ → ℤ → Bool
equal (pos n) (pos m) = n == m
equal (negsuc n) (negsuc m) = n == m
equal _ _ = false

-- The int of 64 bits.
abbrev pub to_int : ℕ → ℤ
to_int w = if ltb w (2 ^ 63) then pos w else negsuc (2 ^ 64 - 1 - w)

-- `NumParts * ResourceMapHashLen`, which wraps around.
pub expected_hashmap_bytes : ℤ → ℤ
expected_hashmap_bytes (pos n) = to_int (n * resource_map_hash_len % 2 ^ 64)
expected_hashmap_bytes (negsuc n) =
    to_int ((2 ^ 64 - (n + 1) * resource_map_hash_len % 2 ^ 64) % 2 ^ 64)

-- The bit `k` of an int; the bits of -(n + 1) are those of n, each inverted.
unfoldable pub has_bit : ℤ → ℕ → Bool
has_bit (pos n) k = n / 2 ^ k % 2 == 1
has_bit (negsuc n) k = not (n / 2 ^ k % 2 == 1)

abbrev pub resource_flag_compressed : ℕ
resource_flag_compressed = 1

abbrev pub resource_flag_has_metadata : ℕ
resource_flag_has_metadata = 5

pub record ResourceAdvertisement : Type 0 where
  pub transfer_size : ℤ
  pub data_size : ℤ
  pub num_parts : ℤ
  pub hash : Bytes
  pub random_hash : Bytes
  pub original_hash : Bytes
  pub segment_index : ℤ
  pub total_segments : ℤ
  pub request_id : Option Bytes
  pub flags : ℤ
  pub hashmap : Bytes

pub data Error : Type 0 where
  adv_malformed resource_too_large resource_too_many_parts : Error

-- `expected` is the length that the number of parts says.
pub hashmap_malformed : ℕ → ℤ → Bool
hashmap_malformed len expected =
    not (equal (pos len) expected)
    && (len == 0 || greater (pos len) expected || not (len % resource_map_hash_len == 0))

pub request_id_malformed : Option Bytes → Bool
request_id_malformed none = false
request_id_malformed (some q) = not (length q == 16)

-- ParseResourceAdv after the decoding.
pub check_resource_adv : ResourceAdvertisement → Result Error ResourceAdvertisement
check_resource_adv a =
    fail_if (not (length a.hash == 32)) adv_malformed
    >> (fail_if (not (length a.random_hash == resource_random_hash_size)) adv_malformed
        >> (fail_if (not (length a.original_hash == 32)) adv_malformed
            >> (fail_if (not (positive a.num_parts)) adv_malformed
                >> (fail_if
                      (not (positive a.segment_index)
                        || greater a.segment_index a.total_segments
                        || not (positive a.total_segments))
                      adv_malformed
                    >> (fail_if (not (positive a.transfer_size) || not (positive a.data_size))
                          adv_malformed
                        >> (fail_if
                              (hashmap_malformed (length a.hashmap)
                                (expected_hashmap_bytes a.num_parts))
                              adv_malformed
                            >> (fail_if (request_id_malformed a.request_id) adv_malformed
                                >> (fail_if (greater a.total_segments (pos 1)) resource_too_large
                                    >> (fail_if
                                          (greater a.transfer_size (pos max_accepted_resource_size)
                                            || greater a.data_size (pos max_accepted_resource_size))
                                          resource_too_large
                                        >> (fail_if
                                              (greater a.num_parts
                                                (pos max_accepted_resource_parts))
                                              resource_too_many_parts
                                            >> (fail_if (has_bit a.flags resource_flag_compressed)
                                                  resource_too_large
                                                >> (fail_if
                                                      (has_bit a.flags resource_flag_has_metadata)
                                                      adv_malformed
                                                    >> ok a))))))))))))

-- ParseResourceAdv.
pub parse_resource_adv :
    (Bytes → Option ResourceAdvertisement) → Bytes → Result Error ResourceAdvertisement
parse_resource_adv decode body = or_fail (decode body) adv_malformed >>= check_resource_adv

-- HasFlag, for the bit `k`.
pub has_flag : ResourceAdvertisement → ℕ → Bool
has_flag a k = has_bit a.flags k
