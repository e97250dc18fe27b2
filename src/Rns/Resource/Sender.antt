-- ===== src/Rns/Resource/Sender.antt =====
-- internal/rns/resource_sender.go: the preparation of an outbound transfer, and the answers to a
-- request. Entropy is an argument; packets, channels and timers are left out.
pub mod Prepared
pub mod Transfer
pub mod Segments
pub mod Delivery
mod Examples
use reticulum_forwarding_ser.Base.{
  or_fail, ◌>>=◌, ◌>>◌, ℕ, zero, suc, ◌+◌, ◌-◌, ◌*◌, ◌/◌, ◌%◌, ◌^◌, not, List, [], ◌∷◌, ◌++◌, ◌==◌,
  ltb, leb, if◌then◌else◌, length, take, drop, get_or, Option, none, some, Result, ok, err, fail_if,
  wrap_err,
}
use reticulum_forwarding_ser.Base.Bytes.{Bytes, ◌=ᵇ◌}
use reticulum_forwarding_ser.Rns.Crypto.{Crypto}
use reticulum_forwarding_ser.Rns.Token
use reticulum_forwarding_ser.Rns.Token.{link_token_encrypt}
use reticulum_forwarding_ser.Rns.Resource
use reticulum_forwarding_ser.Rns.Resource.{
  collision_guard, random_hash_len, resource_map_hash_len, hashmap_max_len, resource_sdu,
  split_parts, build_hashmap, resource_hash, resource_expected_proof,
}
use reticulum_forwarding_ser.Rns.Resource.Wire.{ResourceRequest}
use reticulum_forwarding_ser.Rns.Resource.Receiver.{Advertisement, Hmu, entry}

abbrev pub max_efficient_size : ℕ
max_efficient_size = 2 ^ 20 - 1

abbrev pub max_accepted_resource_size : ℕ
max_accepted_resource_size = max_efficient_size + 8 * 1024

abbrev pub max_accepted_resource_parts : ℕ
max_accepted_resource_parts = max_accepted_resource_size / resource_sdu + 4

abbrev pub max_collision_retries : ℕ
max_collision_retries = 4

pub record Sender : Type 0 where
  pub hash : Bytes
  pub random_r : Bytes
  pub expected_proof : Bytes
  pub original_len : ℕ
  pub transfer_len : ℕ
  pub parts : List Bytes
  pub hashmap : Bytes

pub data Error : Type 0 where
  empty_body entropy_failed zero_parts too_many_parts collisions : Error
  link_encrypt : Token.Error → Error
  hashmap_error : Resource.Error → Error

module _ (c : Crypto) where
  -- The loop that draws random hashes until the hashmap has no collision, over the rounds left.
  pub choose_hashmap : ℕ → List Bytes → List (Option Bytes) → Result Error (Bytes × Bytes)
  choose_hashmap zero parts entropy = err collisions
  choose_hashmap (suc rounds) parts [] = err entropy_failed
  choose_hashmap (suc rounds) parts (none ∷ entropy) = err entropy_failed
  choose_hashmap (suc rounds) parts (some r ∷ entropy) =
      let again = choose_hashmap rounds parts entropy in
      elim (build_hashmap c parts r) [
        | ok hm ↦ ok (r, hm)
        | err e ↦ elim e [
          | collision_guard ↦ again
          | random_hash_len ↦ err (hashmap_error random_hash_len)
        ]
      ]

  -- NewResourceSender on an active link with the keys given; `prefix` is the random body prefix.
  pub new_resource_sender :
      Option Bytes
      → Option Bytes
      → List (Option Bytes)
      → Bytes
      → Bytes
      → Bytes
      → Result Error Sender
  unfolding choose_hashmap
  new_resource_sender prefix iv entropy signing encryption body = do
    fail_if (length body == 0) empty_body
    body_prefix ← or_fail prefix entropy_failed
    blob ← wrap_err link_encrypt (link_token_encrypt c iv (body_prefix ++ body) signing encryption)
    let parts = split_parts blob
    fail_if (length parts == 0) zero_parts
    fail_if (ltb max_accepted_resource_parts (length parts)) too_many_parts
    chosen ← choose_hashmap max_collision_retries parts entropy
    let hash = resource_hash c body chosen.0
    ok (record {
      hash = hash;
      random_r = chosen.0;
      expected_proof = resource_expected_proof c body hash;
      original_len = length body;
      transfer_len = length blob;
      parts = parts;
      hashmap = chosen.1;
    })

-- The advertisement, as PackResourceAdv sends it: the first segment of the hashmap only.
abbrev pub advertise : Sender → Advertisement
advertise s =
    let n = length s.parts in
    record {
      transfer_size = s.transfer_len;
      data_size = s.original_len;
      num_parts = n;
      hash = s.hash;
      random_hash = s.random_r;
      hashmap =
          take ((if ltb hashmap_max_len n then hashmap_max_len else n) * resource_map_hash_len)
            s.hashmap;
    }

-- The scan of findPartByMapHash from entry i, over as many as the second number says.
pub find_entry : Bytes → Bytes → ℕ → ℕ → Option ℕ
find_entry hashmap mh i zero = none
find_entry hashmap mh i (suc n) =
    let rest = find_entry hashmap mh (i + 1) n in if entry hashmap i =ᵇ mh then some i else rest

pub find_part_by_map_hash : Sender → Bytes → Option ℕ
unfolding find_entry
find_part_by_map_hash s mh = find_entry s.hashmap mh 0 (length s.parts)

-- The parts that fulfillRequest sends for the map hashes of a request, in their order.
pub requested_parts : Sender → List Bytes → List Bytes
unfolding find_part_by_map_hash
requested_parts s [] = []
requested_parts s (mh ∷ rest) =
    let more = requested_parts s rest in
    elim (find_part_by_map_hash s mh) [ none ↦ more | some i ↦ get_or s.parts i [] ∷ more ]

pub data RequestError : Type 0 where
  other_resource no_last_hash unknown_last_hash not_a_boundary past_end : RequestError

pub fulfill_request : Sender → ResourceRequest → Result RequestError (List Bytes)
unfolding requested_parts
fulfill_request s req =
    if not (req.resource_hash =ᵇ s.hash)
    then err other_resource
    else ok (requested_parts s req.requested_map)

-- The segment that begins at part `part_index`, if that is the start of one.
pub segment_at : Sender → ℕ → Result RequestError Hmu
segment_at s part_index =
    let n = length s.parts in
    let start = part_index / hashmap_max_len * hashmap_max_len in
    let end = if ltb n (start + hashmap_max_len) then n else start + hashmap_max_len in
    if not (part_index % hashmap_max_len == 0)
    then err not_a_boundary
    else if leb end start
    then err past_end
    else ok (record {
      hmu_hash = s.hash;
      segment_index = part_index / hashmap_max_len;
      hashmap_bytes =
          take ((end - start) * resource_map_hash_len)
            (drop (start * resource_map_hash_len) s.hashmap);
    })

pub serve_hmu : Sender → ResourceRequest → Result RequestError Hmu
unfolding find_part_by_map_hash segment_at
serve_hmu s req =
    if not (length req.last_map_hash == resource_map_hash_len)
    then err no_last_hash
    else elim (find_part_by_map_hash s req.last_map_hash) [
      | none ↦ err unknown_last_hash
      | some k ↦ segment_at s (k + 1)
    ]
