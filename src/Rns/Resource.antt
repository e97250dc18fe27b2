-- ===== src/Rns/Resource.antt =====
-- internal/rns/resource.go and resource_hash.go: the sizes of a resource transfer, its hashes, the
-- slicing of the encrypted body into parts and the hashmap that fingerprints them.
pub mod Advert
pub mod Split
pub mod Hashmap
pub mod Wire
pub mod Receiver
pub mod Hmu
pub mod Sender
use reticulum_forwarding_ser.Base.{
  ℕ, zero, suc, ◌+◌, ◌-◌, ◌*◌, ◌/◌, Bool, false, not, ◌||◌, List, [], ◌∷◌, ◌++◌, ◌==◌, ltb,
  if◌then◌else◌, length, take, drop, replicate, Result, ok, err,
}
use reticulum_forwarding_ser.Base.Bytes.{Bytes, ◌=ᵇ◌}
use reticulum_forwarding_ser.Rns.Crypto.{Crypto}

abbrev pub reticulum_mtu : ℕ
reticulum_mtu = 500

abbrev pub reticulum_header_max_size : ℕ
reticulum_header_max_size = 35

abbrev pub reticulum_header_min_size : ℕ
reticulum_header_min_size = 19

abbrev pub reticulum_ifac_min_size : ℕ
reticulum_ifac_min_size = 1

abbrev pub reticulum_token_overhead : ℕ
reticulum_token_overhead = 48

abbrev pub link_mdu : ℕ
link_mdu =
    (reticulum_mtu - reticulum_ifac_min_size - reticulum_header_min_size - reticulum_token_overhead)
      / 16
      * 16
    - 1

abbrev pub resource_sdu : ℕ
resource_sdu = reticulum_mtu - reticulum_header_max_size - reticulum_ifac_min_size

abbrev pub resource_random_hash_size : ℕ
resource_random_hash_size = 4

abbrev pub resource_map_hash_len : ℕ
resource_map_hash_len = 4

abbrev pub hashmap_max_len : ℕ
hashmap_max_len = (link_mdu - 134) / resource_map_hash_len

abbrev pub window_max_slow : ℕ
window_max_slow = 10

abbrev pub window_max_fast : ℕ
window_max_fast = 75

abbrev pub collision_guard_size : ℕ
collision_guard_size = 2 * window_max_fast + hashmap_max_len

pub data Error : Type 0 where
  random_hash_len collision_guard : Error

module _ (c : Crypto) where
  -- The zero results stand for the programming errors that the code reports that way.
  unfoldable pub resource_hash : Bytes → Bytes → Bytes
  resource_hash body r =
      if not (length r == resource_random_hash_size) then replicate 32 0 else c.sha256 (body ++ r)

  unfoldable pub resource_expected_proof : Bytes → Bytes → Bytes
  resource_expected_proof body hash =
      if not (length hash == 32) then replicate 32 0 else c.sha256 (body ++ hash)

  unfoldable pub resource_map_hash : Bytes → Bytes → Bytes
  resource_map_hash part r =
      if not (length r == resource_random_hash_size)
      then replicate resource_map_hash_len 0
      else take resource_map_hash_len (c.sha256 (part ++ r))

-- The loop of SplitParts over what is left of the blob.
unfoldable pub split_loop : ℕ → Bytes → List Bytes
split_loop zero blob = []
split_loop (suc fuel) [] = []
split_loop (suc fuel) (b ∷ blob) =
    take resource_sdu (b ∷ blob) ∷ split_loop fuel (drop resource_sdu (b ∷ blob))

-- A round takes at least a byte, so that as many rounds as bytes are enough.
unfoldable pub split_parts : Bytes → List Bytes
unfolding split_loop
split_parts blob = split_loop (length blob) blob

-- Is one of the guard's hashes `mh`?
unfoldable pub guard_hit : Bytes → List Bytes → Bool
guard_hit mh [] = false
guard_hit mh (prev ∷ guard) = prev =ᵇ mh || guard_hit mh guard

-- The guard with one more hash, at most CollisionGuardSize of them.
unfoldable pub push_guard : Bytes → List Bytes → List Bytes
push_guard mh guard =
    let longer = guard ++ (mh ∷ []) in
    if ltb collision_guard_size (length longer) then drop 1 longer else longer

module _ (c : Crypto) where
  unfoldable pub hashmap_loop : Bytes → List Bytes → Bytes → List Bytes → Result Error Bytes
  unfolding guard_hit push_guard
  hashmap_loop r guard out [] = ok out
  hashmap_loop r guard out (p ∷ parts) =
      let mh = resource_map_hash c p r in
      let rest = hashmap_loop r (push_guard mh guard) (out ++ mh) parts in
      if guard_hit mh guard then err collision_guard else rest

  unfoldable pub build_hashmap : List Bytes → Bytes → Result Error Bytes
  unfolding hashmap_loop
  build_hashmap parts r =
      if not (length r == resource_random_hash_size)
      then err random_hash_len
      else hashmap_loop r [] [] parts
