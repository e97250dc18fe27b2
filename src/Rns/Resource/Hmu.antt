-- ===== src/Rns/Resource/Hmu.antt =====
-- internal/rns/resource_wire.go: the body of a hashmap update. msgpack is a parameter: the bytes of
-- a pair, and the list that bytes decode to.
use reticulum_forwarding_ser.Base.{
  ℕ, ◌%◌, ◌≡◌, Bool, not, ◌||◌, List, [], ◌∷◌, ◌++◌, ◌==◌, ltb, if◌then◌else◌, Option-cases, inl,
  inr, length, length-append, take, drop, take-append, drop-append, Option, none, some, Result, ok,
  err, arith,
}
use reticulum_forwarding_ser.Base.Bytes.{Bytes}
use reticulum_forwarding_ser.Rns.Resource.{resource_map_hash_len}
use reticulum_forwarding_ser.Rns.Resource.Receiver.{Hmu}
use reticulum_forwarding_ser.Rns.Resource.Advert.{ℤ, pos, negsuc}

-- An element of a decoded list: `int v` is int(v) of any of Go's integer types.
pub data Element : Type 0 where
  int : ℤ → Element
  byte_slice : Bytes → Element
  other : Element

pub data HmuBodyError : Type 0 where
  nil_hmu hmu_hash_len hmu_segment hmu_bytes hmu_malformed : HmuBodyError

abbrev bad_map : Bytes → Bool
bad_map m = length m == 0 || not (length m % resource_map_hash_len == 0)

module _ (encode : ℕ → Bytes → Option Bytes) where
  pub build_resource_hmu : Option Hmu → Result HmuBodyError Bytes
  build_resource_hmu none = err nil_hmu
  build_resource_hmu (some h) =
      if not (length h.hmu_hash == 32)
      then err hmu_hash_len
      else if ltb h.segment_index 1
      then err hmu_segment
      else if bad_map h.hashmap_bytes
      then err hmu_bytes
      else elim (encode h.segment_index h.hashmap_bytes) [
        | none ↦ err hmu_malformed
        | some tail ↦ ok (h.hmu_hash ++ tail)
      ]

-- The checks on the two elements.
abbrev checked_hmu : Bytes → Element → Element → Result HmuBodyError Hmu
checked_hmu hash (int (pos n)) (byte_slice m) =
    if ltb n 1
    then err hmu_segment
    else if bad_map m
    then err hmu_bytes
    else ok (record { hmu_hash = hash; segment_index = n; hashmap_bytes = m })
checked_hmu hash (int (negsuc n)) (byte_slice m) = err hmu_segment
checked_hmu hash (int v) _ = err hmu_malformed
checked_hmu hash _ _ = err hmu_malformed

abbrev hmu_pair : Bytes → Option (List Element) → Result HmuBodyError Hmu
hmu_pair hash (some (x ∷ y ∷ [])) = checked_hmu hash x y
hmu_pair hash _ = err hmu_malformed

pub parse_resource_hmu : (Bytes → Option (List Element)) → Bytes → Result HmuBodyError Hmu
parse_resource_hmu decode body =
    if ltb (length body) 32
    then err hmu_hash_len
    else hmu_pair (take 32 body) (decode (drop 32 body))

-- When msgpack decodes what it encodes to the pair, a hashmap update that is built is parsed to
-- itself.
pub parse-build_resource_hmu :
    (encode : ℕ → Bytes → Option Bytes) (decode : Bytes → Option (List Element))
    → ((n : ℕ) (m tail : Bytes)
        → encode n m ≡ some tail
        → decode tail ≡ some (int (pos n) ∷ byte_slice m ∷ []))
    → (h : Hmu) (body : Bytes) → build_resource_hmu encode (some h) ≡ ok body
    → parse_resource_hmu decode body ≡ ok h
unfolding build_resource_hmu parse_resource_hmu
parse-build_resource_hmu encode decode inverse h body built =
    elim (Option-cases (encode h.segment_index h.hashmap_bytes)) [
      | inl e ↦ absurd (ground (arith, e))
      | inr (tail, e) ↦
          (let long : length h.hmu_hash ≡ 32 = ground (arith, e) in
            let same : h.hmu_hash ++ tail ≡ body = ground (arith, e) in
            ground (
              arith,
              e,
              same,
              long,
              built,
              length-append h.hmu_hash tail,
              take-append 32 h.hmu_hash tail long,
              drop-append 32 h.hmu_hash tail long,
              inverse h.segment_index h.hashmap_bytes tail e,
            ))
    ]
