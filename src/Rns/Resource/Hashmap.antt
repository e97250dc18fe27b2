-- ===== src/Rns/Resource/Hashmap.antt =====
-- What BuildHashmap promises the receiver: the map hashes in order, none repeated within the guard.
use mathlib.Core.List.{append-nil, append_assoc}
use native.Mathlib.Nat.{zero-add, suc-add}
use reticulum_forwarding_ser.Base.{
  ℕ, zero, suc, ◌+◌, ◌≤◌, ◌<◌, ◌≡◌, ◌≢◌, refl, sym, ◌∙◌, true, false, List, [], ◌∷◌, ◌++◌, ◌==◌,
  ltb, Bool-cases, inl, inr, length, length-append, get_or, map, ok, arith,
}
use reticulum_forwarding_ser.Base.Bytes.{Bytes, ◌=ᵇ◌, beq_iff}
use reticulum_forwarding_ser.Rns.Crypto.{Crypto}
use reticulum_forwarding_ser.Rns.Resource.{
  collision_guard_size, resource_map_hash, guard_hit, push_guard, hashmap_loop, build_hashmap,
}
use reticulum_forwarding_ser.Rns.Resource.Split.{join}

-- No hash of the list is in the guard when it is reached.
abbrev Apart : List Bytes → List Bytes → Type 0
Apart guard [] = Unit {0}
Apart guard (x ∷ xs) = (guard_hit x guard ≡ false) × Apart (push_guard x guard) xs

guard_hit-ne :
    (x y : Bytes) (before behind : List Bytes)
    → guard_hit x (before ++ (y ∷ behind)) ≡ false
    → x ≢ y
unfolding guard_hit
guard_hit-ne x y [] behind h e =
    let same : (y =ᵇ x) ≡ true = (beq_iff y x).1 (sym e) in cc (rw same at h)
guard_hit-ne x y (z ∷ before) behind h e = ground (arith, guard_hit-ne x y before behind)

-- One push keeps an entry that is not yet CollisionGuardSize deep.
push_keeps :
    (x y : Bytes) (before behind : List Bytes)
    → length behind + 2 ≤ collision_guard_size
    → (before' : List Bytes) × (push_guard x (before ++ (y ∷ behind))
        ≡ before' ++ (y ∷ (behind ++ (x ∷ []))))
unfolding push_guard
push_keeps x y [] behind h = ([], ground (arith, length-append behind (x ∷ [])))
push_keeps x y (z ∷ before) behind h =
    let long = length ((z ∷ before) ++ (y ∷ behind) ++ (x ∷ [])) in
    elim (Bool-cases (ltb collision_guard_size long)) [
      | inl full ↦ (before, rw full (append_assoc before (y ∷ behind) (x ∷ [])))
      | inr room ↦ (z ∷ before, rw room (append_assoc (z ∷ before) (y ∷ behind) (x ∷ [])))
    ]

later-ne :
    (y : Bytes) (xs before behind : List Bytes) (j : ℕ)
    → Apart (before ++ (y ∷ behind)) xs
    → length behind + 1 + j ≤ collision_guard_size
    → j < length xs
    → get_or xs j [] ≢ y
later-ne y [] before behind j a h lt = elim lt [ ]
later-ne y (x ∷ xs) before behind zero a h lt = guard_hit-ne x y before behind a.0
later-ne y (x ∷ xs) before behind (suc j) a h lt =
    let (before', e) = push_keeps x y before behind (omega arith) in
    later-ne y xs before' (behind ++ (x ∷ [])) j (rw e at (a.1))
      (omega (arith, length-append behind (x ∷ []))) (omega arith)

pushed :
    (x : Bytes) (guard : List Bytes)
    → (before : List Bytes) × (push_guard x guard ≡ before ++ (x ∷ []))
unfolding push_guard
pushed x [] = ([], refl)
pushed x (g ∷ guard) =
    elim (Bool-cases (ltb collision_guard_size (length ((g ∷ guard) ++ (x ∷ []))))) [
      | inl full ↦ (guard, rw full refl)
      | inr room ↦ (g ∷ guard, rw room refl)
    ]

Apart-ne :
    (xs guard : List Bytes) (i k : ℕ)
    → Apart guard xs
    → suc k ≤ collision_guard_size
    → i + suc k < length xs
    → get_or xs (i + suc k) [] ≢ get_or xs i []
Apart-ne [] guard i k a h lt = elim lt [ ]
Apart-ne (x ∷ xs) guard zero k a h lt =
    let (before, e) = pushed x guard in
    rw zero-add (later-ne x xs before [] k (rw e at (a.1)) (omega arith) (omega arith))
Apart-ne (x ∷ xs) guard (suc i) k a h lt =
    rw suc-add (Apart-ne xs (push_guard x guard) i k a.1 h (omega arith))

-- The map hash of each part.
abbrev pub hashes : Crypto → Bytes → List Bytes → List Bytes
hashes c r parts = map (λ p. resource_map_hash c p r) parts

loop-Apart :
    (c : Crypto) (r : Bytes) (parts guard : List Bytes) (out hm : Bytes)
    → hashmap_loop c r guard out parts ≡ ok hm
    → Apart guard (hashes c r parts) × (hm ≡ out ++ join (hashes c r parts))
unfolding hashmap_loop
loop-Apart c r [] guard out hm h = (tt, ground (arith, append-nil out))
loop-Apart c r (p ∷ parts) guard out hm h =
    let mh = resource_map_hash c p r in
    elim (Bool-cases (guard_hit mh guard)) [
      | inl hit ↦ absurd (cc (rw hit at h))
      | inr clear ↦
          let (a, e) = loop-Apart c r parts (push_guard mh guard) (out ++ mh) hm (rw clear at h) in
          ((clear, a), e ∙ append_assoc out mh (join (hashes c r parts)))
    ]

-- A hashmap that is built is the map hashes of the parts in order, and any two parts at most
-- CollisionGuardSize apart have distinct map hashes.
pub build_hashmap-ok :
    (c : Crypto) (parts : List Bytes) (r hm : Bytes)
    → build_hashmap c parts r ≡ ok hm
    → (hm ≡ join (hashes c r parts))
      × ((i k : ℕ)
          → suc k ≤ collision_guard_size
          → i + suc k < length (hashes c r parts)
          → get_or (hashes c r parts) (i + suc k) [] ≢ get_or (hashes c r parts) i [])
unfolding build_hashmap
build_hashmap-ok c parts r hm h = elim (Bool-cases (length r == 4)) [
  | inl four ↦
      let (a, e) = loop-Apart c r parts [] [] hm (rw four at h) in
      (e, λ i k b lt. Apart-ne (hashes c r parts) [] i k a b lt)
  | inr other ↦ absurd (cc (rw other at h))
]
