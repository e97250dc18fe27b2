-- ===== src/Rns/Resource/Receiver/Placing.antt =====
-- A part of the transfer lands in its own slot.
use reticulum_forwarding_ser.Base.{
  ℕ, zero, suc, ◌+◌, ◌-◌, ◌≤◌, ◌<◌, ◌≡◌, ◌≢◌, inl, inr, refl, sym, ap, ◌∙◌, Bool, true, false, List,
  [], ◌∷◌, ◌==◌, ltb, if◌then◌else◌, Bool-cases, length, length-set, get_or, get_or-set_self,
  get_or-set_ne, ok, arith,
}
use reticulum_forwarding_ser.Base.Bytes.{Bytes, ◌=ᵇ◌, beq_iff}
use reticulum_forwarding_ser.Rns.Crypto.{Crypto}
use reticulum_forwarding_ser.Rns.Resource.{collision_guard_size, resource_map_hash, build_hashmap}
use reticulum_forwarding_ser.Rns.Resource.Hashmap.{hashes, build_hashmap-ok}
use reticulum_forwarding_ser.Rns.Resource.Receiver.{
  Receiver, entry, Slot, slot, duplicate, unknown, find_slot, placed, duplicate_part, fill_slot,
  window_base, window_size, settle, scan, place_part,
}
use reticulum_forwarding_ser.Rns.Resource.Receiver.Invariant.{IsValid}

-- No entry of the range matches.
find_slot-none :
    (hm : Bytes) (fs : List Bool) (mh : Bytes) (i n : ℕ) (dup : Bool)
    → ((j : ℕ) → i ≤ j → j < i + n → entry hm j ≢ mh)
    → find_slot hm fs mh i n dup ≡ (if dup then duplicate else unknown)
unfolding find_slot
find_slot-none hm fs mh i zero dup h = refl
find_slot-none hm fs mh i (suc n) dup h =
    let differs : (entry hm i =ᵇ mh) ≡ false = elim (Bool-cases (entry hm i =ᵇ mh)) [
      | inl same ↦ absurd (h i (omega arith) (omega arith) ((beq_iff _ _).0 same))
      | inr other ↦ other
    ] in
    rw differs (find_slot-none hm fs mh (i + 1) n dup (λ j a b. h j (omega arith) (omega arith)))

-- One entry of the range matches: it is found if it is not received, and a duplicate if it is.
find_slot-own :
    (hm : Bytes) (fs : List Bool) (mh : Bytes) (i n : ℕ) (dup : Bool) (k : ℕ)
    → i ≤ k
    → k < i + n
    → entry hm k ≡ mh
    → ((j : ℕ) → i ≤ j → j < i + n → entry hm j ≡ mh → j ≡ k)
    → find_slot hm fs mh i n dup ≡ (if get_or fs k false then duplicate else slot k)
unfolding find_slot
find_slot-own hm fs mh i zero dup k lo hi e u = absurd (omega arith)
find_slot-own hm fs mh i (suc n) dup k lo hi e u = elim (Bool-cases (i == k)) [
  | inl here ↦
      (let ik : i ≡ k = ground arith in
        let same : (entry hm i =ᵇ mh) ≡ true = (beq_iff _ _).1 (rw ik e) in
        let rest =
          find_slot-none hm fs mh (i + 1) n true
            (λ j a b m. absurd (let jk = u j (omega arith) (omega arith) m in omega arith)) in
        elim (Bool-cases (get_or fs i false)) [
          | inl got ↦ rw (same, got, rest) (rw (← ik) (rw got refl))
          | inr free ↦ rw (same, free) (rw (← ik) (rw free refl))
        ])
  | inr there ↦
      (let differs : (entry hm i =ᵇ mh) ≡ false = elim (Bool-cases (entry hm i =ᵇ mh)) [
        | inl same ↦
            absurd (let ik = u i (omega arith) (omega arith) ((beq_iff _ _).0 same) in ground arith)
        | inr other ↦ other
      ] in
        rw differs (
          find_slot-own hm fs mh (i + 1) n dup k (ground arith) (omega arith) e
            (λ j a b m. u j (omega arith) (omega arith) m)))
]

settle_ignores :
    (rr : Receiver) (part : Bytes) (s : Slot)
    → (settle rr part s).1 ≢ placed
    → (settle rr part s).0 ≡ rr
unfolding settle
settle_ignores rr part (slot i) h = absurd (h refl)
settle_ignores rr part duplicate h = refl
settle_ignores rr part unknown h = refl

-- A part that is not placed changes nothing.
pub place_part_ignores :
    (c : Crypto) (rr : Receiver) (part : Bytes)
    → (place_part c rr part).1 ≢ placed
    → (place_part c rr part).0 ≡ rr
unfolding place_part
place_part_ignores c rr part h = settle_ignores rr part (scan c rr part) h

-- The receiver holds parts of `orig` only, and knows a prefix of its map hashes.
pub record Tracks (c : Crypto) (orig : List Bytes) (rr : Receiver) : Type 0 where
  pub same_n : length rr.parts ≡ length orig
  pub entries :
      (i : ℕ)
      → i < rr.known_prefix
      → entry rr.hashmap i ≡ resource_map_hash c (get_or orig i []) rr.random_r
  pub same_part :
      (i : ℕ) → get_or rr.received_flags i false ≡ true → get_or rr.parts i [] ≡ get_or orig i []

-- Parts at most CollisionGuardSize apart have distinct map hashes.
abbrev pub Guarded : Crypto → Bytes → List Bytes → Type 0
Guarded c r orig =
    (i k : ℕ)
    → suc k ≤ collision_guard_size
    → i + suc k < length orig
    → resource_map_hash c (get_or orig (i + suc k) []) r ≢ resource_map_hash c (get_or orig i []) r

pub hashes-get_or :
    (c : Crypto) (r : Bytes) (orig : List Bytes) (i : ℕ)
    → i < length orig
    → get_or (hashes c r orig) i [] ≡ resource_map_hash c (get_or orig i []) r
hashes-get_or c r [] i h = elim h [ ]
hashes-get_or c r (p ∷ orig) zero h = refl
hashes-get_or c r (p ∷ orig) (suc i) h = hashes-get_or c r orig i (omega arith)

pub length-hashes :
    (c : Crypto) (r : Bytes) (orig : List Bytes) → length (hashes c r orig) ≡ length orig
length-hashes c r [] = refl
length-hashes c r (p ∷ orig) = ap suc (length-hashes c r orig)

-- The parts of a sender whose hashmap was built are guarded.
pub build_hashmap-Guarded :
    (c : Crypto) (orig : List Bytes) (r hm : Bytes)
    → build_hashmap c orig r ≡ ok hm
    → Guarded c r orig
build_hashmap-Guarded c orig r hm h i k g lt e =
    (build_hashmap-ok c orig r hm h).1 i k g (rw length-hashes lt)
      (hashes-get_or c r orig (i + suc k) lt ∙ e ∙ sym (hashes-get_or c r orig i (omega arith)))

-- Two entries of one window with the same map hash are one entry.
Guarded-eq :
    (c : Crypto) (r : Bytes) (orig : List Bytes) (i j : ℕ)
    → Guarded c r orig
    → i < length orig
    → j < length orig
    → i < j + collision_guard_size
    → j < i + collision_guard_size
    → resource_map_hash c (get_or orig i []) r ≡ resource_map_hash c (get_or orig j []) r
    → i ≡ j
Guarded-eq c r orig i j g hi hj near near' e = elim (Bool-cases (ltb i j)) [
  | inl below ↦
      (let lt : i < j = ground arith in
        let at : i + suc (j - i - 1) ≡ j = omega arith in
        absurd (g i (j - i - 1) (omega arith) (rw at hj) (rw at (sym e))))
  | inr above ↦ elim (Bool-cases (ltb j i)) [
    | inl below ↦
        (let lt : j < i = ground arith in
          let at : j + suc (i - j - 1) ≡ i = omega arith in
          absurd (g j (i - j - 1) (omega arith) (rw at hi) (rw at e)))
    | inr same ↦ ground arith
  ]
]

module _ (c : Crypto) (orig : List Bytes) (rr : Receiver) (v : IsValid rr) (t : Tracks c orig rr)
    (g : Guarded c rr.random_r orig) (k : ℕ) (lo : window_base rr ≤ k)
    (hi : k < window_base rr + window_size rr) where
  in_known :
      (j : ℕ) → j < window_base rr + window_size rr → window_base rr ≤ j → j < rr.known_prefix
  in_known j a b = ground arith

  in_orig : (j : ℕ) → j < rr.known_prefix → j < length orig
  in_orig j a = omega (arith, v.known_le, t.same_n)

  size_le : window_size rr ≤ collision_guard_size
  size_le = ground arith

  found :
      find_slot rr.hashmap rr.received_flags
        (resource_map_hash c (get_or orig k []) rr.random_r)
        (window_base rr)
        (window_size rr)
        false
      ≡ (if get_or rr.received_flags k false then duplicate else slot k)
  found = find_slot-own _ _ _ _ _ _ k lo hi (t.entries k (in_known k hi lo)) λ j a b e.
      Guarded-eq c rr.random_r orig j k g (in_orig j (in_known j b a))
        (in_orig k (in_known k hi lo)) (omega (arith, size_le)) (omega (arith, size_le))
        (sym (t.entries j (in_known j b a)) ∙ e)

  pub place_part-own : place_part c rr (get_or orig k []) ≡ (
      if get_or rr.received_flags k false
      then (rr, duplicate_part)
      else (fill_slot rr (get_or orig k []) k, placed))
  unfolding place_part settle scan
  place_part-own =
      ap (settle rr (get_or orig k [])) found
      ∙ elim (Bool-cases (get_or rr.received_flags k false)) [
        | inl got ↦ rw got refl
        | inr free ↦ rw free refl
      ]

  fill_slot-Tracks :
      get_or rr.received_flags k false ≡ false → Tracks c orig (fill_slot rr (get_or orig k []) k)
  unfolding fill_slot
  fill_slot-Tracks free = record {
    same_n = length-set rr.parts k (get_or orig k []) ∙ t.same_n;
    entries = t.entries;
    same_part = λ i e. elim (Bool-cases (k == i)) [
      | inl here ↦
          (let ki : k ≡ i = ground arith in
            rw (← ki) (
              get_or-set_self rr.parts k (get_or orig k []) []
                (omega (arith, in_known k hi lo, v.known_le))))
      | inr other ↦
          (let ne : k ≢ i = ground arith in
            get_or-set_ne rr.parts k i (get_or orig k []) [] ne
            ∙ t.same_part i (sym (get_or-set_ne rr.received_flags k i true false ne) ∙ e))
    ];
  }

  -- So it leaves the receiver with parts of the transfer only.
  pub place_part-Tracks : Tracks c orig (place_part c rr (get_or orig k [])).0
  place_part-Tracks = elim (Bool-cases (get_or rr.received_flags k false)) [
    | inl got ↦ rw (place_part-own, got) t
    | inr free ↦ rw (place_part-own, free) (fill_slot-Tracks free)
  ]
