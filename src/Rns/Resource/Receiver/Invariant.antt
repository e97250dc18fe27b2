-- ===== src/Rns/Resource/Receiver/Invariant.antt =====
-- The invariant of a receiver, kept by its operations.
use reticulum_forwarding_ser.Base.{
  ℕ, zero, suc, ◌+◌, ◌-◌, ◌*◌, ◌/◌, ◌≤◌, ◌<◌, ◌≡◌, inl, inr, refl, sym, ap, ◌∙◌, Bool, true, false,
  not, ◌&&◌, ◌||◌, List, [], ◌∷◌, ◌==◌, ltb, Bool-cases, length, length-append, length-take,
  length-drop, length-replicate, length-set, take, drop, get_or, set, replicate, get_or-set_ne, ok,
  arith,
}
use reticulum_forwarding_ser.Base.Bytes.{Bytes, ◌=ᵇ◌, beq_iff}
use reticulum_forwarding_ser.Rns.Crypto.{Crypto}
use reticulum_forwarding_ser.Rns.Resource.{hashmap_max_len}
use reticulum_forwarding_ser.Rns.Resource.Receiver.{
  Receiver, Advertisement, open_receiver, copy_into, entry, Slot, slot, duplicate, unknown,
  find_slot, advance, fill_slot, window_base, window_size, settle, scan, place_part, Hmu,
  segment_room, extend_hashmap, apply_hmu, request_next_window,
}

-- The number of received parts.
abbrev pub count_true : List Bool → ℕ
count_true [] = 0
count_true (true ∷ fs) = suc (count_true fs)
count_true (false ∷ fs) = count_true fs

pub count_true-le : (fs : List Bool) → count_true fs ≤ length fs
count_true-le [] = omega arith
count_true-le (true ∷ fs) = omega (arith, count_true-le fs)
count_true-le (false ∷ fs) = omega (arith, count_true-le fs)

count_true-set :
    (fs : List Bool) (i : ℕ)
    → i < length fs
    → get_or fs i false ≡ false
    → count_true (set fs i true) ≡ suc (count_true fs)
count_true-set [] i h e = elim h [ ]
count_true-set (true ∷ fs) zero h e = cc
count_true-set (false ∷ fs) zero h e = refl
count_true-set (true ∷ fs) (suc i) h e = ap suc (count_true-set fs i (omega arith) e)
count_true-set (false ∷ fs) (suc i) h e = count_true-set fs i (omega arith) e

count_true-replicate : (n : ℕ) → count_true (replicate n false) ≡ 0
count_true-replicate zero = refl
count_true-replicate (suc n) = count_true-replicate n

pub flag-replicate : (n i : ℕ) → get_or (replicate n false) i false ≡ false
flag-replicate zero i = refl
flag-replicate (suc n) zero = refl
flag-replicate (suc n) (suc i) = flag-replicate n i

-- All parts have come exactly when the count is that of the parts.
pub count_true-full :
    (fs : List Bool) (i : ℕ) → count_true fs ≡ length fs → i < length fs → get_or fs i false ≡ true
count_true-full [] i e h = elim h [ ]
count_true-full (true ∷ fs) zero e h = refl
count_true-full (true ∷ fs) (suc i) e h = count_true-full fs i (omega arith) (omega arith)
count_true-full (false ∷ fs) i e h = absurd (omega (arith, count_true-le fs))

flag-in_range : (fs : List Bool) (i : ℕ) → get_or fs i false ≡ true → i < length fs
flag-in_range [] i e = cc
flag-in_range (f ∷ fs) zero e = omega arith
flag-in_range (f ∷ fs) (suc i) e = omega (arith, flag-in_range fs i e)

-- `advance` stops at the first part that is missing, or at its bound.
pub advance_lem :
    (n : ℕ) (fs : List Bool) (f : ℕ)
    → (f ≤ advance n fs f)
      × (advance n fs f ≤ f + n)
      × ((i : ℕ) → f ≤ i → i < advance n fs f → get_or fs i false ≡ true)
      × (advance n fs f < f + n → get_or fs (advance n fs f) false ≡ false)
unfolding advance
advance_lem zero fs f =
    (omega arith, omega arith, λ i a b. absurd (omega arith), λ h. absurd (omega arith))
advance_lem (suc n) fs f =
    let (lo, hi, all, stop) = advance_lem n fs (f + 1) in
    elim (Bool-cases (get_or fs f false)) [
      | inl here ↦ rw here (
        omega arith,
        omega arith,
        λ i a b. elim (Bool-cases (i == f)) [
          | inl e ↦ (let e' : i ≡ f = ground arith in rw e' here)
          | inr e ↦ all i (ground arith) b
        ],
        λ h. stop (omega arith),
      )
      | inr gap ↦ rw gap (omega arith, omega arith, λ i a b. absurd (omega arith), λ h. gap)
    ]

-- The slot that the scan finds: in its range, with the part's hash, and not yet received.
pub find_slot-slot :
    (hm : Bytes) (fs : List Bool) (mh : Bytes) (i n : ℕ) (dup : Bool) (j : ℕ)
    → find_slot hm fs mh i n dup ≡ slot j
    → (i ≤ j) × (j < i + n) × (entry hm j ≡ mh) × (get_or fs j false ≡ false)
unfolding find_slot
find_slot-slot hm fs mh i zero true j h = cc
find_slot-slot hm fs mh i zero false j h = cc
find_slot-slot hm fs mh i (suc n) dup j h =
    let same = entry hm i =ᵇ mh in
    elim (Bool-cases (same && not (get_or fs i false))) [
      | inl hit ↦
          (let e : i ≡ j = ground arith in
            let m : same ≡ true = ground arith in
            rw (← e) (omega arith, omega arith, (beq_iff _ _).0 m, ground arith))
      | inr next ↦
          (let (lo, hi, eq, free) =
              find_slot-slot hm fs mh (i + 1) n (same || dup) j (rw next at h) in
            (omega arith, omega arith, eq, free))
    ]

-- The lists have one length n, the hashmap has n entries of which a prefix is known, only parts of
-- known entries are received, they are counted, and the frontier is the first missing part.
pub record IsValid (rr : Receiver) : Type 0 where
  pub flags_n : length rr.received_flags ≡ length rr.parts
  pub hashmap_n : length rr.hashmap ≡ length rr.parts * 4
  pub known_le : rr.known_prefix ≤ length rr.parts
  pub received_known : (i : ℕ) → get_or rr.received_flags i false ≡ true → i < rr.known_prefix
  pub counted : rr.received_count ≡ count_true rr.received_flags
  pub frontier_le : rr.frontier ≤ length rr.parts
  pub frontier_done : (i : ℕ) → i < rr.frontier → get_or rr.received_flags i false ≡ true
  pub frontier_stop :
      rr.frontier < length rr.parts → get_or rr.received_flags rr.frontier false ≡ false

length-copy_into : (dst src : Bytes) → length (copy_into dst src) ≡ length dst
length-copy_into dst src = omega (
  arith,
  length-append (take (length dst) src) (drop (length src) dst),
  length-take (length dst) src,
  length-drop (length src) dst,
)

-- A new receiver has nothing received and satisfies the invariant, for every advertisement.
pub open_receiver-IsValid :
    (signing encryption : Bytes) (adv : Advertisement)
    → IsValid (open_receiver signing encryption adv)
unfolding open_receiver
open_receiver-IsValid signing encryption adv =
    let n = adv.num_parts in
    let lf = length-replicate n false in
    let nil : Bytes = [] in
    let lp = length-replicate n nil in
    record {
      flags_n = omega (arith, lf, lp);
      hashmap_n =
          length-copy_into (replicate (n * 4) 0) adv.hashmap
          ∙ length-replicate (n * 4) 0
          ∙ ap (λ t. t * 4) (sym lp);
      known_le = ground (arith, lp);
      received_known = λ i e. absurd (cc (flag-replicate n i));
      counted = sym (count_true-replicate n);
      frontier_le = omega arith;
      frontier_done = λ i h. elim h [ ];
      frontier_stop = λ h. flag-replicate n 0;
    }

module _ (rr : Receiver) (v : IsValid rr) (part : Bytes) (i : ℕ) (known : i < rr.known_prefix)
    (free : get_or rr.received_flags i false ≡ false) where
  in_flags : i < length rr.received_flags
  in_flags = omega (arith, v.flags_n, v.known_le)

  still :
      (j : ℕ)
      → get_or rr.received_flags j false ≡ true
      → get_or (set rr.received_flags i true) j false ≡ true
  still j e = elim (Bool-cases (i == j)) [
    | inl same ↦ absurd (let e' : i ≡ j = ground arith in cc (rw (← e') at e))
    | inr other ↦ get_or-set_ne rr.received_flags i j true false (ground arith) ∙ e
  ]

  set_known : (j : ℕ) → get_or (set rr.received_flags i true) j false ≡ true → j < rr.known_prefix
  set_known j e = elim (Bool-cases (i == j)) [
    | inl same ↦ (let e' : i ≡ j = ground arith in rw (← e') known)
    | inr other ↦
        v.received_known j (sym (get_or-set_ne rr.received_flags i j true false (ground arith)) ∙ e)
  ]

  pub fill_slot-IsValid : IsValid (fill_slot rr part i)
  unfolding fill_slot
  fill_slot-IsValid =
      let flags = set rr.received_flags i true in
      let n = length rr.parts in
      let (lo, hi, all, stop) = advance_lem (n - rr.frontier) flags rr.frontier in
      let lf = length-set rr.received_flags i true in
      let lp = length-set rr.parts i part in
      record {
        flags_n = lf ∙ v.flags_n ∙ sym lp;
        hashmap_n = v.hashmap_n ∙ ap (λ t. t * 4) (sym lp);
        known_le = omega (arith, v.known_le, lp);
        received_known = set_known;
        counted = omega (arith, v.counted, count_true-set rr.received_flags i in_flags free);
        frontier_le = omega (arith, hi, lp, v.frontier_le);
        frontier_done = λ j h. elim (Bool-cases (ltb j rr.frontier)) [
          | inl below ↦ still j (v.frontier_done j (ground arith))
          | inr above ↦ all j (ground arith) h
        ];
        frontier_stop = λ h. stop (omega (arith, h, lp, v.frontier_le));
      }

window_known :
    (rr : Receiver) (i : ℕ)
    → window_base rr ≤ i
    → i < window_base rr + window_size rr
    → i < rr.known_prefix
window_known rr i a b = ground arith

settle-IsValid :
    (c : Crypto) (rr : Receiver) (part : Bytes) (s : Slot)
    → IsValid rr
    → scan c rr part ≡ s
    → IsValid (settle rr part s).0
unfolding scan settle
settle-IsValid c rr part (slot i) v e =
    let (lo, hi, eq, free) = find_slot-slot _ _ _ _ _ _ i e in
    fill_slot-IsValid rr v part i (window_known rr i lo hi) free
settle-IsValid c rr part duplicate v e = v
settle-IsValid c rr part unknown v e = v

abbrev pub Fixed : Receiver → Receiver → Type 0
Fixed rr' rr =
    (rr'.hashmap ≡ rr.hashmap)
    × (rr'.known_prefix ≡ rr.known_prefix)
    × (rr'.hash ≡ rr.hash)
    × (rr'.random_r ≡ rr.random_r)
    × (rr'.expected_size ≡ rr.expected_size)
    × (rr'.data_size ≡ rr.data_size)
    × (rr'.signing ≡ rr.signing)
    × (rr'.encryption ≡ rr.encryption)

settle-Fixed : (rr : Receiver) (part : Bytes) (s : Slot) → Fixed (settle rr part s).0 rr
unfolding settle
settle-Fixed rr part (slot i) = (refl, refl, refl, refl, refl, refl, refl, refl)
settle-Fixed rr part duplicate = (refl, refl, refl, refl, refl, refl, refl, refl)
settle-Fixed rr part unknown = (refl, refl, refl, refl, refl, refl, refl, refl)

-- A part changes neither the hashmap nor what came from the advertisement and the link.
pub place_part-Fixed :
    (c : Crypto) (rr : Receiver) (part : Bytes) → Fixed (place_part c rr part).0 rr
unfolding place_part
place_part-Fixed c rr part = settle-Fixed rr part (scan c rr part)

-- Whatever part arrives, the invariant is kept.
pub place_part-IsValid :
    (c : Crypto) (rr : Receiver) (part : Bytes) → IsValid rr → IsValid (place_part c rr part).0
unfolding place_part
place_part-IsValid c rr part v = settle-IsValid c rr part (scan c rr part) v refl

-- What an accepted hashmap update says, and what it does.
pub apply_hmu-ok :
    (rr rr' : Receiver) (h : Hmu)
    → apply_hmu rr h ≡ ok rr'
    → (h.hmu_hash ≡ rr.hash)
      × (h.segment_index ≡ rr.known_prefix / hashmap_max_len)
      × (length h.hashmap_bytes ≤ segment_room rr)
      × (rr' ≡ extend_hashmap rr h.hashmap_bytes)
unfolding apply_hmu
apply_hmu-ok rr rr' h e = elim (Bool-cases (h.hmu_hash =ᵇ rr.hash)) [
  | inl same ↦ ((beq_iff _ _).0 same, ground arith, ground arith, ground arith)
  | inr other ↦ absurd (cc (rw other at e))
]

extend_hashmap-IsValid :
    (rr : Receiver) (bytes : Bytes)
    → IsValid rr
    → length bytes ≤ segment_room rr
    → IsValid (extend_hashmap rr bytes)
extend_hashmap-IsValid rr bytes v room =
    let off = rr.known_prefix * 4 in
    let room' : length bytes ≤ (length rr.parts - rr.known_prefix) * 4 = ground arith in
    record {
      flags_n = v.flags_n;
      hashmap_n = omega (
        arith,
        length-append (take off rr.hashmap) (copy_into (drop off rr.hashmap) bytes),
        length-take off rr.hashmap,
        length-copy_into (drop off rr.hashmap) bytes,
        length-drop off rr.hashmap,
        v.hashmap_n,
        v.known_le,
      );
      known_le = omega (arith, room', v.known_le);
      received_known = λ i e. omega (arith, v.received_known i e);
      counted = v.counted;
      frontier_le = v.frontier_le;
      frontier_done = v.frontier_done;
      frontier_stop = v.frontier_stop;
    }

-- An accepted hashmap update keeps the invariant: no entry is written past the last part.
pub apply_hmu-IsValid :
    (rr rr' : Receiver) (h : Hmu) → IsValid rr → apply_hmu rr h ≡ ok rr' → IsValid rr'
apply_hmu-IsValid rr rr' h v e =
    let (_, _, room, same) = apply_hmu-ok rr rr' h e in
    rw same (extend_hashmap-IsValid rr h.hashmap_bytes v room)

-- Asking for the next window changes the target only, and keeps the invariant.
pub request_next_window-IsValid : (rr : Receiver) → IsValid rr → IsValid (request_next_window rr).0
unfolding request_next_window
request_next_window-IsValid rr v = ground arith
