-- ===== src/Idmap/Removals.antt =====
-- The two loops that remove bubbles, and the bound that the second one reaches.
use reticulum_forwarding_ser.Base.{
  ℕ, zero, suc, ◌≤◌, ◌<◌, ◌≡◌, refl, ap, ◌∙◌, true, false, not, [], ◌∷◌, ◌==◌, ltb, leb, length,
  List, All, none, some, Bool-cases, List-cases, Option-cases, inl, inr, arith,
}
use reticulum_forwarding_ser.Base.Bytes.{Bytes}
use reticulum_forwarding_ser.Idmap.{
  Cache, back, len, unlist, remove_bubble, evict_loop, cap_loop, enforce_cap,
}
use reticulum_forwarding_ser.Idmap.Invariant.{
  in_list, IsValid, remove_bubble-views, remove_bubble-IsValid,
}

-- A cache after some bubbles were removed.
pub data Removals : Cache → Cache → Type 0 where
  same : {c : Cache} → Removals c c
  removing : {c c' : Cache} (b : ℕ) → Removals (remove_bubble b c) c' → Removals c c'

pub Removals-views : {c c' : Cache} → Removals c c' → (x : ℕ) → (c'.heap x).views ≡ (c.heap x).views
Removals-views same x = refl
Removals-views {c} (removing b r) x = Removals-views r x ∙ remove_bubble-views b x c

pub Removals-IsValid : {c c' : Cache} → Removals c c' → IsValid c → IsValid c'
Removals-IsValid same w = w
Removals-IsValid {c} (removing b r) w = Removals-IsValid r (remove_bubble-IsValid b c w)

remove_bubble-max : (b : ℕ) (c : Cache) → (remove_bubble b c).max_size ≡ c.max_size
unfolding remove_bubble
remove_bubble-max b c = elim (Bool-cases (c.heap b).listed) [
  | inl e ↦ rw (remove_bubble, e) refl
  | inr e ↦ rw (remove_bubble, e) refl
]

pub Removals-max : {c c' : Cache} → Removals c c' → c'.max_size ≡ c.max_size
Removals-max same = refl
Removals-max {c} (removing b r) = Removals-max r ∙ remove_bubble-max b c

pub evict_loop-Removals : (now n : ℕ) (c : Cache) → Removals c (evict_loop now n c)
unfolding evict_loop
evict_loop-Removals now zero c = same
evict_loop-Removals now (suc n) c = elim (Option-cases (back c.lru)) [
  | inl e ↦ rw (evict_loop, e) same
  | inr (b, e) ↦ elim (Bool-cases (not (ltb (c.heap b).expires_at now))) [
    | inl q ↦ rw (evict_loop, e, q) same
    | inr q ↦ rw (evict_loop, e, q) (removing b (evict_loop-Removals now n (remove_bubble b c)))
  ]
]

cap_loop-Removals : (n : ℕ) (c : Cache) → Removals c (cap_loop n c)
unfolding cap_loop
cap_loop-Removals zero c = same
cap_loop-Removals (suc n) c = elim (Bool-cases (leb (length c.by_msg_id) c.max_size)) [
  | inl q ↦ rw (cap_loop, q) same
  | inr q ↦ elim (Option-cases (back c.lru)) [
    | inl e ↦ rw (cap_loop, q, e) same
    | inr (b, e) ↦ rw (cap_loop, q, e) (removing b (cap_loop-Removals n (remove_bubble b c)))
  ]
]

pub enforce_cap-Removals : (c : Cache) → Removals c (enforce_cap c)
unfolding enforce_cap
enforce_cap-Removals c = elim (Bool-cases (c.max_size == 0)) [
  | inl e ↦ rw (enforce_cap, e) same
  | inr e ↦ rw (enforce_cap, e) (cap_loop-Removals (length c.lru) c)
]

back-none : (l : List ℕ) → back l ≡ none → l ≡ []
unfolding back
back-none [] h = refl
back-none (b ∷ l) h = absurd cc

back-some :
    (l : List ℕ) (b : ℕ)
    → back l ≡ some b
    → (in_list b l ≡ true) × (suc (length (unlist b l)) ≡ length l)
unfolding back in_list unlist
back-some [] b h = absurd cc
back-some (x ∷ l) b h = (ground arith, ground arith)

-- With the list empty, nothing is indexed.
empty-index :
    (m : List (Bytes × ℕ)) (l : List ℕ) (P : Bytes × ℕ → Type 0)
    → l ≡ []
    → All (λ e. (in_list e.1 l ≡ true) × P e) m
    → m ≡ []
unfolding in_list
empty-index [] l P h a = refl
empty-index (e ∷ m) l P h ((q, p), a) = absurd (ground (arith, q, ap (in_list e.1) h))

-- Removing the oldest bubble shortens the list.
remove_bubble-shorter :
    (b : ℕ) (c : Cache)
    → IsValid c
    → back c.lru ≡ some b
    → suc (length (remove_bubble b c).lru) ≡ length c.lru
unfolding remove_bubble
remove_bubble-shorter b c w h =
    let (member, shorter) = back-some c.lru b h in
    let e : (c.heap b).listed ≡ true = w.listed b ∙ member in rw (remove_bubble, e) shorter

cap_loop-bound :
    (n : ℕ) (c : Cache)
    → IsValid c
    → length c.lru ≤ n
    → length (cap_loop n c).by_msg_id ≤ c.max_size
unfolding cap_loop
cap_loop-bound zero c w h = elim (List-cases c.lru) [
  | inl e ↦
      (let none_left = ap length (empty-index c.by_msg_id c.lru _ e w.indexed) in
        omega (arith, none_left))
  | inr (b, rs, e) ↦ absurd (omega (arith, h, ap length e))
]
cap_loop-bound (suc n) c w h = elim (Bool-cases (leb (length c.by_msg_id) c.max_size)) [
  | inl q ↦ rw (cap_loop, q) (ground (arith, q))
  | inr q ↦ elim (Option-cases (back c.lru)) [
    | inl e ↦
        (let none_left =
            ap length (empty-index c.by_msg_id c.lru _ (back-none c.lru e) w.indexed) in
          rw (cap_loop, q, e) (omega (arith, none_left)))
    | inr (b, e) ↦
        (let rest =
            cap_loop-bound n (remove_bubble b c) (remove_bubble-IsValid b c w)
              (omega (arith, h, remove_bubble-shorter b c w e)) in
          rw (cap_loop, q, e) (omega (arith, rest, remove_bubble-max b c)))
  ]
]

pub enforce_cap-bound : (c : Cache) → IsValid c → 0 < c.max_size → len (enforce_cap c) ≤ c.max_size
unfolding enforce_cap len
enforce_cap-bound c w h =
    let on : (c.max_size == 0) ≡ false = ground arith in
    rw (enforce_cap, on) (cap_loop-bound (length c.lru) c w (omega arith))
