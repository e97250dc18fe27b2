-- ===== src/Idmap/Front.antt =====
-- A bubble that is registered or found goes to the front of the list.
use reticulum_forwarding_ser.Base.{
  ℕ, ◌≡◌, ◌⊎◌, refl, sym, ap, ◌∙◌, subst, Bool, true, false, ◌||◌, [], ◌∷◌, ◌++◌, ◌==◌, ==_iff,
  if◌then◌else◌, List, none, some, Bool-cases, inl, inr, arith,
}
use reticulum_forwarding_ser.Base.Bytes.{Bytes}
use reticulum_forwarding_ser.Base.Assoc.{lookup, insert, All-insert}
use reticulum_forwarding_ser.Idmap.{Bubble, Cache, write, unlist, move_to_front, index}
use reticulum_forwarding_ser.Idmap.Invariant.{
  in_list, has_view, Distinct, IsValid, in_list-append, in_list-unlist, Distinct-unlist,
  Distinct-append, All-with, has_view-insert, has_view-inserted,
}

-- The recipient has no view of the bubble yet, or the same one.
abbrev pub Fresh : ℕ → Bytes → Bytes → Cache → Type 0
Fresh b recipient_hex msg_id_hex c =
    (lookup recipient_hex (c.heap b).views ≡ none)
    ⊎ (lookup recipient_hex (c.heap b).views ≡ some msg_id_hex)

-- A registration as a change of the index, the list and the heap.
registered-IsValid :
    (b : ℕ) (r m : Bytes) (c : Cache) (lru' : List ℕ) (heap' : ℕ → Bubble)
    → Fresh b r m c
    → IsValid c
    → ((x : ℕ) → in_list x lru' ≡ (b == x || in_list x c.lru))
    → ((x : ℕ)
        → (heap' x).views ≡ (if b == x then insert r m (c.heap b).views else (c.heap x).views))
    → ((x : ℕ) → (heap' x).listed ≡ (b == x || (c.heap x).listed))
    → Distinct lru'
    → IsValid (record c { by_msg_id = insert m b c.by_msg_id; lru = lru'; heap = heap' })
registered-IsValid b r m c lru' heap' f w hl hv hm d = record {
  indexed =
      All-insert _ m b c.by_msg_id
        (
          hl b ∙ first (in_list b c.lru),
          ap (has_view m) (hv b ∙ own) ∙ has_view-inserted r m (c.heap b).views,
        )
        (All-with _ _ _ (λ e (l, h) u. (hl e.1 ∙ behind e.1 l, kept e h)) c.by_msg_id w.indexed
          w.indexed);
  listed = λ x. hm x ∙ ap (λ t. b == x || t) (w.listed x) ∙ sym (hl x);
  once = d;
}
  where
    first : (t : Bool) → (b == b || t) ≡ true
    first t = ground arith

    behind : (x : ℕ) → in_list x c.lru ≡ true → (b == x || in_list x c.lru) ≡ true
    behind x l = ground (arith, l)

    own :
        (if b == b then insert r m (c.heap b).views else (c.heap b).views)
        ≡ insert r m (c.heap b).views
    own = ground arith

    kept :
        (e : Bytes × ℕ)
        → has_view e.0 (c.heap e.1).views ≡ true
        → has_view e.0 (heap' e.1).views ≡ true
    kept e h = elim (Bool-cases (b == e.1)) [
      | inl q ↦
          (let same : b ≡ e.1 = (==_iff b e.1).0 q in
            rw (hv e.1, q) (has_view-insert e.0 r m (c.heap b).views f (rw same h)))
      | inr q ↦ rw (hv e.1, q) h
    ]

move-listed :
    (b : ℕ) (c : Cache)
    → (c.heap b).listed ≡ true
    → move_to_front b c ≡ record c { lru = unlist b c.lru ++ (b ∷ []) }
unfolding move_to_front
move-listed b c e = rw (move_to_front, e) refl

move-unlisted :
    (b : ℕ) (c : Cache)
    → (c.heap b).listed ≡ false
    → move_to_front b c ≡ record c {
      lru = c.lru ++ (b ∷ []);
      heap = write b (record (c.heap b) { listed = true }) c.heap;
    }
unfolding move_to_front
move-unlisted b c e = rw (move_to_front, e) refl

pub front-IsValid :
    (b : ℕ) (r m : Bytes) (c : Cache)
    → Fresh b r m c
    → IsValid c
    → IsValid (move_to_front b (index b r m c))
unfolding index
front-IsValid b r m c f w = elim (Bool-cases (c.heap b).listed) [
  | inl e ↦ subst IsValid (sym (move-listed b (index b r m c) (at ∙ e))) (
      registered-IsValid b r m c (unlist b c.lru ++ (b ∷ [])) heap1 f w
        (λ x. ground (arith, in_list-append x b (unlist b c.lru), in_list-unlist x b c.lru w.once))
        views1 (λ x. elim (Bool-cases (b == x)) [ inl q ↦ rw q e | inr q ↦ rw q refl ])
        (Distinct-append b (unlist b c.lru) (ground (arith, in_list-unlist b b c.lru w.once))
          (Distinct-unlist b c.lru w.once)))
  | inr e ↦ subst IsValid (sym (move-unlisted b (index b r m c) (at ∙ e))) (
      registered-IsValid b r m c (c.lru ++ (b ∷ [])) heap2 f w
        (λ x. ground (arith, in_list-append x b c.lru))
        (λ x. elim (Bool-cases (b == x)) [ inl q ↦ rw (q, self) refl | inr q ↦ rw q refl ])
        (λ x. elim (Bool-cases (b == x)) [ inl q ↦ rw q refl | inr q ↦ rw q refl ])
        (Distinct-append b c.lru (sym (w.listed b) ∙ e) w.once))
]
  where
    self : (b == b) ≡ true
    self = ground arith

    heap1 : ℕ → Bubble
    heap1 = write b (record (c.heap b) { views = insert r m (c.heap b).views }) c.heap

    heap2 : ℕ → Bubble
    heap2 = write b (record (heap1 b) { listed = true }) heap1

    at : (heap1 b).listed ≡ (c.heap b).listed
    at = rw self refl

    views1 :
        (x : ℕ)
        → (heap1 x).views ≡ (if b == x then insert r m (c.heap b).views else (c.heap x).views)
    views1 x = elim (Bool-cases (b == x)) [ inl q ↦ rw q refl | inr q ↦ rw q refl ]

pub front-max :
    (b : ℕ) (r m : Bytes) (c : Cache) → (move_to_front b (index b r m c)).max_size ≡ c.max_size
unfolding index
front-max b r m c = elim (Bool-cases ((index b r m c).heap b).listed) [
  | inl e ↦ ap (λ t. t.max_size) (move-listed b (index b r m c) e)
  | inr e ↦ ap (λ t. t.max_size) (move-unlisted b (index b r m c) e)
]

pub moved-IsValid :
    (b : ℕ) (c : Cache) → IsValid c → (c.heap b).listed ≡ true → IsValid (move_to_front b c)
moved-IsValid b c w e = subst IsValid (sym (move-listed b c e)) (record {
  indexed =
      All-with _ _ _ (λ t (l, h) u. (ground (arith, l, there t.1), h)) c.by_msg_id w.indexed
        w.indexed;
  listed = λ x. w.listed x ∙ sym (there x ∙ kept x);
  once =
      Distinct-append b (unlist b c.lru) (ground (arith, in_list-unlist b b c.lru w.once))
        (Distinct-unlist b c.lru w.once);
})
  where
    there : (x : ℕ) → in_list x (unlist b c.lru ++ (b ∷ [])) ≡ (b == x || in_list x c.lru)
    there x = ground (arith, in_list-append x b (unlist b c.lru), in_list-unlist x b c.lru w.once)

    kept : (x : ℕ) → (b == x || in_list x c.lru) ≡ in_list x c.lru
    kept x = elim (Bool-cases (b == x)) [
      | inl q ↦
          (let same : b ≡ x = (==_iff b x).0 q in
            rw q (sym (ap (λ t. in_list t c.lru) (sym same) ∙ sym (w.listed b) ∙ e)))
      | inr q ↦ rw q refl
    ]
