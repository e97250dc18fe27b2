-- ===== src/Idmap/Invariant.antt =====
-- What ties the index, the list and the bubbles together.
use reticulum_forwarding_ser.Base.{
  ℕ, ◌≡◌, ◌⊎◌, refl, ap, Bool, true, false, not, ◌||◌, ◌&&◌, [], ◌∷◌, ◌++◌, ◌==◌, if◌then◌else◌,
  List, All, none, some, ==_iff, Bool-cases, inl, inr, arith,
}
use reticulum_forwarding_ser.Base.Bytes.{Bytes, ◌=ᵇ◌, beq_iff, beq_refl}
use reticulum_forwarding_ser.Base.Assoc.{lookup, insert, delete, All-delete}
use reticulum_forwarding_ser.Idmap.{Bubble, Cache, write, delete_views, unlist, remove_bubble}

unfoldable pub in_list : ℕ → List ℕ → Bool
in_list b [] = false
in_list b (r ∷ rs) = r == b || in_list b rs

-- Some recipient's view is the message id.
unfoldable pub has_view : Bytes → List (Bytes × Bytes) → Bool
has_view k [] = false
has_view k ((r, v) ∷ vs) = v =ᵇ k || has_view k vs

unfoldable pub Distinct : List ℕ → Type 0
Distinct [] = Unit {0}
Distinct (r ∷ rs) = (in_list r rs ≡ false) × Distinct rs

-- Each indexed message id belongs to a bubble that has it as a view and is in the list; a bubble
-- knows whether it is in the list, and is there once.
pub record IsValid (c : Cache) : Type 0 where
  pub indexed :
      All (λ e. (in_list e.1 c.lru ≡ true) × (has_view e.0 (c.heap e.1).views ≡ true)) c.by_msg_id
  pub listed : (b : ℕ) → (c.heap b).listed ≡ in_list b c.lru
  pub once : Distinct c.lru

unlist_head : (b : ℕ) (rs : List ℕ) → unlist b (b ∷ rs) ≡ rs
unfolding unlist
unlist_head b rs = ground arith

pub in_list-append : (b x : ℕ) (rs : List ℕ) → in_list b (rs ++ (x ∷ [])) ≡ (in_list b rs || x == b)
unfolding in_list
in_list-append b x [] = ground arith
in_list-append b x (r ∷ rs) = ground (arith, in_list-append b x rs)

pub in_list-unlist :
    (b x : ℕ) (rs : List ℕ) → Distinct rs → in_list b (unlist x rs) ≡ (not (x == b) && in_list b rs)
unfolding in_list unlist Distinct
in_list-unlist b x [] d = ground arith
in_list-unlist b x (r ∷ rs) (a, d) = ground (arith, in_list-unlist b x rs d)

pub Distinct-unlist : (x : ℕ) (rs : List ℕ) → Distinct rs → Distinct (unlist x rs)
unfolding in_list unlist Distinct
Distinct-unlist x [] d = tt
Distinct-unlist x (r ∷ rs) (a, d) = elim (Bool-cases (r == x)) [
  | inl e ↦ rw e d
  | inr e ↦ rw e (ground (arith, in_list-unlist r x rs d), Distinct-unlist x rs d)
]

pub Distinct-append :
    (x : ℕ) (rs : List ℕ) → in_list x rs ≡ false → Distinct rs → Distinct (rs ++ (x ∷ []))
unfolding in_list Distinct
Distinct-append x [] h d = (refl, tt)
Distinct-append x (r ∷ rs) h (a, d) =
    (ground (arith, in_list-append r x rs), Distinct-append x rs (ground arith) d)

absent-delete : (k : Bytes) (m : List (Bytes × ℕ)) → All (λ e. (k =ᵇ e.0) ≡ false) (delete k m)
unfolding delete
absent-delete k [] = tt
absent-delete k ((j, v) ∷ m) = elim (Bool-cases (j =ᵇ k)) [
  | inl e ↦ rw e (absent-delete k m)
  | inr e ↦ rw e (ground (arith, beq_iff j k, beq_iff k j), absent-delete k m)
]

pub All-with :
    (P Q R : Bytes × ℕ → Type 0)
    → ((e : Bytes × ℕ) → P e → Q e → R e)
    → (m : List (Bytes × ℕ)) → All P m
    → All Q m
    → All R m
All-with P Q R f [] a b = tt
All-with P Q R f (e ∷ m) (p, a) (q, b) = (f e p q, All-with P Q R f m a b)

All-delete_views :
    (P : Bytes × ℕ → Type 0) (vs : List (Bytes × Bytes)) (m : List (Bytes × ℕ))
    → All P m
    → All P (delete_views vs m)
unfolding delete_views
All-delete_views P [] m a = a
All-delete_views P ((r, k) ∷ vs) m a = All-delete_views P vs (delete k m) (All-delete P k m a)

absent-delete_views :
    (vs : List (Bytes × Bytes)) (m : List (Bytes × ℕ))
    → All (λ e. has_view e.0 vs ≡ false) (delete_views vs m)
unfolding delete_views has_view
absent-delete_views [] m = everywhere m
  where
    everywhere : (l : List (Bytes × ℕ)) → All (λ e. false ≡ false) l
    everywhere [] = tt
    everywhere (e ∷ l) = (refl, everywhere l)
absent-delete_views ((r, k) ∷ vs) m =
    All-with (λ e. (k =ᵇ e.0) ≡ false) (λ e. has_view e.0 vs ≡ false)
      (λ e. (k =ᵇ e.0 || has_view e.0 vs) ≡ false) (λ e p q. ground (arith, p, q))
      (delete_views vs (delete k m))
      (All-delete_views (λ e. (k =ᵇ e.0) ≡ false) vs (delete k m) (absent-delete k m))
      (absent-delete_views vs (delete k m))

pub has_view-insert :
    (k r m : Bytes) (vs : List (Bytes × Bytes))
    → ((lookup r vs ≡ none) ⊎ (lookup r vs ≡ some m))
    → has_view k vs ≡ true
    → has_view k (insert r m vs) ≡ true
unfolding has_view insert lookup
has_view-insert k r m [] f h = ground arith
has_view-insert k r m ((j, v) ∷ vs) f h = elim (Bool-cases (j =ᵇ r)) [
  | inl e ↦ (let same : v ≡ m = own f e in rw (e, ← same) h)
  | inr e ↦
      (let f' : (lookup r vs ≡ none) ⊎ (lookup r vs ≡ some m) = tail f e in
        rw e (ground (arith, h, has_view-insert k r m vs f')))
]
  where
    own :
        ((if j =ᵇ r then some v else lookup r vs) ≡ none)
          ⊎ ((if j =ᵇ r then some v else lookup r vs) ≡ some m)
        → (j =ᵇ r) ≡ true
        → v ≡ m
    own (inl q) e = ground arith
    own (inr q) e = ground arith

    tail :
        ((if j =ᵇ r then some v else lookup r vs) ≡ none)
          ⊎ ((if j =ᵇ r then some v else lookup r vs) ≡ some m)
        → (j =ᵇ r) ≡ false
        → (lookup r vs ≡ none) ⊎ (lookup r vs ≡ some m)
    tail (inl q) e = inl (ground arith)
    tail (inr q) e = inr (ground arith)

pub has_view-inserted :
    (r m : Bytes) (vs : List (Bytes × Bytes)) → has_view m (insert r m vs) ≡ true
unfolding has_view insert
has_view-inserted r m [] = ground (arith, beq_refl m)
has_view-inserted r m ((j, v) ∷ vs) = ground (arith, beq_refl m, has_view-inserted r m vs)

-- The views of a bubble are only ever changed by its registrations.
pub remove_bubble-views :
    (b x : ℕ) (c : Cache) → ((remove_bubble b c).heap x).views ≡ (c.heap x).views
unfolding remove_bubble
remove_bubble-views b x c = elim (Bool-cases (c.heap b).listed) [
  | inr e ↦ rw (remove_bubble, e) refl
  | inl e ↦ elim (Bool-cases (b == x)) [
    | inl q ↦
        (let same : b ≡ x = (==_iff b x).0 q in
          rw (remove_bubble, e, q) (ap (λ t. (c.heap t).views) same))
    | inr q ↦ rw (remove_bubble, e, q) refl
  ]
]

-- Without one bubble's views and its element, the rest stays tied together.
pub remove_bubble-IsValid : (b : ℕ) (c : Cache) → IsValid c → IsValid (remove_bubble b c)
unfolding remove_bubble
remove_bubble-IsValid b c w =
    let vs = (c.heap b).views in
    let kept =
      All-delete_views (λ e. (in_list e.1 c.lru ≡ true) × (has_view e.0 (c.heap e.1).views ≡ true))
        vs c.by_msg_id w.indexed in
    elim (Bool-cases (c.heap b).listed) [
      | inr e ↦ rw (remove_bubble, e) (record { indexed = kept; listed = w.listed; once = w.once })
      | inl e ↦
          rw (remove_bubble, e)
            (record {
              indexed =
                  All-with _ _ _ still (delete_views vs c.by_msg_id) kept
                    (absent-delete_views vs c.by_msg_id);
              listed = marks;
              once = Distinct-unlist b c.lru w.once;
            })
    ]
  where
    heap' : ℕ → Bubble
    heap' = write b (record (c.heap b) { listed = false }) c.heap

    still :
        (e : Bytes × ℕ)
        → (in_list e.1 c.lru ≡ true) × (has_view e.0 (c.heap e.1).views ≡ true)
        → has_view e.0 (c.heap b).views ≡ false
        → (in_list e.1 (unlist b c.lru) ≡ true) × (has_view e.0 (heap' e.1).views ≡ true)
    still e (l, h) gone = elim (Bool-cases (b == e.1)) [
      | inl q ↦
          absurd
            (ground (arith, h, gone, ap (λ t. has_view e.0 (c.heap t).views) ((==_iff b e.1).0 q)))
      | inr q ↦ (rw (in_list-unlist e.1 b c.lru w.once, q) l, rw q h)
    ]

    marks : (x : ℕ) → (heap' x).listed ≡ in_list x (unlist b c.lru)
    marks x = elim (Bool-cases (b == x)) [
      | inl q ↦ rw (in_list-unlist x b c.lru w.once, q) refl
      | inr q ↦ rw (in_list-unlist x b c.lru w.once, q) (w.listed x)
    ]
