-- ===== src/Outbound/Picking.antt =====
-- The message that pickDue takes.
use reticulum_forwarding_ser.Base.{
  ℕ, suc, ◌≤◌, ◌<◌, ◌≡◌, ◌⊎◌, inl, inr, refl, true, false, ◌&&◌, ltb, [], ◌∷◌, List, All, Option,
  none, some, Bool-cases, arith,
}
use reticulum_forwarding_ser.Base.Bytes.{Bytes}
use reticulum_forwarding_ser.Outbound.{Message, Queue, is_due, beats, best_of, pick_due}

-- How recently a recipient was heard: 0 for never.
abbrev pub rank : Option ℕ → ℕ
rank none = 0
rank (some t) = suc t

beats-rank : (s t : Option ℕ) → beats s t ≡ ltb (rank t) (rank s)
unfolding beats
beats-rank none none = refl
beats-rank none (some t) = ground arith
beats-rank (some s) none = ground arith
beats-rank (some s) (some t) = ground arith

module _ {F : Type 0} (seen : Bytes → Option ℕ) (now : ℕ) (flying : List Bytes) where
  abbrev pub Due : Message F → Type 0
  Due m = is_due now flying m ≡ true

  abbrev pub recency : Message F → ℕ
  recency m = rank (seen m.recipient)

  -- The first message of a list among the due ones that were heard most recently.
  pub data Best (m : Message F) : List (Message F) → Type 0 where
    here :
        {ms : List (Message F)}
        → Due m
        → All (λ x. Due x → recency x ≤ recency m) ms
        → Best m (m ∷ ms)
    there :
        {x : Message F} {ms : List (Message F)}
        → (Due x → recency x < recency m)
        → Best m ms
        → Best m (x ∷ ms)

  head-le :
      (m y : Message F) (ys : List (Message F)) → Due y → Best m (y ∷ ys) → recency y ≤ recency m
  head-le m y ys d (here e a) = omega arith
  head-le m y ys d (there f b) = omega (arith, f d)

  skip-second :
      (m b y : Message F) (ys : List (Message F))
      → Due b
      → (Due y → recency y ≤ recency b)
      → Best m (b ∷ ys)
      → Best m (b ∷ y ∷ ys)
  skip-second m b y ys d le (here e a) = here e (le, a)
  skip-second m b y ys d le (there f r) = there f (there (λ dy. omega (arith, le dy, f d)) r)

  best_of-some :
      (b : Message F) (ms : List (Message F))
      → Due b
      → (m : Message F) × (best_of seen now flying (some b) ms ≡ some m) × Best m (b ∷ ms)
  unfolding best_of
  best_of-some b [] d = (b, refl, here d tt)
  best_of-some b (y ∷ ys) d =
      let r = beats-rank (seen y.recipient) (seen b.recipient) in
      elim (Bool-cases (is_due now flying y && beats (seen y.recipient) (seen b.recipient))) [
        | inl e ↦
            (let dy : Due y = ground arith in
              let lt : recency b < recency y = ground (arith, r) in
              let (m, q, best) = best_of-some y ys dy in
              (m, rw e q, there (λ u. omega (arith, lt, head-le m y ys dy best)) best))
        | inr e ↦
            (let (m, q, best) = best_of-some b ys d in
              (m, rw e q, skip-second m b y ys d (λ dy. ground (arith, r)) best))
      ]

  best_of-none :
      (ms : List (Message F))
      → ((best_of seen now flying none ms ≡ none) × All (λ x. is_due now flying x ≡ false) ms)
        ⊎ ((m : Message F) × (best_of seen now flying none ms ≡ some m) × Best m ms)
  unfolding best_of
  best_of-none [] = inl (refl, tt)
  best_of-none (y ∷ ys) = elim (Bool-cases (is_due now flying y)) [
    | inl e ↦ (let (m, q, best) = best_of-some y ys e in inr (m, rw e q, best))
    | inr e ↦ elim (best_of-none ys) [
      | inl (q, a) ↦ inl (rw e q, (e, a))
      | inr (m, q, best) ↦ inr (m, rw e q, there (λ d. absurd (ground (arith, d))) best)
    ]
  ]

-- Either no pending message is due, and the queue is left as it is, or one is picked and marked as
-- in flight: of the due messages whose recipients were heard most recently, the one that was
-- enqueued first. A recipient that was never heard comes after all that were.
pub pick_due-Best :
    {F : Type 0} (seen : Bytes → Option ℕ) (now : ℕ) (q : Queue F)
    → ((pick_due seen now q ≡ (none, q)) × All (λ x. is_due now q.in_flight x ≡ false) q.pending)
      ⊎ ((m : Message F) × (pick_due seen now q
            ≡ (some m, record q { in_flight = m.id ∷ q.in_flight }))
          × Best seen now q.in_flight m q.pending)
unfolding pick_due
pick_due-Best seen now q = elim (best_of-none seen now q.in_flight q.pending) [
  | inl (e, a) ↦ inl (rw (pick_due, e) refl, a)
  | inr (m, e, b) ↦ inr (m, rw (pick_due, e) refl, b)
]
