-- ===== src/Outbound/Workers.antt =====
-- The worker pool: workers that pick and send messages at any pace, and messages that are enqueued
-- meanwhile.
use reticulum_forwarding_ser.Base.{
  ℕ, suc, ◌≤◌, ◌<◌, ◌≡◌, refl, sym, ap, subst, ◌∙◌, Bool, false, not, ◌&&◌, ◌||◌, [], ◌∷◌, length,
  List, Option, some, inl, inr, some-injective, arith,
}
use reticulum_forwarding_ser.Base.Bytes.{Bytes, ◌=ᵇ◌, beq_iff}
use reticulum_forwarding_ser.Outbound.{
  Message, Queue, SendOutcome, in_flight?, without, pick_due, begin_attempt, finish_attempt,
  enqueue_bubble, new_outbound_queue,
}
use reticulum_forwarding_ser.Outbound.Picking.{pick_due-Best}
use reticulum_forwarding_ser.Outbound.Work.{finish-Same}
use reticulum_forwarding_ser.Outbound.Retries.{Best-absent}

-- The workers that hold a message: with it picked, or with its attempt counted and sent.
pub data Stage : Type 0 where
  picked sending : Stage

pub record Pool (F : Type 0) : Type 0 where
  pub queue : Queue F
  pub busy : List (Stage × Message F)

-- No id occurs twice.
pub Distinct : List Bytes → Type 0
Distinct [] = Unit {0}
Distinct (x ∷ xs) = (in_flight? x xs ≡ false) × Distinct xs

in_flight-without :
    (x id : Bytes) (l : List Bytes)
    → in_flight? id (without x l) ≡ (not (x =ᵇ id) && in_flight? id l)
unfolding in_flight? without
in_flight-without x id [] = ground arith
in_flight-without x id (y ∷ l) =
    ground (arith, beq_iff y x, beq_iff x id, beq_iff y id, in_flight-without x id l)

without_one :
    (id x : Bytes) (xs : List Bytes) (b : Bool)
    → in_flight? x xs ≡ false
    → b ≡ in_flight? id (x ∷ xs)
    → (not (x =ᵇ id) && b) ≡ in_flight? id xs
unfolding in_flight?
without_one id x xs b h e = ground (arith, beq_iff x id, e)

module _ {F : Type 0} where
  abbrev ids : List (Stage × Message F) → List Bytes
  ids [] = []
  ids ((s, m) ∷ ws) = m.id ∷ ids ws

  -- One worker's next locked region; `pre` and `post` are the others.
  pub data Moves
      : List (Stage × Message F) → Stage × Message F → List (Stage × Message F) → Type 0 where
    first : {w : Stage × Message F} {ws : List (Stage × Message F)} → Moves (w ∷ ws) w ws
    behind :
        {v w : Stage × Message F} {ws ws' : List (Stage × Message F)}
        → Moves ws w ws'
        → Moves (v ∷ ws) w (v ∷ ws')

  -- The steps of the pool. A worker that moves is taken out of the list and comes back at its head.
  pub data Step : Pool F → Pool F → Type 0 where
    picks :
        {q q' : Queue F} {m : Message F} {ws : List (Stage × Message F)} (seen : Bytes → Option ℕ)
        (now : ℕ)
        → length ws < q.workers
        → pick_due seen now q ≡ (some m, q')
        → Step (record { queue = q; busy = ws }) (record { queue = q'; busy = (picked, m) ∷ ws })
    begins :
        {q : Queue F} {m : Message F} {ws ws' : List (Stage × Message F)}
        → Moves ws (picked, m) ws'
        → Step
            (record { queue = q; busy = ws })
            (record {
              queue = (begin_attempt m q).1;
              busy = (sending, (begin_attempt m q).0) ∷ ws';
            })
    finishes :
        {q : Queue F} {m : Message F} {ws ws' : List (Stage × Message F)} (now : ℕ)
        (o : SendOutcome)
        → Moves ws (sending, m) ws'
        → Step
            (record { queue = q; busy = ws })
            (record { queue = finish_attempt now m o q; busy = ws' })
    enqueues :
        {q : Queue F} {ws : List (Stage × Message F)} (id : Bytes) (now : ℕ)
        (recipient body : Bytes) (fields : F) (bubble : Option ℕ)
        → Step
            (record { queue = q; busy = ws })
            (record { queue = enqueue_bubble id now recipient body fields bubble q; busy = ws })

  pub data Reachable : Pool F → Type 0 where
    idle : Reachable (record { queue = new_outbound_queue; busy = [] })
    stepped : {p p' : Pool F} → Reachable p → Step p p' → Reachable p'

  -- The ids that are marked in flight are those of the messages that workers hold, no id is held
  -- twice, and there are no more workers than the queue allows.
  pub record Exclusive (p : Pool F) : Type 0 where
    pub marked : (id : Bytes) → in_flight? id p.queue.in_flight ≡ in_flight? id (ids p.busy)
    pub once : Distinct (ids p.busy)
    pub bounded : length p.busy ≤ p.queue.workers

  moved :
      {ws ws' : List (Stage × Message F)} {w : Stage × Message F}
      → Moves ws w ws'
      → (id : Bytes) → in_flight? id (ids ws) ≡ in_flight? id (w.1.id ∷ ids ws')
  unfolding in_flight?
  moved first id = refl
  moved (behind mv) id = ground (arith, moved mv id)

  moved-Distinct :
      {ws ws' : List (Stage × Message F)} {w : Stage × Message F}
      → Moves ws w ws'
      → Distinct (ids ws)
      → Distinct (w.1.id ∷ ids ws')
  unfolding Distinct in_flight?
  moved-Distinct first d = d
  moved-Distinct {w = w} (behind {v = v} mv) (a, d) =
      let (b, e) = moved-Distinct mv d in
      let other = moved mv v.1.id in
      (
        ground (arith, a, b, other, beq_iff v.1.id w.1.id, beq_iff w.1.id v.1.id),
        (ground (arith, a, other), e),
      )

  moved-length :
      {ws ws' : List (Stage × Message F)} {w : Stage × Message F}
      → Moves ws w ws'
      → length ws ≡ suc (length ws')
  moved-length first = refl
  moved-length (behind mv) = ap suc (moved-length mv)

  picks-Exclusive :
      (seen : Bytes → Option ℕ) (now : ℕ) (q q' : Queue F) (m : Message F)
      (ws : List (Stage × Message F))
      → length ws < q.workers
      → pick_due seen now q ≡ (some m, q')
      → Exclusive (record { queue = q; busy = ws })
      → Exclusive (record { queue = q'; busy = (picked, m) ∷ ws })
  unfolding in_flight? Distinct
  picks-Exclusive seen now q q' m ws le e x = elim (pick_due-Best seen now q) [
    | inl (n, a) ↦ absurd (cc)
    | inr (k, n, b) ↦
        (let km : k ≡ m = some-injective (ap (λ t. t.0) (sym n ∙ e)) in
          let same : record q { in_flight = k.id ∷ q.in_flight } ≡ q' = ap (λ t. t.1) (sym n ∙ e) in
          let absent = Best-absent seen now q.in_flight k q.pending b in
          subst (λ t. Exclusive (record { queue = t; busy = (picked, m) ∷ ws })) same
            (subst
              (λ t. Exclusive (record {
                queue = record q { in_flight = k.id ∷ q.in_flight };
                busy = (picked, t) ∷ ws;
              }))
              km
              (record {
                marked = λ id. ap (λ t. k.id =ᵇ id || t) (x.marked id);
                once = (sym (x.marked k.id) ∙ absent, x.once);
                bounded = omega arith;
              })))
  ]

  Step-Exclusive : {p p' : Pool F} → Step p p' → Exclusive p → Exclusive p'
  unfolding begin_attempt enqueue_bubble Distinct
  Step-Exclusive (picks {q} {q'} {m} {ws} seen now le e) x =
      picks-Exclusive seen now q q' m ws le e x
  Step-Exclusive (begins mv) x = record {
    marked = λ id. x.marked id ∙ moved mv id;
    once = moved-Distinct mv x.once;
    bounded = omega (arith, moved-length mv, x.bounded);
  }
  Step-Exclusive (finishes {q} {m} {ws} {ws'} now o mv) x =
      let kept = finish-Same now m o q in
      let (absent, rest) = moved-Distinct mv x.once in
      record {
        marked = λ id.
            ap (in_flight? id) kept.landed
            ∙ in_flight-without m.id id q.in_flight
            ∙ without_one id m.id (ids ws') (in_flight? id q.in_flight) absent
                (x.marked id ∙ moved mv id);
        once = rest;
        bounded = omega (arith, moved-length mv, x.bounded, kept.same_workers);
      }
  Step-Exclusive (enqueues id now recipient body fields bubble) x = record {
    marked = x.marked;
    once = x.once;
    bounded = x.bounded;
  }

  -- However the workers' steps and new messages interleave, no two workers ever hold messages with
  -- the same id, a worker holds a message exactly while its id is marked in flight, and there are
  -- at most as many at work as the queue allows.
  pub Reachable-Exclusive : {p : Pool F} → Reachable p → Exclusive p
  unfolding in_flight? Distinct new_outbound_queue
  Reachable-Exclusive idle = record { marked = λ id. refl; once = tt; bounded = ground arith }
  Reachable-Exclusive (stepped r st) = Step-Exclusive st (Reachable-Exclusive r)
