-- ===== src/Outbound/Work.antt =====
-- What an attempt leaves of the queue's work.
use reticulum_forwarding_ser.Base.{
  ℕ, suc, ◌+◌, ◌*◌, ◌≤◌, ◌<◌, ◌≡◌, inl, inr, refl, true, false, ◌==◌, ltb, leb, [], ◌∷◌,
  if◌then◌else◌, length, List, Option, Bool-cases, arith,
}
use reticulum_forwarding_ser.Base.Bytes.{Bytes, beq_refl}
use reticulum_forwarding_ser.Outbound.{
  Message, Queue, SendOutcome, sent, recipient_unknown, other_error, in_flight?, without, is_due,
  update_ref, remove_ref, delayed, finish_attempt,
}
use reticulum_forwarding_ser.Outbound.Picking.{Best, here, there}

pub without-absent :
    (id : Bytes) (ids : List Bytes) → in_flight? id ids ≡ false → without id ids ≡ ids
unfolding in_flight? without
without-absent id [] h = refl
without-absent id (x ∷ xs) h = ground (arith, without-absent id xs)

pub without-added :
    (id : Bytes) (ids : List Bytes) → in_flight? id ids ≡ false → without id (id ∷ ids) ≡ ids
unfolding without
without-added id ids h = rw (beq_refl id) (without-absent id ids h)

module _ {F : Type 0} where
  -- The two things that the end of an attempt can do to the pending list.
  pub data Settled (now : ℕ) (m : Message F) (q q' : Queue F) : Type 0 where
    removed : q'.pending ≡ remove_ref m.ref q.pending → Settled now m q q'
    retried :
        (wait : ℕ)
        → 0 < wait
        → suc m.attempts ≤ q.max_attempts
        → q'.pending ≡ update_ref m.ref (delayed (now + wait)) q.pending
        → Settled now m q q'

  -- What does not change.
  pub record Same (m : Message F) (q q' : Queue F) : Type 0 where
    pub landed : q'.in_flight ≡ without m.id q.in_flight
    pub same_retry : q'.retry_wait ≡ q.retry_wait
    pub same_path : q'.path_request_wait ≡ q.path_request_wait
    pub same_max : q'.max_attempts ≡ q.max_attempts
    pub same_next : q'.next_ref ≡ q.next_ref
    pub same_workers : q'.workers ≡ q.workers

  changed :
      (m : Message F) (q : Queue F) (ms : List (Message F))
      → Same m q (record q { pending = ms; in_flight = without m.id q.in_flight })
  changed m q ms = record {
    landed = refl;
    same_retry = refl;
    same_path = refl;
    same_max = refl;
    same_next = refl;
    same_workers = refl;
  }

  pub finish-Same :
      (now : ℕ) (m : Message F) (o : SendOutcome) (q : Queue F)
      → Same m q (finish_attempt now m o q)
  unfolding finish_attempt
  finish-Same now m (sent x) q = changed m q _
  finish-Same now m recipient_unknown q = elim (Bool-cases (leb q.max_attempts m.attempts)) [
    | inl e ↦ rw e (changed m q _)
    | inr e ↦ elim (Bool-cases (ltb q.pathless_tries m.attempts)) [
      | inl p ↦ rw (e, p) (changed m q _)
      | inr p ↦ rw (e, p) (changed m q _)
    ]
  ]
  finish-Same now m other_error q = elim (Bool-cases (leb q.max_attempts m.attempts)) [
    | inl e ↦ rw e (changed m q _)
    | inr e ↦ rw e (changed m q _)
  ]

  pub finish-Settled :
      (now : ℕ) (m : Message F) (o : SendOutcome) (q : Queue F)
      → 0 < q.retry_wait
      → 0 < q.path_request_wait
      → Settled now m q (finish_attempt now m o q)
  unfolding finish_attempt
  finish-Settled now m (sent x) q hr hp = removed refl
  finish-Settled now m recipient_unknown q hr hp =
      elim (Bool-cases (leb q.max_attempts m.attempts)) [
        | inl e ↦ removed (rw e refl)
        | inr e ↦ elim (Bool-cases (ltb q.pathless_tries m.attempts)) [
          | inl p ↦ retried q.path_request_wait hp (ground arith) (rw (e, p) refl)
          | inr p ↦ retried q.retry_wait hr (ground arith) (rw (e, p) refl)
        ]
      ]
  finish-Settled now m other_error q hr hp = elim (Bool-cases (leb q.max_attempts m.attempts)) [
    | inl e ↦ removed (rw e refl)
    | inr e ↦ retried q.retry_wait hr (ground arith) (rw e refl)
  ]

  -- One for each pending message, and one more if it is due.
  pub work : ℕ → List Bytes → List (Message F) → ℕ
  work now flying [] = 0
  work now flying (m ∷ ms) =
      let rest = work now flying ms in if is_due now flying m then 2 + rest else 1 + rest

  module _ (now : ℕ) (flying : List Bytes) where
    pub work-le : (ms : List (Message F)) → work now flying ms ≤ 2 * length ms
    unfolding work
    work-le [] = omega arith
    work-le (m ∷ ms) = ground (arith, work-le ms)

    length-le : (ms : List (Message F)) → length ms ≤ work now flying ms
    unfolding work
    length-le [] = omega arith
    length-le (m ∷ ms) = ground (arith, length-le ms)

    work-counted :
        (r : ℕ) (ms : List (Message F))
        → work now flying (update_ref r (λ x. record x { attempts = suc x.attempts }) ms)
          ≡ work now flying ms
    unfolding work update_ref is_due
    work-counted r [] = refl
    work-counted r (m ∷ ms) = ground (arith, work-counted r ms)

    delayed_not_due : (t : ℕ) (m : Message F) → now < t → is_due now flying (delayed t m) ≡ false
    unfolding is_due
    delayed_not_due t m h = ground arith

    work-delayed-le :
        (t r : ℕ) (ms : List (Message F))
        → now < t
        → work now flying (update_ref r (delayed t) ms) ≤ work now flying ms
    unfolding work update_ref
    work-delayed-le t r [] h = omega arith
    work-delayed-le t r (m ∷ ms) h =
        let rest = work-delayed-le t r ms h in
        elim (Bool-cases (m.ref == r)) [
          | inl e ↦ rw (e, delayed_not_due t m h) (ground (arith, rest))
          | inr e ↦ rw e (ground (arith, rest))
        ]

    work-delayed :
        (seen : Bytes → Option ℕ) (t : ℕ) (m : Message F) (ms : List (Message F))
        → now < t
        → Best seen now flying m ms
        → work now flying (update_ref m.ref (delayed t) ms) < work now flying ms
    unfolding work update_ref
    work-delayed seen t m [] h b = elim b [ ]
    work-delayed seen t m (y ∷ ms) h (here d a) =
        let same : (m.ref == m.ref) ≡ true = ground arith in
        let rest = work-delayed-le t m.ref ms h in
        rw (same, delayed_not_due t m h, d) (omega (arith, rest))
    work-delayed seen t m (y ∷ ms) h (there f b) =
        let rest = work-delayed seen t m ms h b in
        elim (Bool-cases (y.ref == m.ref)) [
          | inl e ↦ rw (e, delayed_not_due t y h) (ground (arith, rest))
          | inr e ↦ rw e (ground (arith, rest))
        ]

    work-removed :
        (seen : Bytes → Option ℕ) (m : Message F) (ms : List (Message F))
        → Best seen now flying m ms
        → work now flying (remove_ref m.ref ms) < work now flying ms
    unfolding work remove_ref
    work-removed seen m [] b = elim b [ ]
    work-removed seen m (y ∷ ms) (here d a) = ground arith
    work-removed seen m (y ∷ ms) (there f b) = ground (arith, work-removed seen m ms b)

  abbrev pub counted : ℕ → List (Message F) → List (Message F)
  counted r ms = update_ref r (λ x. record x { attempts = suc x.attempts }) ms

  work-removed-counted :
      (now : ℕ) (flying : List Bytes) (r : ℕ) (ms : List (Message F))
      → work now flying (remove_ref r (counted r ms)) ≡ work now flying (remove_ref r ms)
  unfolding work remove_ref update_ref is_due
  work-removed-counted now flying r [] = refl
  work-removed-counted now flying r (m ∷ ms) =
      ground (arith, work-removed-counted now flying r ms, work-counted now flying r ms)

  work-delayed-counted :
      (now : ℕ) (flying : List Bytes) (t r : ℕ) (ms : List (Message F))
      → work now flying (update_ref r (delayed t) (counted r ms))
        ≡ work now flying (update_ref r (delayed t) ms)
  unfolding work update_ref is_due
  work-delayed-counted now flying t r [] = refl
  work-delayed-counted now flying t r (m ∷ ms) = elim (Bool-cases (m.ref == r)) [
    | inl e ↦ rw (e, e) (ground (arith, e, work-delayed-counted now flying t r ms))
    | inr e ↦ rw (e, e) (ground (arith, e, work-delayed-counted now flying t r ms))
  ]

  -- A settled attempt of the message that was picked leaves less work.
  pub Settled-work :
      (seen : Bytes → Option ℕ) (now : ℕ) (flying : List Bytes) (m counted_m : Message F)
      (q q' : Queue F) (ms : List (Message F))
      → Best seen now flying m ms
      → counted_m.ref ≡ m.ref
      → q.pending ≡ counted m.ref ms
      → Settled now counted_m q q'
      → work now flying q'.pending < work now flying ms
  Settled-work seen now flying m k q q' ms b er e (removed s) =
      rw (s, er, e, work-removed-counted now flying m.ref ms) (work-removed now flying seen m ms b)
  Settled-work seen now flying m k q q' ms b er e (retried w h l s) =
      rw (s, er, e, work-delayed-counted now flying (now + w) m.ref ms)
        (work-delayed now flying seen (now + w) m ms (omega (arith, h)) b)
