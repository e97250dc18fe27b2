-- ===== src/Outbound/Retries.antt =====
-- A drain of the queue ends.
use reticulum_forwarding_ser.Base.{
  ap, ℕ, zero, suc, ◌*◌, ◌<◌, ◌≡◌, inl, inr, refl, ◌∙◌, false, [], ◌∷◌, length, List, All, Option,
  some, arith,
}
use reticulum_forwarding_ser.Base.Bytes.{Bytes}
use reticulum_forwarding_ser.Outbound.{
  Message, Queue, SendOutcome, in_flight?, is_due, begin_attempt, finish_attempt, attempt,
  process_once, pending_count,
}
use reticulum_forwarding_ser.Outbound.Picking.{Best, here, there, pick_due-Best}
use reticulum_forwarding_ser.Outbound.Work.{
  without-added, finish-Same, finish-Settled, work, work-le, counted, Settled-work,
}

module _ {F : Type 0} where
  -- A picked message is not in flight.
  pub Best-absent :
      (seen : Bytes → Option ℕ) (now : ℕ) (flying : List Bytes) (m : Message F)
      (ms : List (Message F))
      → Best seen now flying m ms
      → in_flight? m.id flying ≡ false
  unfolding is_due
  Best-absent seen now flying m [] b = elim b [ ]
  Best-absent seen now flying m (y ∷ ms) (here d a) = ground (arith, d)
  Best-absent seen now flying m (y ∷ ms) (there f b) = Best-absent seen now flying m ms b

  -- After an attempt of the message that was picked, the same messages are in flight as before it
  -- was, the settings are the same and there is less work.
  attempt-work :
      (seen : Bytes → Option ℕ) (send : Message F → SendOutcome) (now : ℕ) (m : Message F)
      (q : Queue F)
      → 0 < q.retry_wait
      → 0 < q.path_request_wait
      → Best seen now q.in_flight m q.pending
      → let q' = (attempt send now m (record q { in_flight = m.id ∷ q.in_flight })).1 in
        (q'.in_flight ≡ q.in_flight)
        × (q'.retry_wait ≡ q.retry_wait)
        × (q'.path_request_wait ≡ q.path_request_wait)
        × (work now q'.in_flight q'.pending < work now q.in_flight q.pending)
  unfolding attempt begin_attempt
  attempt-work seen send now m q hr hp b =
      let k = record m { attempts = suc m.attempts } in
      let q1 = record q { pending = counted m.ref q.pending; in_flight = m.id ∷ q.in_flight } in
      let same = finish-Same now k (send k) q1 in
      let landed : (finish_attempt now k (send k) q1).in_flight ≡ q.in_flight =
        same.landed
        ∙ without-added m.id q.in_flight (Best-absent seen now q.in_flight m q.pending b) in
      (
        landed,
        same.same_retry,
        same.same_path,
        rw landed (
            Settled-work seen now q.in_flight m k q1 (finish_attempt now k (send k) q1) q.pending b
              refl refl (finish-Settled now k (send k) q1 hr hp)),
      )

  process_once-ends :
      (seen : Bytes → Option ℕ) (send : Message F → SendOutcome) (now fuel : ℕ) (q : Queue F)
      → 0 < q.retry_wait
      → 0 < q.path_request_wait
      → work now q.in_flight q.pending < fuel
      → (q' : Queue F) × (process_once seen send now fuel q ≡ some q')
        × All (λ x. is_due now q'.in_flight x ≡ false) q'.pending
  unfolding process_once
  process_once-ends seen send now zero q hr hp h = absurd (omega arith)
  process_once-ends seen send now (suc n) q hr hp h = elim (pick_due-Best seen now q) [
    | inl (e, a) ↦ (q, rw (process_once, ap (λ t. t.0) e, ap (λ t. t.1) e) refl, a)
    | inr (m, e, b) ↦
        (let (ef, er, ep, lt) = attempt-work seen send now m q hr hp b in
          let q1 = (attempt send now m (record q { in_flight = m.id ∷ q.in_flight })).1 in
          let (q', r, a) =
            process_once-ends seen send now n q1 (rw er hr) (rw ep hp) (omega (arith, lt, h)) in
          (q', rw (process_once, ap (λ t. t.0) e, ap (λ t. t.1) e) r, a))
  ]

  -- A drain at one instant ends, whatever the sender answers, if the two waits are positive: with
  -- fuel for twice the pending messages and one more it returns, and then no pending message is
  -- due.
  pub process_once-drains :
      (seen : Bytes → Option ℕ) (send : Message F → SendOutcome) (now : ℕ) (q : Queue F)
      → 0 < q.retry_wait
      → 0 < q.path_request_wait
      → (q' : Queue F) × (process_once seen send now (suc (2 * pending_count q)) q ≡ some q')
        × All (λ x. is_due now q'.in_flight x ≡ false) q'.pending
  unfolding pending_count
  process_once-drains seen send now q hr hp =
      process_once-ends seen send now (suc (2 * length q.pending)) q hr hp
        (omega (arith, work-le now q.in_flight q.pending))
