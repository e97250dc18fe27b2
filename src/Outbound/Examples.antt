-- ===== src/Outbound/Examples.antt =====
-- A queue with two messages, of which one is retried.
use reticulum_forwarding_ser.Base.{ℕ, suc, ◌*◌, ◌≡◌, ◌⊎◌, false, [], ◌∷◌, All, none, some, arith}
use reticulum_forwarding_ser.Base.Bytes.{Bytes}
use reticulum_forwarding_ser.Outbound.{
  Message, Queue, recipient_unknown, is_due, pick_due, process_once, pending_count,
  new_outbound_queue, enqueue_bubble,
}
use reticulum_forwarding_ser.Outbound.Picking.{Best, pick_due-Best}
use reticulum_forwarding_ser.Outbound.Retries.{process_once-drains}
use reticulum_forwarding_ser.Outbound.Workers.{
  idle, stepped, enqueues, Exclusive, Reachable-Exclusive,
}

abbrev message : ℕ → Bytes → ℕ → ℕ → Message (Unit {0})
message ref recipient attempts next = record {
  ref = ref;
  id = ref ∷ [];
  recipient = recipient;
  body = 104 ∷ [];
  fields = tt;
  bubble = none;
  attempts = attempts;
  next_attempt = next;
  enqueued_at = 1;
}

abbrev two : Queue (Unit {0})
two = record {
  pending = message 0 (1 ∷ []) 1 0 ∷ message 1 (2 ∷ []) 0 0 ∷ [];
  in_flight = [];
  next_ref = 2;
  has_idmap = false;
  retry_wait = 10;
  path_request_wait = 7;
  max_attempts = 5;
  pathless_tries = 1;
  workers = 4;
}

pick_due-Best_example :
    ((pick_due (λ r. some 3) 50 two ≡ (none, two))
      × All (λ x. is_due 50 two.in_flight x ≡ false) two.pending)
    ⊎ ((m : Message (Unit {0})) × (pick_due (λ r. some 3) 50 two
          ≡ (some m, record two { in_flight = m.id ∷ two.in_flight }))
        × Best (λ r. some 3) 50 two.in_flight m two.pending)
pick_due-Best_example = pick_due-Best (λ r. some 3) 50 two

process_once-drains_example :
    (q' : Queue (Unit {0})) × (process_once
        (λ r. some 3)
        (λ m. recipient_unknown)
        50
        (suc (2 * pending_count two))
        two
      ≡ some q')
    × All (λ x. is_due 50 q'.in_flight x ≡ false) q'.pending
process_once-drains_example =
    process_once-drains (λ r. some 3) (λ m. recipient_unknown) 50 two (ground arith) (ground arith)

Reachable-Exclusive_example : Exclusive (record {
  queue = enqueue_bubble (9 ∷ []) 1 (2 ∷ []) (104 ∷ []) tt none new_outbound_queue;
  busy = [];
})
Reachable-Exclusive_example =
    Reachable-Exclusive (stepped idle (enqueues (9 ∷ []) 1 (2 ∷ []) (104 ∷ []) tt none))
