-- ===== src/Outbound.antt =====
-- internal/service/outbound.go: the queue of outgoing messages. `pending` holds references to
-- message objects, which the model gives by their number; a body is what the sender gets. Locked
-- regions are single steps, and the clock and the sender's answers are arguments.
pub mod Picking
pub mod Work
pub mod Retries
pub mod Workers
mod Examples
use reticulum_forwarding_ser.Base.{
  ℕ, zero, suc, ◌+◌, ◌*◌, Bool, true, false, not, ◌&&◌, ◌||◌, [], ◌∷◌, ◌++◌, ◌==◌, ltb, leb,
  if◌then◌else◌, length, List, Option, none, some,
}
use reticulum_forwarding_ser.Base.Bytes.{Bytes, ◌=ᵇ◌, hex_encode}

-- Durations are in nanoseconds.
abbrev second : ℕ
second = 1000000000

abbrev pub max_delivery_attempts : ℕ
max_delivery_attempts = 5

abbrev pub delivery_retry_wait : ℕ
delivery_retry_wait = 10 * second

abbrev pub path_request_wait : ℕ
path_request_wait = 7 * second

abbrev pub max_pathless_tries : ℕ
max_pathless_tries = 1

abbrev pub processing_interval : ℕ
processing_interval = 4 * second

abbrev pub outbound_workers : ℕ
outbound_workers = 4

-- `ref` is the object's identity. `next_attempt` is 0 for Go's zero time, and `bubble` a reference.
pub record Message (F : Type 0) : Type 0 where
  pub ref : ℕ
  pub id : Bytes
  pub recipient : Bytes
  pub body : Bytes
  pub fields : F
  pub bubble : Option ℕ
  pub attempts : ℕ
  pub next_attempt : ℕ
  pub enqueued_at : ℕ

pub record Queue (F : Type 0) : Type 0 where
  pub pending : List (Message F)
  pub in_flight : List Bytes
  pub next_ref : ℕ
  pub has_idmap : Bool
  pub retry_wait : ℕ
  pub path_request_wait : ℕ
  pub max_attempts : ℕ
  pub pathless_tries : ℕ
  pub workers : ℕ

-- A send's outcome: the recipient's message id, an unknown recipient, or another error.
pub data SendOutcome : Type 0 where
  sent : Bytes → SendOutcome
  recipient_unknown other_error : SendOutcome

-- What an attempt does besides: the view it registers, or the path it asks for.
pub data Effect : Type 0 where
  register_view : ℕ → Bytes → Bytes → Effect
  request_path : Bytes → Effect

pub in_flight? : Bytes → List Bytes → Bool
in_flight? id [] = false
in_flight? id (x ∷ xs) = x =ᵇ id || in_flight? id xs

-- `delete(q.inFlight, id)`
pub without : Bytes → List Bytes → List Bytes
without id [] = []
without id (x ∷ xs) = let rest = without id xs in if x =ᵇ id then rest else x ∷ rest

-- The case that makes `m` the new best: there is none, or its announce is known where the best's
-- is not, or it is the more recent.
pub beats : Option ℕ → Option ℕ → Bool
beats none best_seen = false
beats (some seen) none = true
beats (some seen) (some best_seen) = ltb best_seen seen

abbrev registered : Bool → Option ℕ → Bytes → Bytes → List Effect
registered true (some b) recipient (x ∷ msg_id) =
    register_view b (hex_encode recipient) (hex_encode (x ∷ msg_id)) ∷ []
registered _ _ recipient msg_id = []

module _ {F : Type 0} where
  pub new_outbound_queue : Queue F
  new_outbound_queue = record {
    pending = [];
    in_flight = [];
    next_ref = 0;
    has_idmap = false;
    retry_wait = delivery_retry_wait;
    path_request_wait = path_request_wait;
    max_attempts = max_delivery_attempts;
    pathless_tries = max_pathless_tries;
    workers = outbound_workers;
  }

  pub set_id_map : Bool → Queue F → Queue F
  set_id_map c q = record q { has_idmap = c }

  -- EnqueueBubble, with the new message id.
  unfoldable pub enqueue_bubble : Bytes → ℕ → Bytes → Bytes → F → Option ℕ → Queue F → Queue F
  enqueue_bubble id now recipient body fields bubble q = record q {
    pending =
        q.pending
        ++ (record {
          ref = q.next_ref;
          id = id;
          recipient = recipient;
          body = body;
          fields = fields;
          bubble = bubble;
          attempts = 0;
          next_attempt = 0;
          enqueued_at = now;
        }
            ∷ []);
    next_ref = suc q.next_ref;
  }

  pub pending_count : Queue F → ℕ
  pending_count q = length q.pending

  -- A message that may be sent: it is not in flight, and its time has come.
  pub is_due : ℕ → List Bytes → Message F → Bool
  is_due now flying m =
      not (in_flight? m.id flying) && (m.next_attempt == 0 || not (ltb now m.next_attempt))

  -- The loop over the messages, with the best one so far; `seen` is LastAnnounceFor.
  pub best_of :
      (Bytes → Option ℕ)
      → ℕ
      → List Bytes
      → Option (Message F)
      → List (Message F)
      → Option (Message F)
  best_of seen now flying best [] = best
  best_of seen now flying none (m ∷ ms) =
      best_of seen now flying (if is_due now flying m then some m else none) ms
  best_of seen now flying (some b) (m ∷ ms) =
      best_of seen now flying
        (if is_due now flying m && beats (seen m.recipient) (seen b.recipient)
          then some m
          else some b)
        ms

  pub pick_due : (Bytes → Option ℕ) → ℕ → Queue F → Option (Message F) × Queue F
  pick_due seen now q = elim (best_of seen now q.in_flight none q.pending) [
    | none ↦ (none, q)
    | some m ↦ (some m, record q { in_flight = m.id ∷ q.in_flight })
  ]

  -- A change of the object with the reference, which the queue's pointers see.
  pub update_ref : ℕ → (Message F → Message F) → List (Message F) → List (Message F)
  update_ref r f [] = []
  update_ref r f (m ∷ ms) = (if m.ref == r then f m else m) ∷ update_ref r f ms

  -- removeLocked: the first pointer to the object.
  pub remove_ref : ℕ → List (Message F) → List (Message F)
  remove_ref r [] = []
  remove_ref r (m ∷ ms) = let rest = remove_ref r ms in if m.ref == r then ms else m ∷ rest

  -- `msg.Attempts++`, the first locked region of an attempt: the count, and the queue.
  pub begin_attempt : Message F → Queue F → Message F × Queue F
  begin_attempt m q = (
    record m { attempts = suc m.attempts },
    record q { pending = update_ref m.ref (λ x. record x { attempts = suc x.attempts }) q.pending },
  )

  abbrev delayed : ℕ → Message F → Message F
  delayed t m = record m { next_attempt = t }

  -- The second locked region, with the message that was sent and the attempts counted for it.
  pub finish_attempt : ℕ → Message F → SendOutcome → Queue F → Queue F
  finish_attempt now m (sent msg_id) q = record q {
    pending = remove_ref m.ref q.pending;
    in_flight = without m.id q.in_flight;
  }
  finish_attempt now m recipient_unknown q =
      let landed = without m.id q.in_flight in
      if leb q.max_attempts m.attempts
      then record q { pending = remove_ref m.ref q.pending; in_flight = landed }
      else (if ltb q.pathless_tries m.attempts
          then record q {
            pending = update_ref m.ref (delayed (now + q.path_request_wait)) q.pending;
            in_flight = landed;
          }
          else record q {
            pending = update_ref m.ref (delayed (now + q.retry_wait)) q.pending;
            in_flight = landed;
          })
  finish_attempt now m other_error q =
      let landed = without m.id q.in_flight in
      if leb q.max_attempts m.attempts
      then record q { pending = remove_ref m.ref q.pending; in_flight = landed }
      else record q {
        pending = update_ref m.ref (delayed (now + q.retry_wait)) q.pending;
        in_flight = landed;
      }

  -- What the attempt does besides the queue.
  pub effects : Message F → SendOutcome → Queue F → List Effect
  effects m (sent msg_id) q = registered q.has_idmap m.bubble m.recipient msg_id
  effects m recipient_unknown q =
      if not (leb q.max_attempts m.attempts) && ltb q.pathless_tries m.attempts
      then request_path m.recipient ∷ []
      else []
  effects m other_error q = []

  -- A whole attempt, when nothing else runs.
  pub attempt : (Message F → SendOutcome) → ℕ → Message F → Queue F → List Effect × Queue F
  attempt send now m q =
      let (counted, q') = begin_attempt m q in
      let outcome = send counted in
      (effects counted outcome q', finish_attempt now counted outcome q')

  -- processOnce, which takes messages while there is one due, on fuel; `none` when that is used up.
  pub process_once :
      (Bytes → Option ℕ) → (Message F → SendOutcome) → ℕ → ℕ → Queue F → Option (Queue F)
  process_once seen send now zero q = none
  process_once seen send now (suc n) q =
      let (picked, q') = pick_due seen now q in
      elim picked [
        | none ↦ some q'
        | some m ↦ process_once seen send now n (attempt send now m q').1
      ]
