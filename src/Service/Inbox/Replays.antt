-- ===== src/Service/Inbox/Replays.antt =====
-- What the hooks of a command put in the queue.
use mathlib.Core.List.{append-nil, append_assoc}
use reticulum_forwarding_ser.Base.{
  ℕ, suc, ◌+◌, ◌*◌, ◌/◌, ◌%◌, ◌<◌, ◌≡◌, ◌⊎◌, refl, sym, ap, ◌∙◌, inl, inr, not, ◌||◌, [], ◌∷◌, ◌++◌,
  length, ◌==◌, List, All, Option, none, some, Bool-cases, arith,
}
use reticulum_forwarding_ser.Base.Bytes.{Bytes, IsByte, hex_encode, hex_digit}
use reticulum_forwarding_ser.Commands.{Outcome}
use reticulum_forwarding_ser.Commands.Dispatch.Hooks.{Hooked}
use reticulum_forwarding_ser.Outbound.{Message, Queue, enqueue_bubble}
use reticulum_forwarding_ser.Service.Fields.{Dict, empty, hex_value, hex_decode}
use reticulum_forwarding_ser.Service.Replay.{replay_history_to}
use reticulum_forwarding_ser.Service.Inbox.{
  Config, State, enqueue, enqueue_bodies, on_join, run_calls,
}

digit-back : (n : ℕ) → n < 16 → hex_value (hex_digit n) ≡ some n
unfolding hex_value hex_digit
digit-back n h = ground arith

pub hex_decode-hex_encode : (b : Bytes) → All IsByte b → hex_decode (hex_encode b) ≡ some b
unfolding hex_decode hex_encode
hex_decode-hex_encode [] h = refl
hex_decode-hex_encode (x ∷ b) (hx, hb) =
    let high = digit-back (x / 16) (omega (arith, hx)) in
    let low = digit-back (x % 16) (omega arith) in
    let same : x / 16 * 16 + x % 16 ≡ x = omega arith in
    rw (high, low, hex_decode-hex_encode b hb) (ap (λ y. some (y ∷ b)) same)

module _ (cfg : Config) where
  -- The n-th message of the queue.
  abbrev pub queued_message : Bytes → Bytes → Dict → Option ℕ → ℕ → Message Dict
  queued_message recipient body fields bubble n = record {
    ref = n;
    id = cfg.new_id n;
    recipient = recipient;
    body = body;
    fields = fields;
    bubble = bubble;
    attempts = 0;
    next_attempt = 0;
    enqueued_at = cfg.commands.now;
  }

  -- One message without fields for each body, from the n-th of the queue on.
  abbrev pub texts : Bytes → List Bytes → ℕ → List (Message Dict)
  texts recipient [] n = []
  texts recipient (b ∷ bs) n = queued_message recipient b empty none n ∷ texts recipient bs (suc n)

  -- Nothing but the queue changes, and what it gets is nothing or the replay of the log, to one
  -- recipient.
  pub record Replayed (recipient : Bytes) (t t' : State) : Type 0 where
    pub same_roster : t'.roster ≡ t.roster
    pub same_history : t'.history ≡ t.history
    pub same_cache : t'.cache ≡ t.cache
    pub replay :
        (t'.queue.pending ≡ t.queue.pending)
        ⊎ (t'.queue.pending
            ≡ t.queue.pending
              ++ texts recipient
                  (replay_history_to cfg.commands.decimal cfg.replay_max_age cfg.commands.now
                    t.history)
                  t.queue.next_ref)

  pending-enqueue_bodies :
      (recipient : Bytes) (bs : List Bytes) (q : Queue Dict)
      → (enqueue_bodies cfg recipient bs q).pending ≡ q.pending ++ texts recipient bs q.next_ref
  unfolding enqueue_bodies enqueue enqueue_bubble
  pending-enqueue_bodies recipient [] q = sym (append-nil q.pending)
  pending-enqueue_bodies recipient (b ∷ bs) q =
      pending-enqueue_bodies recipient bs (enqueue cfg recipient b empty none q)
      ∙ append_assoc q.pending (queued_message recipient b empty none q.next_ref ∷ [])
          (texts recipient bs (suc q.next_ref))

  pub same-Replayed : (recipient : Bytes) (t : State) → Replayed recipient t t
  same-Replayed recipient t = record {
    same_roster = refl;
    same_history = refl;
    same_cache = refl;
    replay = inl refl;
  }

  on_join-Replayed :
      (hex joiner : Bytes) (t : State)
      → hex_decode hex ≡ some joiner
      → Replayed joiner t (on_join cfg hex t)
  unfolding on_join
  on_join-Replayed hex joiner t e =
      elim (Bool-cases (not (length joiner == 16) || cfg.replay_count == 0)) [
        | inl off ↦ rw (on_join, e, off) (same-Replayed joiner t)
        | inr on ↦
            rw (on_join, e, on)
              (record {
                same_roster = refl;
                same_history = refl;
                same_cache = refl;
                replay = inr (pending-enqueue_bodies joiner _ t.queue);
              })
      ]

  -- The hooks that one command calls, run at any time.
  pub hooks-Replayed :
      (own sender : Bytes) (o : Outcome) (t : State)
      → Hooked own o
      → hex_decode own ≡ some sender
      → Replayed sender t (run_calls cfg o.calls t)
  unfolding run_calls
  hooks-Replayed own sender o t h e = elim h.hooks [
    | inl no_hook ↦ rw no_hook (same-Replayed sender t)
    | inr (inl announced) ↦ rw announced (same-Replayed sender t)
    | inr (inr entered) ↦ rw entered (on_join-Replayed own sender t e)
  ]
