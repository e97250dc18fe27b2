-- ===== src/Service/Inbox/Deliveries.antt =====
-- The deliveries of plain text, and the messages that they make.
use mathlib.Core.List.{append-nil, append_assoc}
use reticulum_forwarding_ser.Base.{
  ℕ, suc, ◌≡◌, refl, sym, ◌∙◌, inl, inr, Bool, false, if◌then◌else◌, [], ◌∷◌, ◌++◌, length, ◌==◌,
  List, Option, none, some, Option-cases, arith,
}
use reticulum_forwarding_ser.Base.Bytes.{Bytes, ◌=ᵇ◌}
use reticulum_forwarding_ser.Outbound.{Message, Queue, enqueue_bubble}
use reticulum_forwarding_ser.Service.Fields.{Dict, empty, hex_decode}
use reticulum_forwarding_ser.Service.Forward.{Delivery, delivery_for, forward_to_roster}
use reticulum_forwarding_ser.Service.Inbox.{Config, enqueue, enqueue_all}
use reticulum_forwarding_ser.Service.Inbox.Replays.{queued_message}

-- What plain text gives: the same body, without fields, to every hash in the list but the
-- sender's that stands for 16 bytes.
pub plain_deliveries : Bytes → Bytes → List Bytes → List Delivery
plain_deliveries sender_hex body [] = []
plain_deliveries sender_hex body (h ∷ hs) =
    let rest = plain_deliveries sender_hex body hs in
    if h =ᵇ sender_hex then rest else elim (hex_decode h) [
      | none ↦ rest
      | some raw ↦
          if length raw == 16
          then record { to = h; recipient = raw; body = body; fields = empty } ∷ rest
          else rest
    ]

pub forward-plain :
    (text_only : Bytes → Bool) (sender_hex body : Bytes) (hs : List Bytes)
    → (length body == 0) ≡ false
    → forward_to_roster text_only none sender_hex body empty hs
      ≡ plain_deliveries sender_hex body hs
unfolding forward_to_roster delivery_for plain_deliveries
forward-plain text_only sender_hex body [] some_text = refl
forward-plain text_only sender_hex body (h ∷ hs) some_text =
    let rest = forward-plain text_only sender_hex body hs some_text in
    elim (Option-cases (hex_decode h)) [
      | inl e ↦ ground (arith, e, rest)
      | inr (raw, e) ↦ ground (arith, e, rest, some_text)
    ]

module _ (cfg : Config) where
  -- The messages that deliveries make, from the n-th of the queue on.
  pub queued_messages : Option ℕ → List Delivery → ℕ → List (Message Dict)
  queued_messages bubble [] n = []
  queued_messages bubble (d ∷ ds) n =
      queued_message cfg d.recipient d.body d.fields bubble n ∷ queued_messages bubble ds (suc n)

  pub pending-enqueue_all :
      (bubble : Option ℕ) (ds : List Delivery) (q : Queue Dict)
      → (enqueue_all cfg bubble ds q).pending ≡ q.pending ++ queued_messages bubble ds q.next_ref
  unfolding enqueue_all enqueue enqueue_bubble queued_messages
  pending-enqueue_all bubble [] q = sym (append-nil q.pending)
  pending-enqueue_all bubble (d ∷ ds) q =
      let m = queued_message cfg d.recipient d.body d.fields bubble q.next_ref in
      pending-enqueue_all bubble ds (enqueue cfg d.recipient d.body d.fields bubble q)
      ∙ append_assoc q.pending (m ∷ []) (queued_messages bubble ds (suc q.next_ref))
