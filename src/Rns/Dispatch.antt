-- ===== src/Rns/Dispatch.antt =====
-- internal/rns/resource_dispatch.go and openResourceReceiver of resource_receiver.go: which transfer
-- a resource packet goes to. A call of a sender's or receiver's Handle method, which puts a value in
-- one of its channels, is a `Post`, and so are a packet that is broadcast and a goroutine that is
-- started. Log lines are left out.
pub mod Calls
pub mod Cancelling
pub mod Capacity
pub mod Parts
mod Examples
use reticulum_forwarding_ser.Base.{
  ℕ, ◌-◌, Bool, true, false, not, List, [], ◌∷◌, ◌==◌, leb, if◌then◌else◌, length, take, Option,
  none, some, Result, ok, err, ◌>>=◌, ◌>>◌,
}
use reticulum_forwarding_ser.Base.Bytes.{Bytes, hex_encode}
use reticulum_forwarding_ser.Base.Assoc.{insert}
use reticulum_forwarding_ser.Rns.Packet.{Packet}
use reticulum_forwarding_ser.Rns.Token.{link_token_encrypt, link_token_decrypt}
use reticulum_forwarding_ser.Rns.Token
use reticulum_forwarding_ser.Rns.LinkState.{LinkManager, get}
use reticulum_forwarding_ser.Rns.LinkState.Links.{Link, in_active_state}
use reticulum_forwarding_ser.Rns.LinkState.Links
use reticulum_forwarding_ser.Rns.LinkState.Transfers.{
  resource_key, taken, register_resource_sender, register_resource_receiver, lookup_resource_sender,
  lookup_resource_receiver, count_receivers_for_link,
}
use reticulum_forwarding_ser.Rns.Resource.Advert.{ResourceAdvertisement, parse_resource_adv}
use reticulum_forwarding_ser.Rns.Resource.Receiver.{open_receiver}
use reticulum_forwarding_ser.Rns.Resource.Sender.{empty_body, new_resource_sender}
use reticulum_forwarding_ser.Rns.Resource.Sender
use reticulum_forwarding_ser.Rns.Resource.Hmu.{parse_resource_hmu}
use reticulum_forwarding_ser.Rns.Resource.Wire.{
  parse_resource_req, parse_resource_proof, parse_resource_cancel, build_resource_cancel,
}
use reticulum_forwarding_ser.Rns.Resource.Wire
use reticulum_forwarding_ser.Rns.Dispatch.Calls.{
  Post, requested, proved, sender_cancelled, mapped, part, receiver_cancelled, runs, broadcast,
  Error, nil_link, link_not_active, too_many_receivers, sender_error, index_error, body_error,
  token_error, positive_part, transfer_fields, with_error, build_resource_ctx_packet, Setup,
  resource_transfer_timeout, context_resource_adv, context_resource_req, context_resource_hmu,
  context_resource_icl, context_resource_rcl, max_concurrent_inbound,
}

module _ {S R : Type 0} (t : Setup S R) where
  -- openResourceReceiver: the reference to the receiver that is started, and the manager.
  unfoldable pub open_resource_receiver :
      Link → ResourceAdvertisement → LinkManager S R → Result Error (R × LinkManager S R)
  open_resource_receiver l adv lm =
      let rr = t.fresh (open_receiver l.signing l.encryption (transfer_fields adv)) in
      if not (in_active_state l.state)
      then err link_not_active
      else if leb max_concurrent_inbound (count_receivers_for_link l.id lm)
      then err too_many_receivers
      else elim (register_resource_receiver l.id adv.hash (some rr) lm) [
        | err e ↦ err (index_error e)
        | ok lm' ↦ ok (rr, lm')
      ]

  -- broadcastResourceCancel, up to the broadcast.
  unfoldable pub resource_cancel_packet : Option Bytes → Link → Bytes → Bool → Result Error Packet
  resource_cancel_packet entropy l hash is_icl =
      if not (in_active_state l.state) then err link_not_active else do
        body ← with_error body_error (build_resource_cancel hash)
        ciphertext ←
            with_error token_error (link_token_encrypt t.crypto entropy body l.signing l.encryption)
        build_resource_ctx_packet l.id ciphertext
            (if is_icl then context_resource_icl else context_resource_rcl) false

  abbrev broadcast_ok : Result Error Packet → List (Post S R)
  broadcast_ok (err e) = []
  broadcast_ok (ok p) = broadcast p ∷ []

  -- `entropy` is the IV that a cancel packet draws.
  unfoldable pub handle_resource_adv :
      Option Bytes → Link → Bytes → LinkManager S R → List (Post S R) × LinkManager S R
  handle_resource_adv entropy l plaintext lm = elim (parse_resource_adv t.decode_adv plaintext) [
    | err e ↦ ([], lm)
    | ok adv ↦ elim (open_resource_receiver l adv lm) [
      | err e ↦ (broadcast_ok (resource_cancel_packet entropy l adv.hash false), lm)
      | ok (rr, lm') ↦
          (runs rr (resource_transfer_timeout (positive_part adv.transfer_size)) ∷ [], lm')
    ]
  ]

  unfoldable pub handle_resource_req : Link → Bytes → LinkManager S R → List (Post S R)
  handle_resource_req l plaintext lm = elim (parse_resource_req plaintext) [
    | err e ↦ []
    | ok req ↦ elim (lookup_resource_sender l.id req.resource_hash lm) [
      | none ↦ []
      | some rs ↦ requested rs req ∷ []
    ]
  ]

  unfoldable pub handle_resource_hmu : Link → Bytes → LinkManager S R → List (Post S R)
  handle_resource_hmu l plaintext lm = elim (parse_resource_hmu t.decode_hmu plaintext) [
    | err e ↦ []
    | ok h ↦ elim (lookup_resource_receiver l.id h.hmu_hash lm) [
      | none ↦ []
      | some rr ↦ mapped rr h ∷ []
    ]
  ]

  unfoldable pub handle_resource_cancel_inbound :
      Link → Bytes → Bool → LinkManager S R → List (Post S R)
  handle_resource_cancel_inbound l plaintext is_icl lm = elim (parse_resource_cancel plaintext) [
    | err e ↦ []
    | ok hash ↦
        if is_icl
        then elim (lookup_resource_receiver l.id hash lm) [
          | none ↦ []
          | some rr ↦ receiver_cancelled rr ∷ []
        ]
        else elim (lookup_resource_sender l.id hash lm) [
          | none ↦ []
          | some rs ↦ sender_cancelled rs ∷ []
        ]
  ]

  -- The switch on the context.
  unfoldable pub route :
      Option Bytes → ℕ → Link → Bytes → LinkManager S R → List (Post S R) × LinkManager S R
  route entropy context l m lm =
      if context == context_resource_adv
      then handle_resource_adv entropy l m lm
      else if context == context_resource_req
      then (handle_resource_req l m lm, lm)
      else if context == context_resource_hmu
      then (handle_resource_hmu l m lm, lm)
      else if context == context_resource_icl
      then (handle_resource_cancel_inbound l m true lm, lm)
      else if context == context_resource_rcl
      then (handle_resource_cancel_inbound l m false lm, lm)
      else ([], lm)

  unfoldable pub handle_resource_control :
      Option Bytes → Packet → LinkManager S R → List (Post S R) × LinkManager S R
  handle_resource_control entropy p lm = elim (get p.dest_hash lm) [
    | none ↦ ([], lm)
    | some l ↦
        if not (in_active_state l.state)
        then ([], lm)
        else elim (link_token_decrypt t.crypto p.payload l.signing l.encryption) [
          | err e ↦ ([], lm)
          | ok m ↦ route entropy p.context l m lm
        ]
  ]

  abbrev pub parts : Bytes → List R → List (Post S R)
  parts body [] = []
  parts body (rr ∷ rrs) = part rr body ∷ parts body rrs

  abbrev pub active_at : ℕ → Bytes → LinkManager S R → LinkManager S R
  active_at now id lm = elim (get id lm) [
    | none ↦ lm
    | some l ↦ record lm {
      links = insert (hex_encode id) (record l { last_activity = now }) lm.links;
    }
  ]

  -- The link of the receivers is the manager's; the prefix has no colon, since the code cuts the
  -- last byte of the key.
  unfoldable pub handle_resource_part :
      ℕ → Packet → LinkManager S R → List (Post S R) × LinkManager S R
  handle_resource_part now p lm =
      let key = resource_key p.dest_hash [] in
      let receivers = taken (take (length key - 1) key) lm.receivers in
      if length receivers == 0
      then ([], lm)
      else (parts p.payload receivers, active_at now p.dest_hash lm)

  unfoldable pub handle_resource_proof : Packet → LinkManager S R → List (Post S R)
  handle_resource_proof p lm = elim (get p.dest_hash lm) [
    | none ↦ []
    | some l ↦ elim (parse_resource_proof p.payload) [
      | err e ↦ []
      | ok prf ↦ elim (lookup_resource_sender l.id prf.resource_hash lm) [
        | none ↦ []
        | some rs ↦ proved rs prf ∷ []
      ]
    ]
  ]

  -- SendResourceOverLink, up to the run of the sender, from the random body prefix, the IV and the
  -- random hashes.
  pub send_resource_over_link :
      Option Bytes
      → Option Bytes
      → List (Option Bytes)
      → Option Link
      → Bytes
      → LinkManager S R
      → Result Error (S × LinkManager S R)
  send_resource_over_link prefix iv hashes none body lm = err nil_link
  send_resource_over_link prefix iv hashes (some l) body lm =
      if length body == 0
      then err (sender_error empty_body)
      else if not (in_active_state l.state)
      then err link_not_active
      else do
        rs ←
            with_error sender_error
              (new_resource_sender t.crypto prefix iv hashes l.signing l.encryption body)
        let reference = t.fresh_sender rs
        lm' ← with_error index_error (register_resource_sender l.id rs.hash (some reference) lm)
        ok (reference, lm')
