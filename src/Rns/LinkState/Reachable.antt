-- ===== src/Rns/LinkState/Reachable.antt =====
-- The managers that can be reached, as a step relation.
use reticulum_forwarding_ser.Base.{ℕ, ◌≡◌, subst, ap, All, Option, ok, bind-ok, ok-injective}
use reticulum_forwarding_ser.Base.Bytes.{Bytes}
use reticulum_forwarding_ser.Rns.Crypto.{Crypto, IsSound}
use reticulum_forwarding_ser.Rns.Identity.{Identity}
use reticulum_forwarding_ser.Rns.Packet.{Packet}
use reticulum_forwarding_ser.Rns.Link.{LinkSignalling}
use reticulum_forwarding_ser.Rns.LinkState.Links.{Link}
use reticulum_forwarding_ser.Rns.LinkState.{
  LinkManager, new_link_manager, set_default_inbound_data_handler, start_link_as_initiator,
  accept_incoming_link_request, handle_lr_proof, handle_link_data,
}
use reticulum_forwarding_ser.Rns.LinkState.Transfers.{
  register, resource_key, register_resource_sender, register_resource_receiver, unregister_resource,
  close_link,
}
use reticulum_forwarding_ser.Rns.LinkState.Invariant.{
  IsKept, WellFormed, start-WellFormed, proof-WellFormed, accept-WellFormed, data-WellFormed,
  close-WellFormed,
}

module _ {S R : Type 0} where
  -- What can happen to a manager: its own links and the packets that arrive, a transfer that
  -- begins or ends, and the closing of a link; an operation that fails leaves it as it was.
  pub data Step (c : Crypto) : LinkManager S R → LinkManager S R → Type 0 where
    starts :
        {lm lm' : LinkManager S R} (random seed : Option Bytes) (now : ℕ) (dest : Bytes)
        (sig : Option LinkSignalling) {l : Link} {p : Packet}
        → start_link_as_initiator c random seed now dest sig lm ≡ ok (l, p, lm')
        → Step c lm lm'
    activates :
        {lm lm' : LinkManager S R} (now : ℕ) (p : Option Packet) (responder_pub : Bytes) {l : Link}
        → handle_lr_proof c now p responder_pub lm ≡ ok (l, lm')
        → Step c lm lm'
    accepts :
        {lm lm' : LinkManager S R} (random : Option Bytes) (now : ℕ) (p : Option Packet)
        (local_id : Option Identity) (sig : Option LinkSignalling) {l : Link} {proof : Packet}
        → accept_incoming_link_request c random now p local_id sig lm ≡ ok (l, proof, lm')
        → Step c lm lm'
    receives :
        {lm : LinkManager S R} (now : ℕ) (p : Option Packet)
        → Step c lm (handle_link_data c now p lm).2
    closes : {lm : LinkManager S R} (link : Bytes) → Step c lm (close_link link lm).2
    sends_resource :
        {lm lm' : LinkManager S R} (link hash : Bytes) (rs : Option S)
        → register_resource_sender link hash rs lm ≡ ok lm'
        → Step c lm lm'
    receives_resource :
        {lm lm' : LinkManager S R} (link hash : Bytes) (rr : Option R)
        → register_resource_receiver link hash rr lm ≡ ok lm'
        → Step c lm lm'
    ends_resource :
        {lm : LinkManager S R} (link hash : Bytes) → Step c lm (unregister_resource link hash lm)
    sets_handler :
        {lm : LinkManager S R} (cb : Option ℕ) → Step c lm (set_default_inbound_data_handler cb lm)

  pub data Reachable (c : Crypto) : LinkManager S R → Type 0 where
    created : Reachable c new_link_manager
    stepped : {lm lm' : LinkManager S R} → Reachable c lm → Step c lm lm' → Reachable c lm'

  sender-links :
      (link hash : Bytes) (rs : Option S) (lm : LinkManager S R) {lm' : LinkManager S R}
      → register_resource_sender link hash rs lm ≡ ok lm'
      → lm.links ≡ lm'.links
  unfolding register_resource_sender
  sender-links link hash rs lm h =
      let (m, e, h1) = bind-ok (register (resource_key link hash) rs lm.senders) _ h in
      ap (λ t. t.links) (ok-injective h1)

  receiver-links :
      (link hash : Bytes) (rr : Option R) (lm : LinkManager S R) {lm' : LinkManager S R}
      → register_resource_receiver link hash rr lm ≡ ok lm'
      → lm.links ≡ lm'.links
  unfolding register_resource_receiver
  receiver-links link hash rr lm h =
      let (m, e, h1) = bind-ok (register (resource_key link hash) rr lm.receivers) _ h in
      ap (λ t. t.links) (ok-injective h1)

  Step-WellFormed :
      (c : Crypto)
      → IsSound c
      → {lm lm' : LinkManager S R} → Step c lm lm'
      → WellFormed lm
      → WellFormed lm'
  unfolding WellFormed unregister_resource set_default_inbound_data_handler
  Step-WellFormed c s {lm} (starts random seed now dest sig h) w =
      start-WellFormed c s lm w random seed now dest sig h
  Step-WellFormed c s {lm} (activates now p responder_pub h) w =
      proof-WellFormed c s lm w now p responder_pub h
  Step-WellFormed c s {lm} (accepts random now p local_id sig h) w =
      accept-WellFormed c s lm w random now p local_id sig h
  Step-WellFormed c s {lm} (receives now p) w = data-WellFormed c s lm w now p
  Step-WellFormed c s {lm} (closes link) w = close-WellFormed lm link w
  Step-WellFormed c s {lm} (sends_resource link hash rs h) w =
      subst (All IsKept) (sender-links link hash rs lm h) w
  Step-WellFormed c s {lm} (receives_resource link hash rr h) w =
      subst (All IsKept) (receiver-links link hash rr lm h) w
  Step-WellFormed c s (ends_resource link hash) w = w
  Step-WellFormed c s (sets_handler cb) w = w

  -- In every manager that can be reached from an empty one, whatever packets arrived and whatever
  -- was started, accepted or closed, each link stands under the hex text of its own 16-byte id, no
  -- kept link is closed, and an active link has two session keys of 32 bytes.
  pub Reachable-WellFormed :
      (c : Crypto) → IsSound c → {lm : LinkManager S R} → Reachable c lm → WellFormed lm
  unfolding WellFormed new_link_manager
  Reachable-WellFormed c s created = tt
  Reachable-WellFormed c s (stepped r st) = Step-WellFormed c s st (Reachable-WellFormed c s r)
