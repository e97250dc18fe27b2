-- ===== src/Rns/Dispatch/Cancelling.antt =====
-- What one end cancels stops at the other end.
use reticulum_forwarding_ser.Base.{
  ◌≡◌, refl, ap, ◌∙◌, Bool, true, false, List, [], ◌∷◌, if◌then◌else◌, length, Option, none, some,
  ok, arith,
}
use reticulum_forwarding_ser.Base.Bytes.{Bytes}
use reticulum_forwarding_ser.Rns.Crypto.{IsSound}
use reticulum_forwarding_ser.Rns.Packet.{Packet, destination_link, packet_data}
use reticulum_forwarding_ser.Rns.LinkData.{packet_to}
use reticulum_forwarding_ser.Rns.Token.Link.{link_token_decrypt-encrypt}
use reticulum_forwarding_ser.Rns.LinkState.{LinkManager, get}
use reticulum_forwarding_ser.Rns.LinkState.Links.{Link, active, in_active_state}
use reticulum_forwarding_ser.Rns.LinkState.Transfers.{
  lookup_resource_sender, lookup_resource_receiver,
}
use reticulum_forwarding_ser.Rns.Resource.Wire.{parse_resource_cancel, build_resource_cancel}
use reticulum_forwarding_ser.Rns.Dispatch.Calls.{
  Setup, Post, sender_cancelled, receiver_cancelled, build_resource_ctx_packet,
  context_resource_icl, context_resource_rcl,
}
use reticulum_forwarding_ser.Rns.Dispatch.{
  resource_cancel_packet, handle_resource_control, handle_resource_cancel_inbound, route,
}

module _ {S R : Type 0} (t : Setup S R) where
  -- What a cancellation posts at an end with these transfers.
  abbrev pub stopped : Bool → Option S → Option R → List (Post S R)
  stopped true s none = []
  stopped true s (some rr) = receiver_cancelled rr ∷ []
  stopped false none r = []
  stopped false (some rs) r = sender_cancelled rs ∷ []

  inbound-stopped :
      (r : Link) (hash : Bytes) (is_icl : Bool) (lm : LinkManager S R)
      → length hash ≡ 32
      → handle_resource_cancel_inbound t r hash is_icl lm
        ≡ stopped is_icl
            (lookup_resource_sender r.id hash lm)
            (lookup_resource_receiver r.id hash lm)
  unfolding handle_resource_cancel_inbound parse_resource_cancel
  inbound-stopped r hash true lm hh = ground (arith, hh)
  inbound-stopped r hash false lm hh = ground (arith, hh)

  routed :
      (r : Link) (hash : Bytes) (is_icl : Bool) (entropy : Option Bytes) (lm : LinkManager S R)
      → route t entropy (if is_icl then context_resource_icl else context_resource_rcl) r hash lm
        ≡ (handle_resource_cancel_inbound t r hash is_icl lm, lm)
  unfolding route
  routed r hash true entropy lm = refl
  routed r hash false entropy lm = refl

  -- A cancellation that one end of a link with 32-byte keys sends is carried out by the other end,
  -- if that has the link active under the same keys: an initiator's stops the receiver of that link
  -- and hash and a receiver's the sender, where there is one, nothing else is posted, and the
  -- manager stays as it is.
  pub handle_resource_control-cancels :
      IsSound t.crypto
      → (lm : LinkManager S R) (l r : Link) (iv hash : Bytes) (is_icl : Bool)
        (entropy : Option Bytes)
      → length l.id ≡ 16
      → length l.signing ≡ 32
      → length l.encryption ≡ 32
      → length iv ≡ 16
      → length hash ≡ 32
      → l.state ≡ active
      → get l.id lm ≡ some r
      → r.state ≡ active
      → r.signing ≡ l.signing
      → r.encryption ≡ l.encryption
      → (p : Packet) × (resource_cancel_packet t (some iv) l hash is_icl ≡ ok p)
        × (handle_resource_control t entropy p lm ≡ (
          stopped is_icl
              (lookup_resource_sender r.id hash lm)
              (lookup_resource_receiver r.id hash lm),
          lm,
        ))
  unfolding resource_cancel_packet handle_resource_control route build_resource_cancel
      build_resource_ctx_packet
  handle_resource_control-cancels s lm l r iv hash is_icl entropy hi hs he hv hh act found act' es
        ee =
      let (wire, sealed, opened) =
        link_token_decrypt-encrypt t.crypto s hash l.signing l.encryption iv hs he hv in
      let context = if is_icl then context_resource_icl else context_resource_rcl in
      let on : in_active_state l.state ≡ true = ap in_active_state act in
      let on' : in_active_state r.state ≡ true = ap in_active_state act' in
      (
        packet_to destination_link packet_data l.id context wire,
        rw
            (
              resource_cancel_packet, on, build_resource_cancel, hh, sealed,
              build_resource_ctx_packet, hi,
            )
            refl,
        rw (handle_resource_control, found, on', es, ee, opened)
            (routed r hash is_icl entropy lm
              ∙ ap (λ ps. (ps, lm)) (inbound-stopped r hash is_icl lm hh)),
      )
