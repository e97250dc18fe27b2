-- ===== src/Rns/LinkState/Invariant.antt =====
-- What holds of every link that a manager keeps, whatever packets arrive.
use reticulum_forwarding_ser.Base.{
  Option-cases, Bool-cases, Result-cases, inl, inr, or_fail, or_fail-ok, ℕ, ◌≡◌, ◌≢◌, refl, subst,
  ap, not, ◌==◌, length, drop, All, Option, none, some, ok, wrap_err, fail_if-ok, bind-ok,
  wrap_err-ok, ok-injective,
}
use reticulum_forwarding_ser.Base.Bytes.{Bytes, hex_encode}
use reticulum_forwarding_ser.Base.Assoc.{lookup, All-insert, All-delete, All-lookup}
use reticulum_forwarding_ser.Rns.Crypto.{Crypto, IsSound}
use reticulum_forwarding_ser.Rns.Identity.{Identity, identity_from_halves, public_key}
use reticulum_forwarding_ser.Rns.Packet.{Packet}
use reticulum_forwarding_ser.Rns.Link.{
  LinkSignalling, build_link_request, parse_link_request, link_id, parse_lr_proof, verify_lr_proof,
  build_lr_proof, derive_link_session_keys,
}
use reticulum_forwarding_ser.Rns.Link.Handshake.{length-link_id, length-derive_link_session_keys}
use reticulum_forwarding_ser.Rns.LinkData.{parse_link_data_packet}
use reticulum_forwarding_ser.Rns.LinkState.Links.{
  Link, active, closed, dest_hash_len, seed_entropy_failed, identity_error, link_error, is_pending,
  unknown_link, not_pending, in_active_state, new_clamped_x25519, pending_link, activated_link,
  accepted_link,
}
use reticulum_forwarding_ser.Rns.LinkState.{
  LinkManager, get, start_link_as_initiator, accept_incoming_link_request, handle_lr_proof,
  handle_link_data, mirrored,
}
use reticulum_forwarding_ser.Rns.LinkState.Transfers.{close_resources_for_link, close_link}

-- The entry of a link: it stands under its hex id, which has 16 bytes, it is not closed, and an
-- active link has two session keys of 32 bytes.
pub record IsKept (e : Bytes × Link) : Type 0 where
  pub own_key : e.0 ≡ hex_encode e.1.id
  pub id_16 : length e.1.id ≡ 16
  pub not_closed : e.1.state ≢ closed
  pub keys : e.1.state ≡ active → (length e.1.signing ≡ 32) × (length e.1.encryption ≡ 32)

module _ {S R : Type 0} where
  unfoldable pub WellFormed : LinkManager S R → Type 0
  WellFormed lm = All IsKept lm.links

  module _ (c : Crypto) (s : IsSound c) (lm : LinkManager S R) (w : WellFormed lm) where
    pub start-WellFormed :
        (random seed : Option Bytes) (now : ℕ) (dest : Bytes) (sig : Option LinkSignalling)
        {l : Link} {p : Packet} {lm' : LinkManager S R}
        → start_link_as_initiator c random seed now dest sig lm ≡ ok (l, p, lm')
        → WellFormed lm'
    unfolding start_link_as_initiator WellFormed
    start-WellFormed random seed now dest sig h =
        let (h0, h1) = fail_if-ok (not (length dest == 16)) dest_hash_len _ h in
        let ((priv, point), e2, h2) = bind-ok (new_clamped_x25519 c random) _ h1 in
        let (ed, e3, h3) = bind-ok (or_fail seed seed_entropy_failed) _ h2 in
        let (eph, e4, h4) =
          bind-ok (wrap_err identity_error (identity_from_halves c priv ed)) _ h3 in
        let (pkt, e5, h5) =
          bind-ok
            (wrap_err link_error (build_link_request point (drop 32 (public_key eph)) dest sig)) _
            h4 in
        let (link, e6, h6) = bind-ok (wrap_err link_error (link_id c (some pkt))) _ h5 in
        let l0 = ap (λ t. t.2) (ok-injective h6) in
        let kept : IsKept (hex_encode link, pending_link link priv ed dest now) = record {
          own_key = refl;
          id_16 = length-link_id c s (some pkt) (wrap_err-ok link_error (link_id c (some pkt)) e6);
          not_closed = λ q. cc;
          keys = λ q. absurd cc;
        } in
        subst (λ m. All IsKept m.links) l0 (All-insert IsKept (hex_encode link) _ lm.links kept w)

    pub proof-WellFormed :
        (now : ℕ) (p : Option Packet) (responder_pub : Bytes) {l : Link} {lm' : LinkManager S R}
        → handle_lr_proof c now p responder_pub lm ≡ ok (l, lm')
        → WellFormed lm'
    unfolding handle_lr_proof WellFormed
    proof-WellFormed now p responder_pub h =
        let (lr, e0, h0) = bind-ok (wrap_err link_error (parse_lr_proof p)) _ h in
        let (u, e1, h1) = bind-ok (wrap_err link_error (verify_lr_proof c lr responder_pub)) _ h0 in
        let (l, e2, h2) =
          bind-ok (or_fail (lookup (hex_encode lr.link_id) lm.links) unknown_link) _ h1 in
        let (e3, h3) = fail_if-ok (not (is_pending l.state)) not_pending _ h2 in
        let derive =
          derive_link_session_keys c l.my_ephemeral_x25519_priv lr.responder_x25519_pub
            lr.link_id in
        let ((signing, encryption), e4, h4) = bind-ok (wrap_err link_error derive) _ h3 in
        let old : IsKept (hex_encode lr.link_id, l) =
          All-lookup IsKept (hex_encode lr.link_id) lm.links
            (or_fail-ok (lookup (hex_encode lr.link_id) lm.links) unknown_link e2) w in
        let l' = activated_link l signing encryption responder_pub now in
        let kept : IsKept (hex_encode lr.link_id, l') = record {
          own_key = old.own_key;
          id_16 = old.id_16;
          not_closed = λ q. cc;
          keys = λ q.
              length-derive_link_session_keys c s l.my_ephemeral_x25519_priv lr.responder_x25519_pub
                lr.link_id (wrap_err-ok link_error derive e4);
        } in
        subst (λ m. All IsKept m.links) (ap (λ t. t.1) (ok-injective h4))
          (All-insert IsKept (hex_encode lr.link_id) l' lm.links kept w)

    pub accept-WellFormed :
        (random : Option Bytes) (now : ℕ) (p : Option Packet) (local_id : Option Identity)
        (sig : Option LinkSignalling) {l : Link} {proof : Packet} {lm' : LinkManager S R}
        → accept_incoming_link_request c random now p local_id sig lm ≡ ok (l, proof, lm')
        → WellFormed lm'
    unfolding accept_incoming_link_request WellFormed
    accept-WellFormed random now p local_id sig h =
        let (req, e0, h0) = bind-ok (wrap_err link_error (parse_link_request p)) _ h in
        let (link, e1, h1) = bind-ok (wrap_err link_error (link_id c p)) _ h0 in
        let ((priv, point), e2, h2) = bind-ok (new_clamped_x25519 c random) _ h1 in
        let derive = derive_link_session_keys c priv req.initiator_x25519_pub link in
        let ((signing, encryption), e3, h3) = bind-ok (wrap_err link_error derive) _ h2 in
        let (proof, e4, h4) =
          bind-ok
            (wrap_err link_error
              (build_lr_proof c local_id link point (mirrored sig req.signalling)))
            _ h3 in
        let l = accepted_link link signing encryption priv local_id now in
        let kept : IsKept (hex_encode link, l) = record {
          own_key = refl;
          id_16 = length-link_id c s p (wrap_err-ok link_error (link_id c p) e1);
          not_closed = λ q. cc;
          keys = λ q.
              length-derive_link_session_keys c s priv req.initiator_x25519_pub link
                (wrap_err-ok link_error derive e3);
        } in
        subst (λ m. All IsKept m.links) (ap (λ t. t.2) (ok-injective h4))
          (All-insert IsKept (hex_encode link) l lm.links kept w)

    pub data-WellFormed : (now : ℕ) (p : Option Packet) → WellFormed (handle_link_data c now p lm).2
    unfolding handle_link_data get WellFormed
    data-WellFormed now none = w
    data-WellFormed now (some p) = elim (Option-cases (lookup (hex_encode p.dest_hash) lm.links)) [
      | inl e ↦ rw (handle_link_data, get, e) w
      | inr (l, e) ↦
          (let old : IsKept (hex_encode p.dest_hash, l) =
              All-lookup IsKept (hex_encode p.dest_hash) lm.links e w in
            let kept : IsKept (hex_encode p.dest_hash, record l { last_activity = now }) = record {
              own_key = old.own_key;
              id_16 = old.id_16;
              not_closed = old.not_closed;
              keys = old.keys;
            } in
            let after =
              All-insert IsKept (hex_encode p.dest_hash) (record l { last_activity = now }) lm.links
                kept w in
            elim (Bool-cases (in_active_state l.state)) [
              | inr q ↦ rw (handle_link_data, get, e, q) w
              | inl q ↦
                  elim (Result-cases (parse_link_data_packet c (some p) l.signing l.encryption)) [
                    | inl (m, r) ↦ rw (handle_link_data, get, e, q, r) after
                    | inr (m, r) ↦ rw (handle_link_data, get, e, q, r) after
                  ]
            ])
    ]

  pub close-WellFormed :
      (lm : LinkManager S R) (link : Bytes) → WellFormed lm → WellFormed (close_link link lm).2
  unfolding close_link close_resources_for_link WellFormed
  close-WellFormed lm link w = elim (Option-cases (lookup (hex_encode link) lm.links)) [
    | inl e ↦ rw (close_link, e) w
    | inr (l, e) ↦ rw (close_link, e) (All-delete IsKept (hex_encode link) lm.links w)
  ]
