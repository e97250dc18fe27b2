-- ===== src/Rns/LinkState.antt =====
-- internal/rns/link_state.go: the manager that keeps the links of a node. A link object is the
-- value its map entry holds, the clock and the random bytes are arguments, and a locked region is
-- one step.
pub mod Links
pub mod Transfers
pub mod Handshake
pub mod Invariant
pub mod Reachable
pub mod Closing
pub mod Traffic
mod Examples
use reticulum_forwarding_ser.Base.{
  or_fail, ◌>>=◌, ◌>>◌, ℕ, not, [], ◌==◌, if◌then◌else◌, length, drop, List, Option, none, some,
  Result, ok, err, fail_if, wrap_err,
}
use reticulum_forwarding_ser.Base.Bytes.{Bytes, hex_encode}
use reticulum_forwarding_ser.Base.Assoc.{lookup, insert}
use reticulum_forwarding_ser.Rns.Crypto.{Crypto}
use reticulum_forwarding_ser.Rns.Identity.{
  Identity, identity_from_halves, public_key, identity_hash_len,
}
use reticulum_forwarding_ser.Rns.Packet.{Packet}
use reticulum_forwarding_ser.Rns.Link.{
  LinkSignalling, build_link_request, parse_link_request, link_id, parse_lr_proof, verify_lr_proof,
  build_lr_proof, derive_link_session_keys,
}
use reticulum_forwarding_ser.Rns.LinkState.Links.{
  Link, Error, identity_error, link_error, data_error, dest_hash_len, seed_entropy_failed,
  unknown_link, not_pending, not_active, nil_packet, is_pending, in_active_state,
  new_clamped_x25519, Call, inbound_calls, first_to, count_active, pending_link, activated_link,
  accepted_link,
}
use reticulum_forwarding_ser.Rns.LinkData.{parse_link_data_packet}

-- The senders and receivers are kept by reference.
pub record LinkManager (S R : Type 0) : Type 0 where
  pub links : List (Bytes × Link)
  pub default_on_inbound_data : Option ℕ
  pub senders : List (Bytes × S)
  pub receivers : List (Bytes × R)

abbrev pub mirrored : Option LinkSignalling → Option LinkSignalling → Option LinkSignalling
mirrored none initiators = initiators
mirrored (some s) initiators = some s

module _ {S R : Type 0} where
  pub new_link_manager : LinkManager S R
  new_link_manager = record {
    links = [];
    default_on_inbound_data = none;
    senders = [];
    receivers = [];
  }

  pub set_default_inbound_data_handler : Option ℕ → LinkManager S R → LinkManager S R
  set_default_inbound_data_handler cb lm = record lm { default_on_inbound_data = cb }

  unfoldable pub get : Bytes → LinkManager S R → Option Link
  get link lm = lookup (hex_encode link) lm.links

  -- `lm.links[hex.EncodeToString(l.ID)] = l`
  abbrev pub put : Link → LinkManager S R → LinkManager S R
  put l lm = record lm { links = insert (hex_encode l.id) l lm.links }

  -- ActiveTo: an active link to the destination, the first in the order of the list.
  pub active_to : Bytes → LinkManager S R → Option Link
  active_to dest lm = first_to dest lm.links

  pub active_count : LinkManager S R → ℕ
  active_count lm = count_active lm.links

  module _ (c : Crypto) where
    -- The link, its request, and the manager with the link; `random` and `seed` are the entropy.
    pub start_link_as_initiator :
        Option Bytes
        → Option Bytes
        → ℕ
        → Bytes
        → Option LinkSignalling
        → LinkManager S R
        → Result Error (Link × Packet × LinkManager S R)
    start_link_as_initiator random seed now dest sig lm = do
      fail_if (not (length dest == identity_hash_len)) dest_hash_len
      (priv, point) ← new_clamped_x25519 c random
      ed25519_seed ← or_fail seed seed_entropy_failed
      eph ← wrap_err identity_error (identity_from_halves c priv ed25519_seed)
      pkt ← wrap_err link_error (build_link_request point (drop 32 (public_key eph)) dest sig)
      link ← wrap_err link_error (link_id c (some pkt))
      let l = pending_link link priv ed25519_seed dest now
      ok (l, pkt, put l lm)

    pub handle_lr_proof :
        ℕ → Option Packet → Bytes → LinkManager S R → Result Error (Link × LinkManager S R)
    handle_lr_proof now p responder_pub lm = do
      parsed ← wrap_err link_error (parse_lr_proof p)
      wrap_err link_error (verify_lr_proof c parsed responder_pub)
      l ← or_fail (lookup (hex_encode parsed.link_id) lm.links) unknown_link
      fail_if (not (is_pending l.state)) not_pending
      (signing, encryption) ← wrap_err link_error (
          derive_link_session_keys c l.my_ephemeral_x25519_priv parsed.responder_x25519_pub
            parsed.link_id)
      let l' = activated_link l signing encryption responder_pub now
      ok (l', record lm { links = insert (hex_encode parsed.link_id) l' lm.links })

    -- `sig` nil mirrors the initiator's signalling.
    pub accept_incoming_link_request :
        Option Bytes
        → ℕ
        → Option Packet
        → Option Identity
        → Option LinkSignalling
        → LinkManager S R
        → Result Error (Link × Packet × LinkManager S R)
    accept_incoming_link_request random now req_pkt local_id sig lm = do
      req ← wrap_err link_error (parse_link_request req_pkt)
      link ← wrap_err link_error (link_id c req_pkt)
      (priv, point) ← new_clamped_x25519 c random
      (signing, encryption) ←
          wrap_err link_error (derive_link_session_keys c priv req.initiator_x25519_pub link)
      proof ←
          wrap_err link_error (build_lr_proof c local_id link point (mirrored sig req.signalling))
      let l = accepted_link link signing encryption priv local_id now
      ok (l, proof, put l lm)

    -- The plaintext and the link, or the error and the link if there is one, the callbacks made, and the manager; the activity time is set
    -- before the packet is decrypted, and stays set when that fails.
    pub handle_link_data :
        ℕ
        → Option Packet
        → LinkManager S R
        → Result (Error × Option Link) (Bytes × Link) × List Call × LinkManager S R
    handle_link_data now none lm = (err (nil_packet, none), [], lm)
    handle_link_data now (some p) lm = elim (get p.dest_hash lm) [
      | none ↦ (err (unknown_link, none), [], lm)
      | some l ↦
          if not (in_active_state l.state)
          then (err (not_active, some l), [], lm)
          else (let l' = record l { last_activity = now } in
              let lm' = record lm { links = insert (hex_encode p.dest_hash) l' lm.links } in
              elim (parse_link_data_packet c (some p) l.signing l.encryption) [
                | err e ↦ (err (data_error e, some l'), [], lm')
                | ok m ↦ (
                  ok (m, l'),
                  inbound_calls l.on_inbound_data lm.default_on_inbound_data l.id m,
                  lm',
                )
              ])
    ]
