-- ===== src/Rns/LinkState/Handshake.antt =====
-- The two managers of a handshake, run one after the other.
use reticulum_forwarding_ser.Base.{
  ℕ, ◌≡◌, refl, sym, ◌∙◌, ◌++◌, length, take, drop, Option, none, some, ok, arith, set, length-set,
  length-take, length-drop, ok-injective,
}
use reticulum_forwarding_ser.Base.Bytes.{Bytes, hex_encode}
use reticulum_forwarding_ser.Base.Assoc.{lookup, insert, lookup-inserted}
use reticulum_forwarding_ser.Rns.Crypto.{Crypto, IsSound}
use reticulum_forwarding_ser.Rns.Identity.{
  Identity, IsKeyPair, public_key, public_key-drop, identity_from_halves-IsKeyPair,
}
use reticulum_forwarding_ser.Rns.Packet.{Packet}
use reticulum_forwarding_ser.Rns.Link.{
  LinkSignalling, parse_link_request, trailer, link_id, link_request_packet, LrProof,
  build_lr_proof, parse_lr_proof, verify_lr_proof, derive_link_session_keys,
}
use reticulum_forwarding_ser.Rns.Link.Handshake.{
  masked?, build_link_request-ok, parse-build_link_request, link_id-link_request_packet,
  verify-build_lr_proof, derive_link_session_keys-agree,
}
use reticulum_forwarding_ser.Rns.LinkState.Links.{
  Link, active, clamp, pending_link, activated_link, accepted_link, new_clamped_x25519,
}
use reticulum_forwarding_ser.Rns.LinkState.{
  LinkManager, get, put, start_link_as_initiator, accept_incoming_link_request, handle_lr_proof,
}

length-clamp : (r : Bytes) → length (clamp r) ≡ length r
unfolding clamp
length-clamp r = length-set (set r 0 _) 31 _ ∙ length-set r 0 _

-- A handshake between two nodes, without loss: the initiator starts a link to a destination, whose
-- node accepts the request, and the initiator handles the proof.
module _ {S R : Type 0} (c : Crypto) (s : IsSound c) (lm peer : LinkManager S R)
    (responder : Identity) (k : IsKeyPair c responder) (dest random_a seed random_b : Bytes)
    (now later last : ℕ) (sig : Option LinkSignalling) (hd : length dest ≡ 16)
    (hs : length seed ≡ 32) (ha : length random_a ≡ 32) (hb : length random_b ≡ 32)
    (pa pb shared : Bytes) (ea : c.x25519 (clamp random_a) c.x25519_base ≡ some pa)
    (eb : c.x25519 (clamp random_b) c.x25519_base ≡ some pb)
    (es : c.x25519 (clamp random_b) pa ≡ some shared)
    (hkdf : (salt : Bytes)
      → length salt ≡ 16
      → (r : Bytes) × (c.hkdf_64 shared salt ≡ some r)) where
  abbrev a : Bytes
  a = clamp random_a

  abbrev b : Bytes
  b = clamp random_b

  length-a : length a ≡ 32
  length-a = length-clamp random_a ∙ ha

  length-b : length b ≡ 32
  length-b = length-clamp random_b ∙ hb

  length-pa : length pa ≡ 32
  length-pa = s.length-x25519 a c.x25519_base ea

  length-pb : length pb ≡ 32
  length-pb = s.length-x25519 b c.x25519_base eb

  abbrev signer : Bytes
  signer = c.ed25519_pub seed

  abbrev body_id :
      (id : Bytes) × (link_id c (some (link_request_packet dest (pa ++ (signer ++ trailer sig))))
        ≡ ok id)
      × (length id ≡ 16)
  body_id = link_id-link_request_packet c pa signer dest sig s length-pa (s.length-pub seed) hd

  abbrev link : Bytes
  link = body_id.0

  abbrev request : Packet
  request = link_request_packet dest (pa ++ (signer ++ trailer sig))

  abbrev started : Link
  started = pending_link link a seed dest now

  start-ok :
      start_link_as_initiator c (some random_a) (some seed) now dest sig lm
      ≡ ok (started, request, put started lm)
  unfolding start_link_as_initiator new_clamped_x25519
  start-ok =
      let (eph, made, pair, ex, ee) = identity_from_halves-IsKeyPair c a seed length-a hs ea in
      let own : drop 32 (public_key eph) ≡ signer = public_key-drop c s eph pair ∙ ee in
      rw
        (
          hd,
          ea,
          made,
          own,
          build_link_request-ok pa signer dest sig length-pa (s.length-pub seed) hd,
          body_id.1,
        )
        refl

  parse-ok :
      parse_link_request (some request)
      ≡ ok (record {
        initiator_x25519_pub = pa;
        initiator_ed25519_pub = signer;
        signalling = masked? sig;
      })
  parse-ok =
      let (p, built, parsed) =
        parse-build_link_request pa signer dest sig length-pa (s.length-pub seed) hd in
      let same : p ≡ request =
        ok-injective
          (sym built ∙ build_link_request-ok pa signer dest sig length-pa (s.length-pub seed) hd) in
      rw (← same) parsed

  abbrev derived : Bytes
  derived = (hkdf link body_id.2).0

  responder-keys : derive_link_session_keys c b pa link ≡ ok (take 32 derived, drop 32 derived)
  unfolding derive_link_session_keys
  responder-keys = rw (length-b, length-pa, body_id.2, es, (hkdf link body_id.2).1) refl

  initiator-keys : derive_link_session_keys c a pb link ≡ ok (take 32 derived, drop 32 derived)
  initiator-keys =
      derive_link_session_keys-agree c s a b pa pb link length-a length-b ea eb ∙ responder-keys

  abbrev accepted : Link
  accepted = accepted_link link (take 32 derived) (drop 32 derived) b (some responder) later

  abbrev finished : Link
  finished = activated_link started (take 32 derived) (drop 32 derived) responder.ed25519_pub last

  accept-ok :
      (proof : Packet)
      → build_lr_proof c (some responder) link pb (masked? sig) ≡ ok proof
      → accept_incoming_link_request c
          (some random_b)
          later
          (some request)
          (some responder)
          none
          peer
        ≡ ok (accepted, proof, put accepted peer)
  unfolding accept_incoming_link_request new_clamped_x25519
  accept-ok proof built = rw (parse-ok, body_id.1, eb, responder-keys, built) refl

  handle-ok :
      (proof : Packet) (lr : LrProof)
      → parse_lr_proof (some proof) ≡ ok lr
      → lr.link_id ≡ link
      → lr.responder_x25519_pub ≡ pb
      → verify_lr_proof c lr responder.ed25519_pub ≡ ok tt
      → handle_lr_proof c last (some proof) responder.ed25519_pub (put started lm)
        ≡ ok (finished, put finished (put started lm))
  unfolding handle_lr_proof
  handle-ok proof lr parsed el ex verified =
      let found : lookup (hex_encode link) (insert (hex_encode link) started lm.links)
          ≡ some started =
        lookup-inserted (hex_encode link) started lm.links in
      rw (parsed, verified, el, found, ex, initiator-keys) refl

  -- A handshake without loss with a responder that has a key pair, a destination hash of 16 bytes
  -- and fresh keys of 32 bytes, where X25519 returns the public halves of these and their shared
  -- secret, and HKDF bytes for that secret and salts of 16 bytes: both sides end with the link active under one id, with the same session keys
  -- of 32 bytes each, and each side's manager has it under that id.
  pub handshake-agrees :
      (l l' r : Link) × (request proof : Packet) × (lm1 lm2 peer1 : LinkManager S R)
      × (start_link_as_initiator c (some random_a) (some seed) now dest sig lm
          ≡ ok (l, request, lm1))
      × (accept_incoming_link_request c
            (some random_b)
            later
            (some request)
            (some responder)
            none
            peer
          ≡ ok (r, proof, peer1))
      × (handle_lr_proof c last (some proof) responder.ed25519_pub lm1 ≡ ok (l', lm2))
      × (l'.state ≡ active)
      × (r.state ≡ active)
      × (l'.id ≡ r.id)
      × (l'.signing ≡ r.signing)
      × (l'.encryption ≡ r.encryption)
      × (length r.signing ≡ 32)
      × (length r.encryption ≡ 32)
      × (get r.id lm2 ≡ some l')
      × (get r.id peer1 ≡ some r)
  unfolding get
  handshake-agrees =
      let (proof, lr, built, parsed, el, ex, eg, verified) =
        verify-build_lr_proof c s responder link pb (masked? sig) k body_id.2 length-pb in
      let ld = s.length-hkdf shared link (hkdf link body_id.2).1 in
      (
        started,
        finished,
        accepted,
        request,
        proof,
        put started lm,
        put finished (put started lm),
        put accepted peer,
        start-ok,
        accept-ok proof built,
        handle-ok proof lr parsed el ex verified,
        refl,
        refl,
        refl,
        refl,
        refl,
        omega (arith, length-take 32 derived),
        omega (arith, length-drop 32 derived),
        lookup-inserted (hex_encode link) finished (insert (hex_encode link) started lm.links),
        lookup-inserted (hex_encode link) accepted peer.links,
      )
