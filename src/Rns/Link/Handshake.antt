-- ===== src/Rns/Link/Handshake.antt =====
-- What the two sides of the handshake read from one another's packets.
use mathlib.Core.List.{append-nil, append_assoc}
use reticulum_forwarding_ser.Base.{
  or_fail, or_fail-ok, not, ◌==◌, fail_if-ok, bind-ok, ok-injective, length-drop, ℕ, ◌+◌, ◌*◌, ◌≡◌,
  refl, sym, ap, ◌∙◌, [], ◌∷◌, ◌++◌, length, length-append, take, drop, take-append, drop-append,
  drop-skip, ◌==◌, not, fail_if-ok, bind-ok, ok-injective, Option, none, some, ok, inl, length-take,
  arith,
}
use reticulum_forwarding_ser.Base.Bytes.{Bytes}
use reticulum_forwarding_ser.Rns.Crypto.{Crypto, IsSound}
use reticulum_forwarding_ser.Rns.Identity.{
  Identity, IsKeyPair, public_key, sign, validate-sign, length-sign, public_key-drop,
}
use reticulum_forwarding_ser.Rns.Packet.{Packet}
use reticulum_forwarding_ser.Rns.Packet.Codec.{IsWire, hashable_part-ok}
use reticulum_forwarding_ser.Rns.Link.{
  wrong_packet_type, private_len, x25519_pub_len, link_id_len, key_exchange, key_derivation,
  LinkSignalling, trailer, encode_signalling, link_request_packet, lr_proof_packet,
  build_link_request, parse_link_request, link_id_part, link_id, lr_proof_signed_data, LrProof,
  parse_lr_proof, build_lr_proof, verify_lr_proof, derive_link_session_keys,
}
use reticulum_forwarding_ser.Rns.Link.Signalling.{
  masked, decode-encode_signalling, length-encode_signalling, trailer-masked,
}

-- The optional signalling as the peer reads it.
abbrev pub masked? : Option LinkSignalling → Option LinkSignalling
masked? none = none
masked? (some s) = some (masked s)

trailer-masked? : (sig : Option LinkSignalling) → trailer (masked? sig) ≡ trailer sig
trailer-masked? none = refl
trailer-masked? (some s) = trailer-masked s

-- A body of two parts and a trailer: the parts, and the trailer behind them.
module _ (n : ℕ) (a b t : Bytes) (ha : length a ≡ n) (hb : length b ≡ 32) where
  first_part : take n (a ++ (b ++ t)) ≡ a
  first_part = take-append n a (b ++ t) ha

  second_part : take 32 (drop n (a ++ (b ++ t))) ≡ b
  second_part = rw (drop-append n a (b ++ t) ha) (take-append 32 b t hb)

  third_part : drop (n + 32) (a ++ (b ++ t)) ≡ t
  third_part = drop-skip n 32 a (b ++ t) ha ∙ drop-append 32 b t hb

  length_parts : length (a ++ (b ++ t)) ≡ n + 32 + length t
  length_parts = omega (arith, length-append a (b ++ t), length-append b t)

-- A LINKREQUEST for keys and a destination hash of the right lengths is built, and its receiver
-- reads the same keys and the signalling that was sent, cut to its 21 and 3 bits.
pub parse-build_link_request :
    (x e d : Bytes) (sig : Option LinkSignalling)
    → length x ≡ 32
    → length e ≡ 32
    → length d ≡ 16
    → (p : Packet) × (build_link_request x e d sig ≡ ok p)
      × (parse_link_request (some p)
          ≡ ok (record {
            initiator_x25519_pub = x;
            initiator_ed25519_pub = e;
            signalling = masked? sig;
          }))
unfolding build_link_request parse_link_request
parse-build_link_request x e d none hx he hd = (
  link_request_packet d (x ++ (e ++ [])),
  ground arith,
  ground (
    arith,
    first_part 32 x e [] hx he,
    second_part 32 x e [] hx he,
    length_parts 32 x e [] hx he,
  ),
)
parse-build_link_request x e d (some s) hx he hd =
    let t = encode_signalling s in
    (
      link_request_packet d (x ++ (e ++ t)),
      ground arith,
      ground (
        arith,
        first_part 32 x e t hx he,
        second_part 32 x e t hx he,
        third_part 32 x e t hx he,
        length_parts 32 x e t hx he,
        length-encode_signalling s,
        decode-encode_signalling s,
      ),
    )

-- The part of a LINKREQUEST that its link id hashes, when the body is 64 bytes of keys and an
-- optional trailer.
link_id_part-ok :
    (p : Packet) (keys : Bytes) (sig : Option LinkSignalling)
    → IsWire p
    → length keys ≡ 64
    → p.payload ≡ keys ++ trailer sig
    → link_id_part p
      ≡ ok ((p.destination_type * 4 + p.packet_type) ∷ (p.dest_hash ++ (p.context ∷ keys)))
unfolding link_id_part trailer
link_id_part-ok p keys none w hk hp = ground (arith, hashable_part-ok p w, append-nil keys)
link_id_part-ok p keys (some s) w hk hp =
    let t = encode_signalling s in
    let hash : Bytes =
      (p.destination_type * 4 + p.packet_type) ∷ (p.dest_hash ++ (p.context ∷ keys)) in
    let joined : (p.destination_type * 4 + p.packet_type)
          ∷ (p.dest_hash ++ (p.context ∷ (keys ++ t)))
        ≡ hash ++ t =
      ap (λ r. (p.destination_type * 4 + p.packet_type) ∷ r)
        (sym (append_assoc p.dest_hash (p.context ∷ keys) t)) in
    ground (
      arith,
      hashable_part-ok p w,
      joined,
      length-append keys t,
      length-append hash t,
      length-encode_signalling s,
      take-append (length hash) hash t refl,
    )

-- The two sides compute one link id: it depends on the destination and its type, the context and
-- the two keys of a LINKREQUEST only, whatever relays did to the header type, transport id and
-- hops, and whatever signalling trailer either copy carries.
pub link_id-relayed :
    (c : Crypto) (p q : Packet) (keys : Bytes) (sig sig' : Option LinkSignalling)
    → IsWire p
    → IsWire q
    → length keys ≡ 64
    → p.payload ≡ keys ++ trailer sig
    → q.payload ≡ keys ++ trailer sig'
    → p.packet_type ≡ 2
    → q.packet_type ≡ 2
    → p.destination_type ≡ q.destination_type
    → p.dest_hash ≡ q.dest_hash
    → p.context ≡ q.context
    → link_id c (some p) ≡ link_id c (some q)
unfolding link_id
link_id-relayed c p q keys sig sig' wp wq hk hp hq tp tq ed eh ec =
    ground (arith, link_id_part-ok p keys sig wp hk hp, link_id_part-ok q keys sig' wq hk hq)

-- The link id of a built request exists.
pub link_id-link_request_packet :
    (c : Crypto) (x e d : Bytes) (sig : Option LinkSignalling)
    → IsSound c
    → length x ≡ 32
    → length e ≡ 32
    → length d ≡ 16
    → (id : Bytes) × (link_id c (some (link_request_packet d (x ++ (e ++ trailer sig)))) ≡ ok id)
      × (length id ≡ 16)
unfolding link_id
link_id-link_request_packet c x e d sig s hx he hd =
    let p = link_request_packet d (x ++ (e ++ trailer sig)) in
    let w : IsWire p = record {
      transport_range = ground arith;
      destination_range = ground arith;
      packet_range = ground arith;
      dest_16 = hd;
      header = inl (refl, refl);
    } in
    let part =
      link_id_part-ok p (x ++ e) sig w (omega (arith, length-append x e))
        (sym (append_assoc x e (trailer sig))) in
    (
      take 16 (c.sha256 (2 ∷ (d ++ (0 ∷ (x ++ e))))),
      rw part refl,
      omega (
        arith,
        length-take 16 (c.sha256 (2 ∷ (d ++ (0 ∷ (x ++ e))))),
        s.length-sha256 (2 ∷ (d ++ (0 ∷ (x ++ e)))),
      ),
    )

-- A built request is the packet around its body.
pub build_link_request-ok :
    (x e d : Bytes) (sig : Option LinkSignalling)
    → length x ≡ 32
    → length e ≡ 32
    → length d ≡ 16
    → build_link_request x e d sig ≡ ok (link_request_packet d (x ++ (e ++ trailer sig)))
unfolding build_link_request
build_link_request-ok x e d sig hx he hd = rw (hx, he, hd) refl

module _ (c : Crypto) (s : IsSound c) where
  module _ (id : Identity) (link x : Bytes) (sig : Option LinkSignalling) (k : IsKeyPair c id)
      (hl : length link ≡ 16) (hx : length x ≡ 32) where
    abbrev long_term : Bytes
    long_term = id.ed25519_pub

    abbrev signature : Bytes
    signature = sign c id (lr_proof_signed_data link x long_term sig)

    abbrev proof : LrProof
    proof = record {
      link_id = link;
      signature = signature;
      responder_x25519_pub = x;
      signalling = masked? sig;
    }

    abbrev packet : Packet
    packet = lr_proof_packet link (signature ++ (x ++ trailer sig))

    length-long_term : length long_term ≡ 32
    length-long_term = rw k.ed25519_pair (s.length-pub id.ed25519_seed)

    length-signature : length signature ≡ 64
    length-signature = length-sign c s id _

    own_key : drop 32 (public_key id) ≡ long_term
    own_key = public_key-drop c s id k

    build-ok : build_lr_proof c (some id) link x sig ≡ ok packet
    unfolding build_lr_proof
    build-ok = rw own_key (ground arith)

    parse-ok :
        (sg : Bytes) (o : Option LinkSignalling)
        → length sg ≡ 64
        → parse_lr_proof (some (lr_proof_packet link (sg ++ (x ++ trailer o))))
          ≡ ok (record {
            link_id = link;
            signature = sg;
            responder_x25519_pub = x;
            signalling = masked? o;
          })
    unfolding parse_lr_proof trailer
    parse-ok sg none hs = ground (
      arith,
      first_part 64 sg x [] hs hx,
      second_part 64 sg x [] hs hx,
      length_parts 64 sg x [] hs hx,
    )
    parse-ok sg (some g) hs =
        let t = encode_signalling g in
        ground (
          arith,
          first_part 64 sg x t hs hx,
          second_part 64 sg x t hs hx,
          third_part 64 sg x t hs hx,
          length_parts 64 sg x t hs hx,
          length-encode_signalling g,
          decode-encode_signalling g,
        )

    same_data :
        lr_proof_signed_data link x long_term (masked? sig)
        ≡ lr_proof_signed_data link x long_term sig
    unfolding lr_proof_signed_data
    same_data = ap (λ t. link ++ (x ++ (long_term ++ t))) (trailer-masked? sig)

    verify-ok : verify_lr_proof c proof long_term ≡ ok tt
    unfolding verify_lr_proof
    verify-ok =
        let valid = validate-sign c s id (lr_proof_signed_data link x long_term sig) k in
        rw (same_data, valid) (ground (arith, length-long_term))

    -- A responder's LRPROOF for a link id and an ephemeral key of the right lengths is built; the
    -- initiator reads the link id, the key and the signalling, cut to its bits, and the proof
    -- passes verification under the responder's long-term key.
    pub verify-build_lr_proof :
        (p : Packet) × (lr : LrProof) × (build_lr_proof c (some id) link x sig ≡ ok p)
        × (parse_lr_proof (some p) ≡ ok lr)
        × (lr.link_id ≡ link)
        × (lr.responder_x25519_pub ≡ x)
        × (lr.signalling ≡ masked? sig)
        × (verify_lr_proof c lr id.ed25519_pub ≡ ok tt)
    verify-build_lr_proof = (
      packet,
      proof,
      build-ok,
      parse-ok signature sig length-signature,
      refl,
      refl,
      refl,
      verify-ok,
    )

  -- The two sides of a link derive the same pair of session keys, each from its own ephemeral
  -- scalar and the other's public key.
  pub derive_link_session_keys-agree :
      (a b pa pb link : Bytes)
      → length a ≡ 32
      → length b ≡ 32
      → c.x25519 a c.x25519_base ≡ some pa
      → c.x25519 b c.x25519_base ≡ some pb
      → derive_link_session_keys c a pb link ≡ derive_link_session_keys c b pa link
  unfolding derive_link_session_keys
  derive_link_session_keys-agree a b pa pb link ha hb ea eb =
      let la = s.length-x25519 a c.x25519_base ea in
      let lb = s.length-x25519 b c.x25519_base eb in
      rw (ha, hb, la, lb, s.x25519_agree a b ea eb) refl

pub length-link_id :
    (c : Crypto)
    → IsSound c
    → (p : Option Packet) {id : Bytes} → link_id c p ≡ ok id
    → length id ≡ 16
unfolding link_id
length-link_id c s none h = absurd cc
length-link_id c s (some p) {id} h =
    let (e, h1) = fail_if-ok (not (p.packet_type == 2)) wrong_packet_type _ h in
    let (hp, e2, h2) = bind-ok (link_id_part p) _ h1 in
    ap length (sym (ok-injective h2))
    ∙ omega (arith, length-take 16 (c.sha256 hp), s.length-sha256 hp)

-- Derived session keys have 32 bytes each.
pub length-derive_link_session_keys :
    (c : Crypto)
    → IsSound c
    → (priv pub_key id : Bytes) {signing encryption : Bytes}
    → derive_link_session_keys c priv pub_key id ≡ ok (signing, encryption)
    → (length signing ≡ 32) × (length encryption ≡ 32)
unfolding derive_link_session_keys
length-derive_link_session_keys c s priv pub_key id {signing} {encryption} h =
    let (e1, h1) = fail_if-ok (not (length priv == 32)) private_len _ h in
    let (e2, h2) = fail_if-ok (not (length pub_key == 32)) x25519_pub_len _ h1 in
    let (e3, h3) = fail_if-ok (not (length id == 16)) link_id_len _ h2 in
    let (shared, e4, h4) = bind-ok (or_fail (c.x25519 priv pub_key) key_exchange) _ h3 in
    let (derived, e5, h5) = bind-ok (or_fail (c.hkdf_64 shared id) key_derivation) _ h4 in
    let ld = s.length-hkdf shared id (or_fail-ok (c.hkdf_64 shared id) key_derivation e5) in
    let e = ok-injective h5 in
    (
      ap (λ t. length t.0) (sym e) ∙ omega (arith, length-take 32 derived),
      ap (λ t. length t.1) (sym e) ∙ omega (arith, length-drop 32 derived),
    )
