-- ===== src/Rns/Link.antt =====
-- internal/rns/link.go: the handshake packets of a link, its id and its session keys. A pointer
-- parameter is an Option, and the signalling trailer another.
pub mod Signalling
pub mod Handshake
mod Examples
use reticulum_forwarding_ser.Base.{
  or_fail, ◌>>=◌, ◌>>◌, ℕ, ◌+◌, ◌-◌, ◌*◌, ◌/◌, ◌%◌, ◌^◌, false, not, ◌||◌, [], ◌∷◌, ◌++◌, ◌==◌, ltb,
  if◌then◌else◌, length, take, drop, Option, none, some, Result, ok, err, fail_if, wrap_err,
}
use reticulum_forwarding_ser.Base.Bytes.{Bytes}
use reticulum_forwarding_ser.Rns.Crypto.{Crypto}
use reticulum_forwarding_ser.Rns.Identity.{Identity, public_key, sign, validate, identity_hash_len}
use reticulum_forwarding_ser.Rns.Packet.{
  Packet, hashable_part, header_type_1, broadcast_transport, destination_single, destination_link,
  packet_link_request, packet_proof, context_none, context_lr_proof,
}
use reticulum_forwarding_ser.Rns.Packet

abbrev pub link_signalling_len : ℕ
link_signalling_len = 3

abbrev pub link_request_body_len : ℕ
link_request_body_len = 32 + 32

abbrev pub link_request_body_len_signalled : ℕ
link_request_body_len_signalled = link_request_body_len + link_signalling_len

abbrev pub lr_proof_body_len : ℕ
lr_proof_body_len = 64 + 32

abbrev pub lr_proof_body_len_signalled : ℕ
lr_proof_body_len_signalled = lr_proof_body_len + link_signalling_len

pub record LinkSignalling : Type 0 where
  pub mtu : ℕ
  pub mode : ℕ

pub data Error : Type 0 where
  nil_packet nil_identity x25519_pub_len ed25519_pub_len dest_hash_len link_id_len private_len :
      Error
  signalling_len wrong_packet_type wrong_destination_type body_len bad_signature : Error
  key_exchange key_derivation : Error
  packet_error : Packet.Error → Error

-- `MTU & 0x1FFFFF` is `mtu % 2^21`, and `uint32(Mode<<5) & 0xE0` keeps the three top bits of a
-- byte; the two parts stand in disjoint bits, so that the code's `|` adds them.
pub encode_signalling : LinkSignalling → Bytes
encode_signalling s =
    let value = s.mtu % 2 ^ 21 + s.mode * 2 ^ 5 % 256 / 32 * 32 * 2 ^ 16 in
    (value / 2 ^ 16 % 256) ∷ (value / 2 ^ 8 % 256) ∷ (value % 256) ∷ []

pub decode_link_signalling : Bytes → Result Error LinkSignalling
decode_link_signalling (a ∷ b ∷ c ∷ []) =
    let value = a * 2 ^ 16 + b * 2 ^ 8 + c in
    ok (record { mtu = value % 2 ^ 21; mode = value / 2 ^ 16 / 2 ^ 5 % 256 })
decode_link_signalling _ = err signalling_len

-- `if sig != nil { body = append(body, sig.Encode()...) }`
pub trailer : Option LinkSignalling → Bytes
unfolding encode_signalling
trailer none = []
trailer (some s) = encode_signalling s

-- The LINKREQUEST packet around a body.
abbrev pub link_request_packet : Bytes → Bytes → Packet
link_request_packet responder_hash body = record {
  header_type = header_type_1;
  context_flag = false;
  transport_type = broadcast_transport;
  destination_type = destination_single;
  packet_type = packet_link_request;
  hops = 0;
  transport_id = [];
  dest_hash = responder_hash;
  context = context_none;
  payload = body;
}

-- The LRPROOF packet around a body: the destination hash is the link id.
abbrev pub lr_proof_packet : Bytes → Bytes → Packet
lr_proof_packet id body = record {
  header_type = header_type_1;
  context_flag = false;
  transport_type = broadcast_transport;
  destination_type = destination_link;
  packet_type = packet_proof;
  hops = 0;
  transport_id = [];
  dest_hash = id;
  context = context_lr_proof;
  payload = body;
}

pub build_link_request : Bytes → Bytes → Bytes → Option LinkSignalling → Result Error Packet
unfolding trailer
build_link_request x25519_pub ed25519_pub responder_hash sig = do
  fail_if (not (length x25519_pub == 32)) x25519_pub_len
  fail_if (not (length ed25519_pub == 32)) ed25519_pub_len
  fail_if (not (length responder_hash == identity_hash_len)) dest_hash_len
  ok (link_request_packet responder_hash (x25519_pub ++ (ed25519_pub ++ trailer sig)))

pub record LinkRequest : Type 0 where
  pub initiator_x25519_pub : Bytes
  pub initiator_ed25519_pub : Bytes
  pub signalling : Option LinkSignalling

pub parse_link_request : Option Packet → Result Error LinkRequest
unfolding decode_link_signalling
parse_link_request none = err nil_packet
parse_link_request (some p) =
    let x25519_pub = take 32 p.payload in
    let ed25519_pub = take 32 (drop 32 p.payload) in
    if not (p.packet_type == packet_link_request)
    then err wrong_packet_type
    else if length p.payload == link_request_body_len
    then ok (record {
      initiator_x25519_pub = x25519_pub;
      initiator_ed25519_pub = ed25519_pub;
      signalling = none;
    })
    else if length p.payload == link_request_body_len_signalled
    then (do
      s ← decode_link_signalling (drop 64 p.payload)
      ok (record {
        initiator_x25519_pub = x25519_pub;
        initiator_ed25519_pub = ed25519_pub;
        signalling = some s;
      }))
    else err body_len

-- The bytes that LinkID hashes: the hashable part less the signalling trailer.
pub link_id_part : Packet → Result Error Bytes
link_id_part p = do
  hp ← wrap_err packet_error (hashable_part p)
  ok (
      if ltb link_request_body_len (length p.payload)
      then take (length hp - link_signalling_len) hp
      else hp)

-- link_id || responder X25519 key || responder Ed25519 key || signalling
pub lr_proof_signed_data : Bytes → Bytes → Bytes → Option LinkSignalling → Bytes
unfolding trailer
lr_proof_signed_data link_id x25519_pub ed25519_pub sig =
    link_id ++ (x25519_pub ++ (ed25519_pub ++ trailer sig))

pub record LrProof : Type 0 where
  pub link_id : Bytes
  pub signature : Bytes
  pub responder_x25519_pub : Bytes
  pub signalling : Option LinkSignalling

pub parse_lr_proof : Option Packet → Result Error LrProof
unfolding decode_link_signalling
parse_lr_proof none = err nil_packet
parse_lr_proof (some p) =
    let sig = take 64 p.payload in
    let x25519_pub = take 32 (drop 64 p.payload) in
    if not (p.packet_type == packet_proof) || not (p.context == context_lr_proof)
    then err wrong_packet_type
    else if not (p.destination_type == destination_link)
    then err wrong_destination_type
    else if length p.payload == lr_proof_body_len
    then ok (record {
      link_id = p.dest_hash;
      signature = sig;
      responder_x25519_pub = x25519_pub;
      signalling = none;
    })
    else if length p.payload == lr_proof_body_len_signalled
    then (do
      s ← decode_link_signalling (drop 96 p.payload)
      ok (record {
        link_id = p.dest_hash;
        signature = sig;
        responder_x25519_pub = x25519_pub;
        signalling = some s;
      }))
    else err body_len

module _ (c : Crypto) where
  pub link_id : Option Packet → Result Error Bytes
  unfolding link_id_part
  link_id none = err nil_packet
  link_id (some p) = do
    fail_if (not (p.packet_type == packet_link_request)) wrong_packet_type
    hp ← link_id_part p
    ok (take identity_hash_len (c.sha256 hp))

  -- (signing, encryption)
  unfoldable pub derive_link_session_keys : Bytes → Bytes → Bytes → Result Error (Bytes × Bytes)
  derive_link_session_keys my_priv peer_pub id = do
    fail_if (not (length my_priv == 32)) private_len
    fail_if (not (length peer_pub == 32)) x25519_pub_len
    fail_if (not (length id == identity_hash_len)) link_id_len
    shared ← or_fail (c.x25519 my_priv peer_pub) key_exchange
    derived ← or_fail (c.hkdf_64 shared id) key_derivation
    ok (take 32 derived, drop 32 derived)

  pub build_lr_proof : Option Identity → Bytes → Bytes → Option LinkSignalling → Result Error Packet
  unfolding lr_proof_signed_data
  build_lr_proof none id x25519_pub sig = err nil_identity
  build_lr_proof (some responder) id x25519_pub sig =
      let ed25519_pub = drop 32 (public_key responder) in
      let signature = sign c responder (lr_proof_signed_data id x25519_pub ed25519_pub sig) in
      do
        fail_if (not (length id == identity_hash_len)) link_id_len
        fail_if (not (length x25519_pub == 32)) x25519_pub_len
        ok (lr_proof_packet id (signature ++ (x25519_pub ++ trailer sig)))

  pub verify_lr_proof : LrProof → Bytes → Result Error (Unit {0})
  unfolding lr_proof_signed_data
  verify_lr_proof lr ed25519_pub = do
    fail_if (not (length ed25519_pub == 32)) ed25519_pub_len
    fail_if
        (not (
          validate c ed25519_pub
            (lr_proof_signed_data lr.link_id lr.responder_x25519_pub ed25519_pub lr.signalling)
            lr.signature))
        bad_signature
