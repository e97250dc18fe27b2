-- ===== src/Rns/LinkData.antt =====
-- internal/rns/link_data.go: the packets that an active link carries, and the proofs that
-- acknowledge them; also internal/rns/proof.go and internal/rns/path.go. The IV and the random tag
-- are arguments, and a float64 is given by the number that its bits make.
pub mod Delivery
mod Examples
use reticulum_forwarding_ser.Base.{
  or_fail, ◌>>=◌, ◌>>◌, ℕ, ◌+◌, false, not, [], ◌∷◌, ◌++◌, ◌==◌, ltb, length, take, drop, Option,
  none, some, Result, ok, err, fail_if, wrap_err,
}
use reticulum_forwarding_ser.Base.Bytes.{Bytes}
use reticulum_forwarding_ser.Rns.Crypto.{Crypto}
use reticulum_forwarding_ser.Rns.Identity.{Identity, public_key, sign, identity_hash_len}
use reticulum_forwarding_ser.Rns.Packet.{
  byte_at, Packet, hashable_part, header_type_1, broadcast_transport, destination_single,
  destination_plain, destination_link, packet_data, packet_proof, context_none,
}
use reticulum_forwarding_ser.Rns.Packet
use reticulum_forwarding_ser.Rns.Token.{link_token_encrypt, link_token_decrypt}
use reticulum_forwarding_ser.Rns.Token

abbrev pub proof_body_implicit_len : ℕ
proof_body_implicit_len = 64

abbrev pub proof_body_explicit_len : ℕ
proof_body_explicit_len = 32 + 64

abbrev pub context_keepalive : ℕ
context_keepalive = 0xfa

abbrev pub context_lrrtt : ℕ
context_lrrtt = 0xfe

abbrev pub context_link_identify : ℕ
context_link_identify = 0xfb

abbrev pub keepalive_ping : ℕ
keepalive_ping = 0xff

abbrev pub keepalive_pong : ℕ
keepalive_pong = 0xfe

abbrev pub path_request_dest_hash : Bytes
path_request_dest_hash =
    0x6b ∷ 0x9f ∷ 0x66 ∷ 0x01 ∷ 0x4d ∷ 0x98 ∷ 0x53 ∷ 0xfa ∷ 0xab ∷ 0x22 ∷ 0x0f ∷ 0xba ∷ 0x47 ∷ 0xd0
    ∷ 0x27 ∷ 0x61 ∷ []

pub data Error : Type 0 where
  link_id_len nil_packet nil_sign nil_identity signature_len wrong_packet_type
        wrong_destination_type :
      Error
  wrong_context body_len public_key_len bad_signature entropy_failed target_len payload_short :
      Error
  token_error : Token.Error → Error
  packet_error : Packet.Error → Error

-- A packet of the first header type, not relayed.
abbrev pub packet_to : ℕ → ℕ → Bytes → ℕ → Bytes → Packet
packet_to destination_type packet_type dest_hash context body = record {
  header_type = header_type_1;
  context_flag = false;
  transport_type = broadcast_transport;
  destination_type = destination_type;
  packet_type = packet_type;
  hops = 0;
  transport_id = [];
  dest_hash = dest_hash;
  context = context;
  payload = body;
}

module _ (c : Crypto) where
  pub build_link_data_packet : Option Bytes → Bytes → Bytes → Bytes → Bytes → Result Error Packet
  build_link_data_packet iv link_id signing encryption plaintext = do
    fail_if (not (length link_id == identity_hash_len)) link_id_len
    ciphertext ← wrap_err token_error (link_token_encrypt c iv plaintext signing encryption)
    ok (packet_to destination_link packet_data link_id context_none ciphertext)

  pub parse_link_data_packet : Option Packet → Bytes → Bytes → Result Error Bytes
  parse_link_data_packet none signing encryption = err nil_packet
  parse_link_data_packet (some p) signing encryption = do
    fail_if (not (p.packet_type == packet_data)) wrong_packet_type
    fail_if (not (p.destination_type == destination_link)) wrong_destination_type
    fail_if (not (p.context == context_none)) wrong_context
    wrap_err token_error (link_token_decrypt c p.payload signing encryption)

  -- The local sign function is an argument, as in the code.
  pub build_link_proof : Bytes → Option (Bytes → Bytes) → Option Packet → Result Error Packet
  build_link_proof link_id none original = do
    fail_if (not (length link_id == identity_hash_len)) link_id_len
    err nil_sign
  build_link_proof link_id (some sign_with) none = do
    fail_if (not (length link_id == identity_hash_len)) link_id_len
    err nil_packet
  build_link_proof link_id (some sign_with) (some original) = do
    fail_if (not (length link_id == identity_hash_len)) link_id_len
    hashable ← wrap_err packet_error (hashable_part original)
    let digest = c.sha256 hashable
    let sig = sign_with digest
    fail_if (not (length sig == 64)) signature_len
    ok (packet_to destination_link packet_proof link_id context_none (digest ++ sig))

  -- The hash of the packet that is proved.
  unfoldable pub validate_link_proof : Option Packet → Bytes → Result Error Bytes
  validate_link_proof none peer_pub = err nil_packet
  validate_link_proof (some p) peer_pub = do
    fail_if (not (p.packet_type == packet_proof)) wrong_packet_type
    fail_if (not (p.destination_type == destination_link)) wrong_destination_type
    fail_if (not (p.context == context_none)) wrong_context
    fail_if (not (length p.payload == proof_body_explicit_len)) body_len
    fail_if (not (length peer_pub == 32)) public_key_len
    let packet_hash = take 32 p.payload
    let sig = drop 32 p.payload
    fail_if (not (c.ed25519_verify peer_pub packet_hash sig)) bad_signature
    ok packet_hash

pub build_keepalive_packet : Bytes → ℕ → Result Error Packet
build_keepalive_packet link_id sentinel = do
  fail_if (not (length link_id == identity_hash_len)) link_id_len
  ok (packet_to destination_link packet_data link_id context_keepalive (sentinel ∷ []))

pub build_link_keepalive : Bytes → Result Error Packet
unfolding build_keepalive_packet
build_link_keepalive link_id = build_keepalive_packet link_id keepalive_ping

pub build_link_keepalive_pong : Bytes → Result Error Packet
unfolding build_keepalive_packet
build_link_keepalive_pong link_id = build_keepalive_packet link_id keepalive_pong

pub msgpack_marshal_float64 : ℕ → Bytes
msgpack_marshal_float64 bits =
    0xcb
    ∷ byte_at bits 56
    ∷ byte_at bits 48
    ∷ byte_at bits 40
    ∷ byte_at bits 32
    ∷ byte_at bits 24
    ∷ byte_at bits 16
    ∷ byte_at bits 8
    ∷ byte_at bits 0
    ∷ []

module _ (c : Crypto) where
  pub build_link_rtt : Option Bytes → Bytes → Bytes → Bytes → ℕ → Result Error Packet
  unfolding msgpack_marshal_float64
  build_link_rtt iv link_id signing encryption rtt_seconds = do
    fail_if (not (length link_id == identity_hash_len)) link_id_len
    ciphertext ←
        wrap_err token_error
          (link_token_encrypt c iv (msgpack_marshal_float64 rtt_seconds) signing encryption)
    ok (packet_to destination_link packet_data link_id context_lrrtt ciphertext)

  pub build_link_identify :
      Option Bytes → Bytes → Bytes → Bytes → Option Identity → Result Error Packet
  build_link_identify iv link_id signing encryption none = do
    fail_if (not (length link_id == identity_hash_len)) link_id_len
    err nil_identity
  build_link_identify iv link_id signing encryption (some id) = do
    fail_if (not (length link_id == identity_hash_len)) link_id_len
    let pubkey = public_key id
    let sig = sign c id (link_id ++ pubkey)
    fail_if (not (length sig == 64)) signature_len
    ciphertext ← wrap_err token_error (link_token_encrypt c iv (pubkey ++ sig) signing encryption)
    ok (packet_to destination_link packet_data link_id context_link_identify ciphertext)

  -- The signature is over the whole digest, and the proof goes to its first 16 bytes.
  pub prove_opportunistic : Option Identity → Option Packet → Result Error Packet
  prove_opportunistic none original = err nil_identity
  prove_opportunistic (some receiver) none = err nil_packet
  prove_opportunistic (some receiver) (some original) = do
    hashable ← wrap_err packet_error (hashable_part original)
    let digest = c.sha256 hashable
    let sig = sign c receiver digest
    fail_if (not (length sig == proof_body_implicit_len)) signature_len
    ok (packet_to destination_single packet_proof (take identity_hash_len digest) context_none sig)

pub build_path_request : Bytes → Option Bytes → Result Error Packet
build_path_request target_dest_hash tag = do
  fail_if (not (length target_dest_hash == identity_hash_len)) target_len
  t ← or_fail tag entropy_failed
  ok (
      packet_to destination_plain packet_data path_request_dest_hash context_none
        (target_dest_hash ++ t))

pub path_request_target : Bytes → Result Error Bytes
path_request_target payload = do
  fail_if (ltb (length payload) identity_hash_len) payload_short
  ok (take identity_hash_len payload)
