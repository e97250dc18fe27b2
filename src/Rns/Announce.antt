-- ===== src/Rns/Announce.antt =====
-- internal/rns/announce.go: the announce of a destination, its body and its verification. The
-- clock and the random bytes are arguments; app_data is opaque, since its inside is msgpack.
pub mod Slices
pub mod Validity
mod Examples
use reticulum_forwarding_ser.Base.{
  or_fail, ◌>>=◌, ◌>>◌, ℕ, ◌+◌, Bool, true, false, not, ◌||◌, [], ◌++◌, ◌==◌, ltb, if◌then◌else◌,
  length, take, drop, Option, none, some, Result, ok, err, fail_if, wrap_err,
}
use reticulum_forwarding_ser.Base.Bytes.{Bytes, ◌=ᵇ◌}
use reticulum_forwarding_ser.Rns.Crypto.{Crypto}
use reticulum_forwarding_ser.Rns.Identity.{
  Identity, public_key, identity_hash, sign, validate, name_hash, destination_hash,
  identity_hash_len, name_hash_len, public_key_len,
}
use reticulum_forwarding_ser.Rns.Packet.{
  Packet, header_type_1, broadcast_transport, destination_single, packet_announce,
  big_endian_uint40, decode_big_endian_uint40,
}
use reticulum_forwarding_ser.Rns.Packet

abbrev pub random_hash_len : ℕ
random_hash_len = 10

abbrev pub ratchet_pub_len : ℕ
ratchet_pub_len = 32

abbrev pub announce_sig_len : ℕ
announce_sig_len = 64

abbrev pub announce_min_no_ratchet : ℕ
announce_min_no_ratchet = public_key_len + name_hash_len + 10 + 64

abbrev pub announce_min_with_ratchet : ℕ
announce_min_with_ratchet = announce_min_no_ratchet + 32

-- `ratchet_pub` and `transport_id` are empty where the code has nil.
pub record Announce : Type 0 where
  pub dest_hash : Bytes
  pub public_key : Bytes
  pub name_hash : Bytes
  pub random_hash : Bytes
  pub ratchet_pub : Bytes
  pub signature : Bytes
  pub app_data : Bytes
  pub context_flag : Bool
  pub hops : ℕ
  pub transport_id : Bytes

-- `hash_input` is the panic of DestinationHash.
pub data Error : Type 0 where
  nil_identity nil_packet ratchet_len entropy_failed hash_input wrong_packet_type : Error
  ratchet_body_len body_len malformed bad_signature dest_hash_mismatch random_hash_length : Error
  timestamp_error : Packet.Error → Error

pub emitted_at : Announce → Result Error ℕ
emitted_at a = do
  fail_if (not (length a.random_hash == random_hash_len)) random_hash_length
  wrap_err timestamp_error (decode_big_endian_uint40 (drop 5 a.random_hash))

abbrev pub announce_signed_data : Bytes → Bytes → Bytes → Bytes → Bytes → Bytes → Bytes
announce_signed_data dest_hash pub_key name_h random_h ratchet_pub app_data =
    dest_hash ++ (pub_key ++ (name_h ++ (random_h ++ (ratchet_pub ++ app_data))))

-- The bytes of an optional ratchet key.
abbrev pub ratchet_bytes : Option Bytes → Bytes
ratchet_bytes none = []
ratchet_bytes (some r) = r

abbrev pub has_ratchet : Option Bytes → Bool
has_ratchet none = false
has_ratchet (some r) = true

abbrev pub bad_ratchet : Option Bytes → Bool
bad_ratchet none = false
bad_ratchet (some r) = not (length r == ratchet_pub_len)

abbrev pub announce_packet : Bool → Bytes → ℕ → Bytes → Packet
announce_packet context_flag dest_hash context body = record {
  header_type = header_type_1;
  context_flag = context_flag;
  transport_type = broadcast_transport;
  destination_type = destination_single;
  packet_type = packet_announce;
  hops = 0;
  transport_id = [];
  dest_hash = dest_hash;
  context = context;
  payload = body;
}

abbrev pub announce_body : Bytes → Bytes → Bytes → Bytes → Bytes → Bytes → Bytes
announce_body pub_key name_h random_h ratchet sig app_data =
    pub_key ++ (name_h ++ (random_h ++ (ratchet ++ (sig ++ app_data))))

module _ (c : Crypto) where
  -- buildAnnounce at the unix time `now`, with five random bytes or none.
  pub build_announce :
      Option Identity → Bytes → Bytes → Option Bytes → ℕ → ℕ → Option Bytes → Result Error Packet
  build_announce none full_name app_data ratchet context now rnd = err nil_identity
  build_announce (some id) full_name app_data ratchet context now rnd = do
    fail_if (bad_ratchet ratchet) ratchet_len
    let name_h = name_hash c full_name
    dest ← or_fail (destination_hash c name_h (identity_hash c id)) hash_input
    random ← or_fail rnd entropy_failed
    let random_h = random ++ big_endian_uint40 now
    let r = ratchet_bytes ratchet
    let sig = sign c id (announce_signed_data dest (public_key id) name_h random_h r app_data)
    ok (
        announce_packet (has_ratchet ratchet) dest context
          (announce_body (public_key id) name_h random_h r sig app_data))

-- The announce of a packet, with the slices of its body; the signature begins at `sig_start`.
abbrev pub with_slices : Packet → Bytes → ℕ → Announce
with_slices p ratchet sig_start = record {
  dest_hash = p.dest_hash;
  public_key = take public_key_len p.payload;
  name_hash = take name_hash_len (drop public_key_len p.payload);
  random_hash = take random_hash_len (drop (public_key_len + name_hash_len) p.payload);
  ratchet_pub = ratchet;
  signature = take announce_sig_len (drop sig_start p.payload);
  app_data = drop (sig_start + announce_sig_len) p.payload;
  context_flag = p.context_flag;
  hops = p.hops;
  transport_id = p.transport_id;
}

pub parse_announce : Option Packet → Result Error Announce
parse_announce none = err nil_packet
parse_announce (some p) =
    if not (p.packet_type == packet_announce)
    then err wrong_packet_type
    else if p.context_flag
    then (if ltb (length p.payload) announce_min_with_ratchet
        then err ratchet_body_len
        else ok (with_slices p (take ratchet_pub_len (drop 84 p.payload)) 116))
    else if ltb (length p.payload) announce_min_no_ratchet
    then err body_len
    else ok (with_slices p [] 84)

module _ (c : Crypto) where
  unfoldable pub verify_announce : Announce → Result Error (Unit {0})
  verify_announce a =
      let signed =
        announce_signed_data a.dest_hash a.public_key a.name_hash a.random_hash a.ratchet_pub
          a.app_data in
      do
        fail_if
            (not (length a.public_key == public_key_len)
              || not (length a.signature == announce_sig_len))
            malformed
        fail_if (not (validate c (drop 32 a.public_key) signed a.signature)) bad_signature
        expected ←
            or_fail
              (destination_hash c a.name_hash (take identity_hash_len (c.sha256 a.public_key)))
              hash_input
        fail_if (not (expected =ᵇ a.dest_hash)) dest_hash_mismatch
