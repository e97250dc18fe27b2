-- ===== src/Rns/Packet.antt =====
-- internal/rns/packet.go: the packet header, its wire form and its hashable part.
pub mod Flags
pub mod Codec
mod Examples
use Prim.Native.Nat.{bit_and, bit_or}
use reticulum_forwarding_ser.Base.{
  ◌>>=◌, ◌>>◌, ℕ, ◌+◌, ◌*◌, ◌/◌, ◌%◌, ◌^◌, Bool, not, [], ◌∷◌, ◌++◌, ◌==◌, ltb, if◌then◌else◌, ◌≡◌,
  refl, length, take, drop, get_or, Result, ok, err,
}
use reticulum_forwarding_ser.Base.Bytes.{Bytes}

abbrev pub header_type_1 : ℕ
header_type_1 = 0

abbrev pub header_type_2 : ℕ
header_type_2 = 1

abbrev pub broadcast_transport : ℕ
broadcast_transport = 0

abbrev pub network_transport : ℕ
network_transport = 1

abbrev pub destination_single : ℕ
destination_single = 0

abbrev pub destination_group : ℕ
destination_group = 1

abbrev pub destination_plain : ℕ
destination_plain = 2

abbrev pub destination_link : ℕ
destination_link = 3

abbrev pub packet_data : ℕ
packet_data = 0

abbrev pub packet_announce : ℕ
packet_announce = 1

abbrev pub packet_link_request : ℕ
packet_link_request = 2

abbrev pub packet_proof : ℕ
packet_proof = 3

abbrev pub context_none : ℕ
context_none = 0x00

abbrev pub context_lr_proof : ℕ
context_lr_proof = 0xff

abbrev pub address_hash_len : ℕ
address_hash_len = 16

abbrev pub header_1_min_len : ℕ
header_1_min_len = 1 + 1 + address_hash_len + 1

abbrev pub header_2_min_len : ℕ
header_2_min_len = 1 + 1 + address_hash_len * 2 + 1

-- A byte field is a number, and a nil slice the empty list.
pub record Packet : Type 0 where
  pub header_type : ℕ
  pub context_flag : Bool
  pub transport_type : ℕ
  pub destination_type : ℕ
  pub packet_type : ℕ
  pub hops : ℕ
  pub transport_id : Bytes
  pub dest_hash : Bytes
  pub context : ℕ
  pub payload : Bytes

pub data Error : Type 0 where
  dest_hash_len transport_id_len unknown_header_type too_short ifac_unsupported : Error
  header_2_truncated uint40_len : Error

abbrev pub Outcome : Type 0 → Type 0
Outcome = Result Error

-- `b << k` on a byte.
abbrev pub shl_byte : ℕ → ℕ → ℕ
shl_byte b k = b * 2 ^ k % 256

abbrev pub flag_bit : Bool → ℕ
flag_bit c = if c then shl_byte 1 5 else 0

pub pack_flags : ℕ → Bool → ℕ → ℕ → ℕ → ℕ
pack_flags header_type context_flag transport_type dest_type packet_type =
    bit_or
      (bit_or
        (bit_or (bit_or (bit_or 0 (shl_byte (bit_and header_type 0x01) 6)) (flag_bit context_flag))
          (shl_byte (bit_and transport_type 0x01) 4))
        (shl_byte (bit_and dest_type 0x03) 2))
      (bit_and packet_type 0x03)

-- The results of unpackFlags, in their order.
pub record UnpackedFlags : Type 0 where
  pub ifac_flag : Bool
  pub header_type : ℕ
  pub context_flag : Bool
  pub transport_type : ℕ
  pub dest_type : ℕ
  pub packet_type : ℕ

pub unpack_flags : ℕ → UnpackedFlags
unpack_flags f = record {
  ifac_flag = bit_and (f / 2 ^ 7) 0x01 == 1;
  header_type = bit_and (f / 2 ^ 6) 0x01;
  context_flag = bit_and (f / 2 ^ 5) 0x01 == 1;
  transport_type = bit_and (f / 2 ^ 4) 0x01;
  dest_type = bit_and (f / 2 ^ 2) 0x03;
  packet_type = bit_and f 0x03;
}

abbrev pub flags_of : Packet → ℕ
flags_of p =
    pack_flags p.header_type p.context_flag p.transport_type p.destination_type p.packet_type

pub pack : Packet → Outcome Bytes
pack p =
    if not (length p.dest_hash == address_hash_len)
    then err dest_hash_len
    else if p.header_type == header_type_1
    then ok (flags_of p ∷ p.hops ∷ (p.dest_hash ++ (p.context ∷ p.payload)))
    else if p.header_type == header_type_2
    then (if not (length p.transport_id == address_hash_len)
        then err transport_id_len
        else ok
            (flags_of p ∷ p.hops ∷ (p.transport_id ++ (p.dest_hash ++ (p.context ∷ p.payload)))))
    else err unknown_header_type

-- The packet that ParsePacket fills in, from the flags and the slices of the branch taken.
abbrev pub with_fields : UnpackedFlags → ℕ → Bytes → Bytes → ℕ → Bytes → Packet
with_fields f hops tid dest ctx payload = record {
  header_type = f.header_type;
  context_flag = f.context_flag;
  transport_type = f.transport_type;
  destination_type = f.dest_type;
  packet_type = f.packet_type;
  hops = hops;
  transport_id = tid;
  dest_hash = dest;
  context = ctx;
  payload = payload;
}

-- ParsePacket after the first two bytes: `body` is raw[2:].
pub parse_body : UnpackedFlags → ℕ → Bytes → Outcome Packet
parse_body f hops body =
    if f.header_type == header_type_1
    then ok (
        with_fields f hops [] (take address_hash_len body) (get_or body address_hash_len 0)
          (drop (address_hash_len + 1) body))
    else if f.header_type == header_type_2
    then (if ltb (length body + 2) header_2_min_len
        then err header_2_truncated
        else ok (
            with_fields f hops (take address_hash_len body)
              (take address_hash_len (drop address_hash_len body))
              (get_or body (address_hash_len * 2) 0) (drop (address_hash_len * 2 + 1) body)))
    else err unknown_header_type

-- ParsePacket. A slice shorter than two bytes is too short in any case.
pub parse_packet : Bytes → Outcome Packet
unfolding unpack_flags parse_body
parse_packet [] = err too_short
parse_packet (flags ∷ []) = err too_short
parse_packet (flags ∷ hops ∷ body) =
    if ltb (length body + 2) header_1_min_len
    then err too_short
    else if (unpack_flags flags).ifac_flag
    then err ifac_unsupported
    else parse_body (unpack_flags flags) hops body

-- HashablePart: `raw[2:]` or `raw[18:]` behind the low nibble of the flags byte raw[0].
pub hashable_part : Packet → Outcome Bytes
unfolding pack
hashable_part p = do
  raw ← pack p
  let low = bit_and (get_or raw 0 0) 0x0f
  if p.header_type == header_type_1
      then ok (low ∷ drop 2 raw)
      else if p.header_type == header_type_2
      then ok (low ∷ drop 18 raw)
      else err unknown_header_type

pub prepend_destination_hash : Bytes → Bytes → Bytes
prepend_destination_hash dest_hash payload = dest_hash ++ payload

-- `byte(v >> k)` of a uint64.
abbrev pub byte_at : ℕ → ℕ → ℕ
byte_at v k = v / 2 ^ k % 256

pub big_endian_uint40 : ℕ → Bytes
big_endian_uint40 v = byte_at v 32 ∷ byte_at v 24 ∷ byte_at v 16 ∷ byte_at v 8 ∷ byte_at v 0 ∷ []

-- The five shifted bytes stand in disjoint bits, so that the code's `|` adds them.
pub decode_big_endian_uint40 : Bytes → Outcome ℕ
decode_big_endian_uint40 (a ∷ b ∷ c ∷ d ∷ e ∷ []) =
    ok (a * 2 ^ 32 + b * 2 ^ 24 + c * 2 ^ 16 + d * 2 ^ 8 + e)
decode_big_endian_uint40 _ = err uint40_len

pub length-big_endian_uint40 : (v : ℕ) → length (big_endian_uint40 v) ≡ 5
unfolding big_endian_uint40
length-big_endian_uint40 v = refl
