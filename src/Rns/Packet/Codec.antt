-- ===== src/Rns/Packet/Codec.antt =====
-- Pack and ParsePacket are inverse to one another, and what HashablePart keeps.
use reticulum_forwarding_ser.Base.{
  ℕ, ◌+◌, ◌*◌, ◌/◌, ◌^◌, ◌≤◌, ◌<◌, ◌≡◌, ◌⊎◌, inl, inr, false, [], ◌∷◌, ◌++◌, ◌==◌, length,
  length-append, length-take, length-drop, drop, take-append, drop-append, take-append-drop,
  get_or-skip, drop-skip, cut_at, get_or-drop, drop-drop, All, arith,
}
use reticulum_forwarding_ser.Base.Bytes.{Bytes, IsByte}
use reticulum_forwarding_ser.Base.{Bool-cases, ok, err}
use reticulum_forwarding_ser.Base.Bits.{mask_1}
use reticulum_forwarding_ser.Rns.Packet.{
  Packet, pack, parse_body, parse_packet, hashable_part, pack_flags, unpack_flags, too_short,
  ifac_unsupported, big_endian_uint40, decode_big_endian_uint40,
}
use reticulum_forwarding_ser.Rns.Packet.Flags.{
  weigh, pack_flags-weigh, unpack_flags-weigh, weigh-unpack_flags, low_nibble,
}

-- A packet that the wire can carry: the header fields are in range, the destination hash has 16
-- bytes, and a transport id, of 16 bytes, stands in a HEADER_2 packet only.
pub record IsWire (p : Packet) : Type 0 where
  pub transport_range : p.transport_type < 2
  pub destination_range : p.destination_type < 4
  pub packet_range : p.packet_type < 4
  pub dest_16 : length p.dest_hash ≡ 16
  pub header :
      ((p.header_type ≡ 0) × (p.transport_id ≡ []))
      ⊎ ((p.header_type ≡ 1) × (length p.transport_id ≡ 16))

abbrev weight : Packet → ℕ
weight p = weigh p.header_type p.context_flag p.transport_type p.destination_type p.packet_type

module _ (p : Packet) (w : IsWire p) where
  flags_weight :
      pack_flags p.header_type p.context_flag p.transport_type p.destination_type p.packet_type
      ≡ weight p
  flags_weight = ground (
    arith,
    pack_flags-weigh p.header_type p.context_flag p.transport_type p.destination_type p.packet_type,
  )

  pack_header_1 :
      p.header_type ≡ 0 → pack p ≡ ok (weight p ∷ p.hops ∷ (p.dest_hash ++ (p.context ∷ p.payload)))
  unfolding pack
  pack_header_1 h = ground (arith, flags_weight)

  pack_header_2 :
      p.header_type ≡ 1
      → length p.transport_id ≡ 16
      → pack p
        ≡ ok (weight p ∷ p.hops ∷ (p.transport_id ++ (p.dest_hash ++ (p.context ∷ p.payload))))
  unfolding pack
  pack_header_2 h t = ground (arith, flags_weight)

  unpack_weight :
      p.header_type < 2
      → unpack_flags (weight p) ≡ record {
        ifac_flag = false;
        header_type = p.header_type;
        context_flag = p.context_flag;
        transport_type = p.transport_type;
        dest_type = p.destination_type;
        packet_type = p.packet_type;
      }
  unpack_weight h =
      unpack_flags-weigh p.header_type p.context_flag p.transport_type p.destination_type
        p.packet_type h w.transport_range w.destination_range w.packet_range

  parse_header_1 :
      p.header_type ≡ 0
      → p.transport_id ≡ []
      → parse_packet (weight p ∷ p.hops ∷ (p.dest_hash ++ (p.context ∷ p.payload))) ≡ ok p
  unfolding parse_packet
  parse_header_1 h t = ground (
    arith,
    unpack_weight (omega arith),
    length-append p.dest_hash (p.context ∷ p.payload),
    take-append 16 p.dest_hash (p.context ∷ p.payload) w.dest_16,
    get_or-skip 16 0 p.dest_hash (p.context ∷ p.payload) 0 w.dest_16,
    drop-skip 16 1 p.dest_hash (p.context ∷ p.payload) w.dest_16,
  )

  parse_header_2 :
      p.header_type ≡ 1
      → length p.transport_id ≡ 16
      → parse_packet
          (weight p ∷ p.hops ∷ (p.transport_id ++ (p.dest_hash ++ (p.context ∷ p.payload))))
        ≡ ok p
  unfolding parse_packet
  parse_header_2 h t =
      let tail : Bytes = p.context ∷ p.payload in
      ground (
        arith,
        unpack_weight (omega arith),
        length-append p.transport_id (p.dest_hash ++ tail),
        length-append p.dest_hash tail,
        take-append 16 p.transport_id (p.dest_hash ++ tail) t,
        drop-append 16 p.transport_id (p.dest_hash ++ tail) t,
        take-append 16 p.dest_hash tail w.dest_16,
        get_or-skip 16 16 p.transport_id (p.dest_hash ++ tail) 0 t,
        get_or-skip 16 0 p.dest_hash tail 0 w.dest_16,
        drop-skip 16 17 p.transport_id (p.dest_hash ++ tail) t,
        drop-skip 16 1 p.dest_hash tail w.dest_16,
      )

  -- Every packet that the wire can carry is packed, and ParsePacket reads the same packet back.
  pub parse_packet-pack : (raw : Bytes) × (pack p ≡ ok raw) × (parse_packet raw ≡ ok p)
  parse_packet-pack = elim w.header [
    | inl (h, t) ↦ (_, pack_header_1 h, parse_header_1 h t)
    | inr (h, t) ↦ (_, pack_header_2 h t, parse_header_2 h t)
  ]

  abbrev hashed : Bytes
  hashed = (p.destination_type * 4 + p.packet_type) ∷ (p.dest_hash ++ (p.context ∷ p.payload))

  -- The hashable part holds the destination and packet types, the destination hash, the context
  -- and the payload.
  pub hashable_part-ok : hashable_part p ≡ ok hashed
  unfolding hashable_part
  hashable_part-ok =
      let low =
        low_nibble p.header_type p.context_flag p.transport_type p.destination_type p.packet_type in
      elim w.header [
        | inl (h, t) ↦ ground (arith, pack_header_1 h, low)
        | inr (h, t) ↦ ground (
          arith,
          pack_header_2 h t,
          low,
          drop-append 16 p.transport_id (p.dest_hash ++ (p.context ∷ p.payload)) t,
        )
      ]

-- Two packets that the wire can carry and that agree on the destination and packet types, the
-- destination hash, the context and the payload have the same hashable part: the header type, the
-- transport id and type, the context flag and the hops have no influence on it.
pub hashable_part-relayed :
    (p q : Packet)
    → IsWire p
    → IsWire q
    → p.destination_type ≡ q.destination_type
    → p.packet_type ≡ q.packet_type
    → p.dest_hash ≡ q.dest_hash
    → p.context ≡ q.context
    → p.payload ≡ q.payload
    → hashable_part p ≡ hashable_part q
hashable_part-relayed p q wp wq ed ep eh ec ey = cc (hashable_part-ok p wp, hashable_part-ok q wq)

parse_body-pack :
    (f hops : ℕ) (body : Bytes) (p : Packet)
    → f < 256
    → (unpack_flags f).ifac_flag ≡ false
    → 17 ≤ length body
    → parse_body (unpack_flags f) hops body ≡ ok p
    → IsWire p × (pack p ≡ ok (f ∷ hops ∷ body))
unfolding parse_body
parse_body-pack f hops body p hf hi hl h = elim (Bool-cases ((unpack_flags f).header_type == 0)) [
  | inl one ↦
      let w : IsWire p = ground (arith, weigh-unpack_flags f hf hi, length-take 16 body) in
      (w, ground (arith, weigh-unpack_flags f hf hi, pack_header_1 p w, cut_at 16 body 0))
  | inr two ↦
      let w : IsWire p = ground (
        arith,
        weigh-unpack_flags f hf hi,
        length-take 16 body,
        length-take 16 (drop 16 body),
        length-drop 16 body,
      ) in
      (
        w,
        ground (
          arith,
          weigh-unpack_flags f hf hi,
          pack_header_2 p w,
          length-take 16 body,
          length-drop 16 body,
          cut_at 16 (drop 16 body) 0,
          take-append-drop 16 body,
          get_or-drop 16 16 body 0,
          drop-drop 16 17 body,
        ),
      )
]

-- Whatever ParsePacket accepts from a slice of bytes is a packet that the wire can carry, and
-- Pack gives the same bytes again: no two wire forms are read as one packet.
pub pack-parse_packet :
    (raw : Bytes) (p : Packet)
    → All IsByte raw
    → parse_packet raw ≡ ok p
    → IsWire p × (pack p ≡ ok raw)
unfolding parse_packet
pack-parse_packet [] p b h = cc
pack-parse_packet (f ∷ []) p b h = cc
pack-parse_packet (f ∷ hops ∷ body) p (bf, _) h = ground (arith, parse_body-pack f hops body p bf)

-- ParsePacket refuses a slice shorter than a HEADER_1 packet with the length error, and any other
-- slice whose first byte has the top bit set with the IFAC error, before it reads anything else.
pub parse_packet_refuses :
    (raw : Bytes) (f : ℕ) (rest : Bytes)
    → raw ≡ f ∷ rest
    → f < 256
    → (length raw < 19 → parse_packet raw ≡ err too_short)
      × (19 ≤ length raw → 128 ≤ f → parse_packet raw ≡ err ifac_unsupported)
unfolding parse_packet
parse_packet_refuses raw f [] e h = (λ short. rw e, λ long. ground arith)
parse_packet_refuses raw f (hops ∷ body) e h =
    (λ short. ground arith, λ long top. ground (arith, mask_1 (f / 128)))

-- A timestamp of 40 bits comes back from its five bytes.
pub decode-big_endian_uint40 :
    (v : ℕ) → v < 2 ^ 40 → decode_big_endian_uint40 (big_endian_uint40 v) ≡ ok v
unfolding decode_big_endian_uint40 big_endian_uint40
decode-big_endian_uint40 v h = ground arith
