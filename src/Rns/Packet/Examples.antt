-- ===== src/Rns/Packet/Examples.antt =====
-- Packets of both header types, and what the codec does with them.
use reticulum_forwarding_ser.Base.{◌≡◌, refl, inl, inr, [], ◌∷◌, ◌++◌, false, ok, replicate, arith}
use reticulum_forwarding_ser.Base.Bytes.{Bytes}
use reticulum_forwarding_ser.Rns.Packet.{Packet, pack, unpack_flags, parse_body, parse_packet}
use reticulum_forwarding_ser.Rns.Packet.Codec.{IsWire, parse_packet-pack}

-- A link request as it is sent, and as a transport node relays it.
abbrev direct : Packet
direct = record {
  header_type = 0;
  context_flag = false;
  transport_type = 0;
  destination_type = 0;
  packet_type = 2;
  hops = 0;
  transport_id = [];
  dest_hash = replicate 16 7;
  context = 0;
  payload = 1 ∷ 2 ∷ 3 ∷ [];
}

abbrev relayed : Packet
relayed = record direct {
  header_type = 1;
  transport_type = 1;
  hops = 2;
  transport_id = replicate 16 9;
}

direct-IsWire : IsWire direct
direct-IsWire = record {
  transport_range = ground arith;
  destination_range = ground arith;
  packet_range = ground arith;
  dest_16 = refl;
  header = inl (refl, refl);
}

relayed-IsWire : IsWire relayed
relayed-IsWire = record {
  transport_range = ground arith;
  destination_range = ground arith;
  packet_range = ground arith;
  dest_16 = refl;
  header = inr (refl, refl);
}

parse_packet-pack_example :
    (raw : Bytes) × (pack relayed ≡ ok raw) × (parse_packet raw ≡ ok relayed)
parse_packet-pack_example = parse_packet-pack relayed relayed-IsWire

abbrev direct_raw : Bytes
direct_raw = 2 ∷ 0 ∷ (replicate 16 7 ++ (0 ∷ 1 ∷ 2 ∷ 3 ∷ []))

parsed : parse_packet direct_raw ≡ ok direct
unfolding parse_packet parse_body unpack_flags
parsed = refl
