-- ===== src/Rns/LinkData/Examples.antt =====
-- A message over a link, and its proof.
use reticulum_forwarding_ser.Base.{◌≡◌, refl, inl, false, true, [], ◌++◌, length, some, ok, arith}
use reticulum_forwarding_ser.Base.Bytes.{Bytes, ◌=ᵇ◌}
use reticulum_forwarding_ser.Rns.Crypto.Toy.{toy, zeros}
use reticulum_forwarding_ser.Rns.Packet.{Packet}
use reticulum_forwarding_ser.Rns.Packet.Codec.{IsWire}
use reticulum_forwarding_ser.Rns.LinkData.{validate_link_proof}
use reticulum_forwarding_ser.Rns.LinkData.Delivery.{validate_link_proof-authentic}

abbrev message : Packet
message = record {
  header_type = 0;
  context_flag = false;
  transport_type = 0;
  destination_type = 3;
  packet_type = 0;
  hops = 1;
  transport_id = [];
  dest_hash = zeros 16;
  context = 0;
  payload = zeros 64;
}

message-IsWire : IsWire message
message-IsWire = record {
  transport_range = ground arith;
  destination_range = ground arith;
  packet_range = ground arith;
  dest_16 = refl;
  header = inl (refl, refl);
}

abbrev proof : Packet
proof = record message { packet_type = 3; payload = zeros 96 }

proof-valid : validate_link_proof toy (some proof) (zeros 32) ≡ ok (zeros 32)
unfolding validate_link_proof ◌=ᵇ◌
proof-valid = refl

validate_link_proof-authentic_example :
    (sig : Bytes) × (zeros 96 ≡ zeros 32 ++ sig)
    × (length (zeros 32) ≡ 32)
    × (length sig ≡ 64)
    × (toy.ed25519_verify (zeros 32) (zeros 32) sig ≡ true)
validate_link_proof-authentic_example =
    validate_link_proof-authentic toy proof (zeros 32) (zeros 32) proof-valid
