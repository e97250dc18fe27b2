-- ===== src/Rns/Link/Examples.antt =====
-- A handshake with concrete keys.
use reticulum_forwarding_ser.Base.{
  ◌≡◌, refl, inl, inr, false, [], ◌∷◌, ◌++◌, none, some, ok, replicate, arith,
}
use reticulum_forwarding_ser.Base.Bytes.{Bytes}
use reticulum_forwarding_ser.Rns.Crypto.Toy.{toy, toy-IsSound, zeros}
use reticulum_forwarding_ser.Rns.Identity.Examples.{alice, alice-IsKeyPair}
use reticulum_forwarding_ser.Rns.Packet.{Packet}
use reticulum_forwarding_ser.Rns.Packet.Codec.{IsWire}
use reticulum_forwarding_ser.Rns.Link.{
  LinkSignalling, decode_link_signalling, trailer, link_id, LrProof, build_lr_proof, parse_lr_proof,
  verify_lr_proof,
}
use reticulum_forwarding_ser.Rns.Link.Handshake.{masked?, link_id-relayed, verify-build_lr_proof}

abbrev mtu_500 : LinkSignalling
mtu_500 = record { mtu = 500; mode = 1 }

abbrev trailer_500 : Bytes
trailer_500 = 32 ∷ 1 ∷ 244 ∷ []

decoded : decode_link_signalling trailer_500 ≡ ok mtu_500
unfolding decode_link_signalling
decoded = refl

-- A link request with a trailer, and the same one relayed by a node that strips the trailer.
abbrev direct : Packet
direct = record {
  header_type = 0;
  context_flag = false;
  transport_type = 0;
  destination_type = 0;
  packet_type = 2;
  hops = 0;
  transport_id = [];
  dest_hash = replicate 16 7;
  context = 0;
  payload = zeros 64 ++ trailer (some mtu_500);
}

abbrev relayed : Packet
relayed = record direct {
  header_type = 1;
  transport_type = 1;
  hops = 2;
  transport_id = replicate 16 9;
  payload = zeros 64 ++ trailer none;
}

direct-IsWire : IsWire direct
direct-IsWire = record {
  transport_range = ground arith;
  destination_range = ground arith;
  packet_range = ground arith;
  dest_16 = refl;
  header = inl (refl, refl);
}

relayed-IsWire : IsWire relayed
relayed-IsWire = record {
  transport_range = ground arith;
  destination_range = ground arith;
  packet_range = ground arith;
  dest_16 = refl;
  header = inr (refl, refl);
}

link_id-relayed_example : link_id toy (some direct) ≡ link_id toy (some relayed)
link_id-relayed_example =
    link_id-relayed toy direct relayed (zeros 64) (some mtu_500) none direct-IsWire relayed-IsWire
      refl refl refl refl refl refl refl refl

verify-build_lr_proof_example :
    (p : Packet) × (lr : LrProof) × (build_lr_proof toy
        (some alice)
        (zeros 16)
        (zeros 32)
        (some mtu_500)
      ≡ ok p)
    × (parse_lr_proof (some p) ≡ ok lr)
    × (lr.link_id ≡ zeros 16)
    × (lr.responder_x25519_pub ≡ zeros 32)
    × (lr.signalling ≡ masked? (some mtu_500))
    × (verify_lr_proof toy lr alice.ed25519_pub ≡ ok tt)
verify-build_lr_proof_example =
    verify-build_lr_proof toy toy-IsSound alice (zeros 16) (zeros 32) (some mtu_500) alice-IsKeyPair
      refl refl
