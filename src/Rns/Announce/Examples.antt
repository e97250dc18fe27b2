-- ===== src/Rns/Announce/Examples.antt =====
-- An announce with a ratchet key.
use reticulum_forwarding_ser.Base.{◌≡◌, refl, true, [], ◌∷◌, ◌++◌, length, take, some, ok, arith}
use reticulum_forwarding_ser.Base.Bytes.{Bytes, ◌=ᵇ◌}
use reticulum_forwarding_ser.Rns.Crypto.Toy.{toy, toy-IsSound, zeros}
use reticulum_forwarding_ser.Rns.Identity.{public_key, validate, destination_hash}
use reticulum_forwarding_ser.Rns.Identity.Examples.{alice, alice-IsKeyPair}
use reticulum_forwarding_ser.Rns.Packet.{Packet}
use reticulum_forwarding_ser.Rns.Announce.{
  Announce, build_announce, parse_announce, verify_announce, emitted_at,
}
use reticulum_forwarding_ser.Rns.Announce.Validity.{
  verify-build_announce, verify_announce-authentic,
}

abbrev five : Bytes
five = 1 ∷ 2 ∷ 3 ∷ 4 ∷ 5 ∷ []

verify-build_announce_example :
    (p : Packet) × (a : Announce) × (build_announce toy
        (some alice)
        (104 ∷ 105 ∷ [])
        (7 ∷ [])
        (some (zeros 32))
        0
        1700000000
        (some five)
      ≡ ok p)
    × (parse_announce (some p) ≡ ok a)
    × (verify_announce toy a ≡ ok tt)
    × (emitted_at a ≡ ok 1700000000)
    × (a.public_key ≡ public_key alice)
    × (a.ratchet_pub ≡ zeros 32)
    × (a.app_data ≡ 7 ∷ [])
verify-build_announce_example =
    verify-build_announce toy toy-IsSound alice alice-IsKeyPair (104 ∷ 105 ∷ []) (7 ∷ []) five
      (some (zeros 32)) 0 1700000000 refl refl (ground arith)

abbrev heard : Announce
heard = record {
  dest_hash = zeros 16;
  public_key = zeros 64;
  name_hash = zeros 10;
  random_hash = zeros 10;
  ratchet_pub = zeros 32;
  signature = zeros 64;
  app_data = 7 ∷ [];
  context_flag = true;
  hops = 3;
  transport_id = zeros 16;
}

abbrev signed : Bytes
signed =
    heard.dest_hash
    ++ (heard.public_key
        ++ (heard.name_hash ++ (heard.random_hash ++ (heard.ratchet_pub ++ heard.app_data))))

verified : verify_announce toy heard ≡ ok tt
unfolding verify_announce validate destination_hash ◌=ᵇ◌
verified = refl

verify_announce-authentic_example :
    (validate toy (zeros 32) signed (zeros 64) ≡ true)
    × (zeros 16 ≡ take 16 (toy.sha256 (zeros 10 ++ take 16 (toy.sha256 (zeros 64)))))
    × (length (zeros 10) ≡ 10)
    × (length (zeros 64) ≡ 64)
verify_announce-authentic_example = verify_announce-authentic toy heard verified
