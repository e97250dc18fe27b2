-- ===== src/Rns/Identity/Examples.antt =====
-- A key pair, its file and its signature.
use reticulum_forwarding_ser.Base.{refl}
use reticulum_forwarding_ser.Rns.Crypto.Toy.{toy, zeros}
use reticulum_forwarding_ser.Rns.Identity.{Identity, IsKeyPair}

abbrev pub alice : Identity
alice = record {
  x25519_priv = zeros 32;
  ed25519_seed = zeros 32;
  x25519_pub = zeros 32;
  ed25519_pub = zeros 32;
}

pub alice-IsKeyPair : IsKeyPair toy alice
alice-IsKeyPair = record { priv_32 = refl; seed_32 = refl; x25519_pair = refl; ed25519_pair = refl }
