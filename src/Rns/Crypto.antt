-- ===== src/Rns/Crypto.antt =====
-- The primitives that the service takes from Go's crypto packages and golang.org/x/crypto, as a
-- parameter: SHA-256, HMAC, AES-CBC, X25519, HKDF and Ed25519.
pub mod Toy
use reticulum_forwarding_ser.Base.{◌%◌, ◌≡◌, Bool, true, Option, some, length}
use reticulum_forwarding_ser.Base.Bytes.{Bytes}

pub record Crypto : Type 0 where
  -- sha256.Sum256, hmac.New(sha256.New, key) over the joined parts
  pub sha256 : Bytes → Bytes
  pub hmac_sha256 : Bytes → Bytes → Bytes
  -- CryptBlocks of the CBC modes under a key and an IV, on block-aligned data
  pub cbc_encrypt : Bytes → Bytes → Bytes → Bytes
  pub cbc_decrypt : Bytes → Bytes → Bytes → Bytes
  -- curve25519.Basepoint, curve25519.X25519 of a scalar and a point, 64 bytes of hkdf with a secret
  -- and a salt; `none` is an error
  pub x25519_base : Bytes
  pub x25519 : Bytes → Bytes → Option Bytes
  pub hkdf_64 : Bytes → Bytes → Option Bytes
  -- the public key of an Ed25519 seed, ed25519.Sign and ed25519.Verify
  pub ed25519_pub : Bytes → Bytes
  pub ed25519_sign : Bytes → Bytes → Bytes
  pub ed25519_verify : Bytes → Bytes → Bytes → Bool

-- What the packages document of the primitives.
pub record IsSound (c : Crypto) : Type 0 where
  pub length-sha256 : (m : Bytes) → length (c.sha256 m) ≡ 32
  pub length-hmac : (k m : Bytes) → length (c.hmac_sha256 k m) ≡ 32
  pub length-cbc : (k iv m : Bytes) → length (c.cbc_encrypt k iv m) ≡ length m
  pub cbc_inverse :
      (k iv m : Bytes) → length m % 16 ≡ 0 → c.cbc_decrypt k iv (c.cbc_encrypt k iv m) ≡ m
  pub length-pub : (seed : Bytes) → length (c.ed25519_pub seed) ≡ 32
  pub length-sign : (seed m : Bytes) → length (c.ed25519_sign seed m) ≡ 64
  pub verify-sign :
      (seed m : Bytes) → c.ed25519_verify (c.ed25519_pub seed) m (c.ed25519_sign seed m) ≡ true
  pub length-hkdf :
      (secret salt : Bytes) {d : Bytes} → c.hkdf_64 secret salt ≡ some d → length d ≡ 64
  -- the Diffie-Hellman agreement of two key pairs
  pub x25519_agree :
      (a b : Bytes) {pa pb : Bytes}
      → c.x25519 a c.x25519_base ≡ some pa
      → c.x25519 b c.x25519_base ≡ some pb
      → c.x25519 a pb ≡ c.x25519 b pa
  pub length-x25519 : (k u : Bytes) {r : Bytes} → c.x25519 k u ≡ some r → length r ≡ 32
