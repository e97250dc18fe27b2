-- ===== src/Rns/Crypto/Toy.antt =====
-- Functions that satisfy what the crypto packages document, to run the examples with.
use reticulum_forwarding_ser.Base.{
  ℕ, ◌≡◌, refl, ◌++◌, Option, some, length, length-append, length-take, length-replicate, replicate,
  take, arith,
}
use reticulum_forwarding_ser.Base.Bytes.{Bytes, ◌=ᵇ◌, beq_refl}
use reticulum_forwarding_ser.Rns.Crypto.{Crypto, IsSound}

abbrev pub zeros : ℕ → Bytes
zeros n = replicate n 0

abbrev pad_to : ℕ → Bytes → Bytes
pad_to n m = take n (m ++ zeros n)

length-pad_to : (n : ℕ) (m : Bytes) → length (pad_to n m) ≡ n
length-pad_to n m =
    let lz : length (zeros n) ≡ n = length-replicate n _ in
    omega (arith, length-take n (m ++ zeros n), length-append m (zeros n), lz)

abbrev pub toy : Crypto
toy = record {
  sha256 = λ m. pad_to 32 m;
  hmac_sha256 = λ k m. pad_to 32 m;
  cbc_encrypt = λ k iv m. m;
  cbc_decrypt = λ k iv m. m;
  x25519_base = zeros 32;
  x25519 = λ k u. some (zeros 32);
  hkdf_64 = λ secret salt. some (zeros 64);
  ed25519_pub = λ seed. zeros 32;
  ed25519_sign = λ seed m. pad_to 64 m;
  ed25519_verify = λ key m s. s =ᵇ pad_to 64 m;
}

pub toy-IsSound : IsSound toy
toy-IsSound = record {
  length-sha256 = λ m. length-pad_to 32 m;
  length-hmac = λ k m. length-pad_to 32 m;
  length-cbc = λ k iv m. refl;
  cbc_inverse = λ k iv m h. refl;
  length-pub = λ seed. refl;
  length-sign = λ seed m. length-pad_to 64 m;
  verify-sign = λ seed m. beq_refl (pad_to 64 m);
  length-hkdf = λ secret salt {d} h. ap_length h;
  x25519_agree = λ a b {pa} {pb} ha hb. refl;
  length-x25519 = λ k u {r} h. ap_length_32 h;
}
  where
    ap_length : {d : Bytes} → Option.some (zeros 64) ≡ some d → length d ≡ 64
    ap_length h = ground arith

    ap_length_32 : {d : Bytes} → Option.some (zeros 32) ≡ some d → length d ≡ 32
    ap_length_32 h = ground arith
