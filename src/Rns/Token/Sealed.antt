-- ===== src/Rns/Token/Sealed.antt =====
-- The opportunistic token: an ephemeral public key in front of the IV, the ciphertext and the MAC.
use reticulum_forwarding_ser.Base.{
  ◌+◌, ◌-◌, ◌%◌, ◌≤◌, ◌≡◌, refl, true, false, ltb, ◌==◌, sym, ap, ◌∙◌, ◌++◌, length, length-append,
  length-drop, take, drop, take-append, drop-append, drop-skip, some, ok, arith,
}
use reticulum_forwarding_ser.Base.Bytes.{Bytes, ◌=ᵇ◌, beq_iff}
use reticulum_forwarding_ser.Rns.Crypto.{Crypto, IsSound}
use reticulum_forwarding_ser.Rns.Identity.{Identity, IsKeyPair, identity_hash, length-identity_hash}
use reticulum_forwarding_ser.Rns.Token.{aes_cbc_decrypt, token_encrypt, token_decrypt}
use reticulum_forwarding_ser.Rns.Token.Link.{
  blocks, length-blocks, cbc_encrypt-ok, cbc_decrypt-ok, mac_slice, body_slice,
}

-- token_decrypt on a wire form whose slices are known and whose MAC is right.
decrypt_slices :
    (c : Crypto) (id : Identity) (w e iv mac x shared keys : Bytes)
    → 96 ≤ length w
    → (length w - 80) % 16 ≡ 0
    → take 32 w ≡ e
    → take 16 (drop 32 w) ≡ iv
    → drop (length w - 32) w ≡ mac
    → take (length w - 32 - 48) (drop 48 w) ≡ x
    → c.x25519 id.x25519_priv e ≡ some shared
    → c.hkdf_64 shared (identity_hash c id) ≡ some keys
    → mac ≡ c.hmac_sha256 (take 32 keys) (iv ++ x)
    → token_decrypt c (some id) w ≡ aes_cbc_decrypt c (drop 32 keys) iv x
unfolding token_decrypt
decrypt_slices c id w e iv mac x shared keys long aligned he hi hm hx hs hk ok_mac =
    let same : (mac =ᵇ c.hmac_sha256 (take 32 keys) (iv ++ x)) ≡ true = (beq_iff _ _).1 ok_mac in
    let fits : ltb (length w) 96 ≡ false = ground arith in
    let even : ((length w - 80) % 16 == 0) ≡ true = ground arith in
    rw (he, hi, hm, hx, hs, hk, fits, even, same) refl

module _ (c : Crypto) (s : IsSound c) (id : Identity) (k : IsKeyPair c id)
    (eph iv eph_pub shared keys m : Bytes) (hi : length iv ≡ 16)
    (he : c.x25519 eph c.x25519_base ≡ some eph_pub) (hs : c.x25519 eph id.x25519_pub ≡ some shared)
    (hk : c.hkdf_64 shared (identity_hash c id) ≡ some keys) where
  abbrev signing : Bytes
  signing = take 32 keys

  abbrev encryption : Bytes
  encryption = drop 32 keys

  abbrev x : Bytes
  x = blocks c s encryption iv m

  abbrev mac : Bytes
  mac = c.hmac_sha256 signing (iv ++ x)

  length-encryption : length encryption ≡ 32
  length-encryption =
      omega (arith, length-drop 32 keys, s.length-hkdf shared (identity_hash c id) hk)

  length-eph_pub : length eph_pub ≡ 32
  length-eph_pub = s.length-x25519 eph c.x25519_base he

  -- The recipient computes the sender's shared secret.
  agreed : c.x25519 id.x25519_priv eph_pub ≡ some shared
  agreed = sym (s.x25519_agree eph id.x25519_priv he k.x25519_pair) ∙ hs

  encrypt-ok :
      token_encrypt c (some eph) (some iv) m id.x25519_pub (identity_hash c id)
      ≡ ok (eph_pub ++ (iv ++ (x ++ mac)))
  unfolding token_encrypt
  encrypt-ok = ground (
    arith,
    s.length-x25519 id.x25519_priv c.x25519_base k.x25519_pair,
    length-identity_hash c s id k,
    cbc_encrypt-ok c s encryption iv m length-encryption,
  )

  decrypt-ok : token_decrypt c (some id) (eph_pub ++ (iv ++ (x ++ mac))) ≡ ok m
  unfolding token_decrypt
  decrypt-ok =
      let tail : Bytes = iv ++ (x ++ mac) in
      let hm = s.length-hmac signing (iv ++ x) in
      let ln : length tail ≡ 48 + length x =
        omega (arith, length-append iv (x ++ mac), length-append x mac) in
      let lw : length (eph_pub ++ tail) ≡ 32 + length tail =
        omega (arith, length-append eph_pub tail, length-eph_pub) in
      let mac_at : drop (length (eph_pub ++ tail) - 32) (eph_pub ++ tail) ≡ mac =
        ap (λ t. drop t (eph_pub ++ tail)) (omega (arith, lw, ln))
        ∙ drop-skip 32 (length tail - 32) eph_pub tail length-eph_pub
        ∙ mac_slice iv x mac hm in
      let body_at : take (length (eph_pub ++ tail) - 32 - 48) (drop 48 (eph_pub ++ tail)) ≡ x =
        ap (λ t. take t (drop 48 (eph_pub ++ tail))) (omega (arith, lw, ln))
        ∙ ap (take (length tail - 32 - 16)) (drop-skip 32 16 eph_pub tail length-eph_pub)
        ∙ body_slice iv x mac hi hm in
      let lx = length-blocks c s encryption iv m in
      decrypt_slices c id (eph_pub ++ tail) eph_pub iv mac x shared keys (omega (arith, lw, ln, lx))
        (omega (arith, lw, ln, lx)) (take-append 32 eph_pub tail length-eph_pub)
        (rw (drop-append 32 eph_pub tail length-eph_pub) (take-append 16 iv (x ++ mac) hi)) mac_at
        body_at agreed hk refl
      ∙ cbc_decrypt-ok c s encryption iv m length-encryption

  -- What is encrypted for the public key and identity hash of a key pair is decrypted by that
  -- identity, if the curve and the key derivation report no error for the ephemeral key.
  pub token_decrypt-encrypt :
      (wire : Bytes) × (token_encrypt c (some eph) (some iv) m id.x25519_pub (identity_hash c id)
        ≡ ok wire)
      × (token_decrypt c (some id) wire ≡ ok m)
  token_decrypt-encrypt = (_, encrypt-ok, decrypt-ok)
