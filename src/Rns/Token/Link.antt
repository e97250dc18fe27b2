-- ===== src/Rns/Token/Link.antt =====
-- Tokens come back, and nothing but a token with the right MAC is decrypted.
use mathlib.Core.List.{append_assoc}
use reticulum_forwarding_ser.Base.{
  ◌+◌, ◌-◌, ◌%◌, ◌≤◌, ◌≡◌, ◌≢◌, refl, ◌∙◌, ◌++◌, length, length-append, length-take, length-drop,
  take, drop, take-append, drop-append, drop-drop, take-append-drop, Option, none, some, ok, err,
  arith,
}
use reticulum_forwarding_ser.Base.Bytes.{Bytes, beq_iff, beq_refl}
use reticulum_forwarding_ser.Rns.Crypto.{Crypto, IsSound}
use reticulum_forwarding_ser.Rns.Token.{
  hmac_mismatch, aes_cbc_encrypt, aes_cbc_decrypt, link_token_encrypt, link_token_decrypt,
  pkcs7_pad,
}
use reticulum_forwarding_ser.Rns.Token.Padding.{pkcs7_unpad-pkcs7_pad, length-pkcs7_pad}

-- The two slices that the decryption takes out of IV, ciphertext and MAC.
pub mac_slice :
    (iv x mac : Bytes)
    → length mac ≡ 32
    → drop (length (iv ++ (x ++ mac)) - 32) (iv ++ (x ++ mac)) ≡ mac
mac_slice iv x mac h =
    let e : length (iv ++ (x ++ mac)) - 32 ≡ length (iv ++ x) =
      omega (arith, length-append iv (x ++ mac), length-append x mac, length-append iv x) in
    rw (e, ← append_assoc iv x mac) (drop-append _ (iv ++ x) mac refl)

pub body_slice :
    (iv x mac : Bytes)
    → length iv ≡ 16
    → length mac ≡ 32
    → take (length (iv ++ (x ++ mac)) - 32 - 16) (drop 16 (iv ++ (x ++ mac))) ≡ x
body_slice iv x mac hi hm =
    let e : length (iv ++ (x ++ mac)) - 32 - 16 ≡ length x =
      omega (arith, length-append iv (x ++ mac), length-append x mac) in
    rw (e, drop-append 16 iv (x ++ mac) hi) (take-append _ x mac refl)

module _ (c : Crypto) (s : IsSound c) where
  -- The ciphertext of a message, and what the block cipher does with it under a 32-byte key.
  abbrev pub blocks : Bytes → Bytes → Bytes → Bytes
  blocks key iv m = c.cbc_encrypt key iv (pkcs7_pad m 16)

  pub length-blocks :
      (key iv m : Bytes) → length (blocks key iv m) ≡ length m + (16 - length m % 16)
  length-blocks key iv m = s.length-cbc key iv (pkcs7_pad m 16) ∙ length-pkcs7_pad m

  pub cbc_encrypt-ok :
      (key iv m : Bytes) → length key ≡ 32 → aes_cbc_encrypt c key iv m ≡ ok (blocks key iv m)
  unfolding aes_cbc_encrypt
  cbc_encrypt-ok key iv m h = ground arith

  pub cbc_decrypt-ok :
      (key iv m : Bytes) → length key ≡ 32 → aes_cbc_decrypt c key iv (blocks key iv m) ≡ ok m
  unfolding aes_cbc_decrypt
  cbc_decrypt-ok key iv m h = ground (
    arith,
    s.cbc_inverse key iv (pkcs7_pad m 16) (rw length-pkcs7_pad (omega arith)),
    pkcs7_unpad-pkcs7_pad m,
  )

  module _ (m signing encryption iv : Bytes) (hs : length signing ≡ 32)
      (he : length encryption ≡ 32) (hi : length iv ≡ 16) where
    abbrev sealed : Bytes
    sealed = let x = blocks encryption iv m in iv ++ (x ++ c.hmac_sha256 signing (iv ++ x))

    link_encrypt-ok : link_token_encrypt c (some iv) m signing encryption ≡ ok sealed
    unfolding link_token_encrypt
    link_encrypt-ok = ground (arith, cbc_encrypt-ok encryption iv m he)

    length-sealed : length sealed ≡ 48 + (length m + (16 - length m % 16))
    length-sealed =
        let x = blocks encryption iv m in
        omega (
          arith,
          length-append iv (x ++ c.hmac_sha256 signing (iv ++ x)),
          length-append x (c.hmac_sha256 signing (iv ++ x)),
          length-blocks encryption iv m,
          s.length-hmac signing (iv ++ x),
        )

    link_decrypt-ok : link_token_decrypt c sealed signing encryption ≡ ok m
    unfolding link_token_decrypt
    link_decrypt-ok =
        let x = blocks encryption iv m in
        let mac = c.hmac_sha256 signing (iv ++ x) in
        let hm = s.length-hmac signing (iv ++ x) in
        ground (
          arith,
          length-sealed,
          mac_slice iv x mac hm,
          body_slice iv x mac hi hm,
          take-append 16 iv (x ++ mac) hi,
          beq_refl mac,
          cbc_decrypt-ok encryption iv m he,
        )

    -- With keys of 32 bytes and an IV of 16, a message is encrypted to a link token, and the
    -- token is decrypted to the message.
    pub link_token_decrypt-encrypt :
        (wire : Bytes) × (link_token_encrypt c (some iv) m signing encryption ≡ ok wire)
        × (link_token_decrypt c wire signing encryption ≡ ok m)
    link_token_decrypt-encrypt = (sealed, link_encrypt-ok, link_decrypt-ok)

-- A link token whose last 32 bytes are not the MAC of what stands before them is not decrypted:
-- whenever decryption succeeds, the token is an IV, a ciphertext and their MAC under the signing
-- key, and the message is the decrypted ciphertext.
pub link_token_decrypt-authentic :
    (c : Crypto) (wire signing encryption m : Bytes)
    → link_token_decrypt c wire signing encryption ≡ ok m
    → (iv : Bytes) × (x : Bytes) × (wire ≡ iv ++ (x ++ c.hmac_sha256 signing (iv ++ x)))
      × (length iv ≡ 16)
      × (length x % 16 ≡ 0)
      × (aes_cbc_decrypt c encryption iv x ≡ ok m)
unfolding link_token_decrypt
link_token_decrypt-authentic c wire signing encryption m h =
    let n = length wire in
    let iv = take 16 wire in
    let rest = drop 16 wire in
    let x = take (n - 32 - 16) rest in
    let mac = drop (n - 32) wire in
    let lr = length-drop 16 wire in
    let li = length-take 16 wire in
    let lx = length-take (n - 32 - 16) rest in
    let seam : 48 ≤ n → 16 + (n - 32 - 16) ≡ n - 32 = λ b. omega arith in
    let split = drop-drop 16 (n - 32 - 16) wire in
    (
      iv,
      x,
      ground (
        arith,
        take-append-drop 16 wire,
        take-append-drop (n - 32 - 16) rest,
        split,
        seam,
        beq_iff mac (c.hmac_sha256 signing (iv ++ x)),
      ),
      ground (arith, li),
      ground (arith, lx, lr),
      ground arith,
    )

-- With keys of 32 bytes, an IV of 16 and a block-aligned ciphertext that is not empty, a wrong MAC
-- of 32 bytes is reported as the HMAC mismatch, whatever the ciphertext would decrypt to.
pub link_token_decrypt_forged :
    (c : Crypto) (iv x mac signing encryption : Bytes)
    → length signing ≡ 32
    → length encryption ≡ 32
    → length iv ≡ 16
    → length mac ≡ 32
    → 16 ≤ length x
    → length x % 16 ≡ 0
    → mac ≢ c.hmac_sha256 signing (iv ++ x)
    → link_token_decrypt c (iv ++ (x ++ mac)) signing encryption ≡ err hmac_mismatch
unfolding link_token_decrypt
link_token_decrypt_forged c iv x mac signing encryption hs he hi hm hx ha ne = ground (
  arith,
  length-append iv (x ++ mac),
  length-append x mac,
  mac_slice iv x mac hm,
  body_slice iv x mac hi hm,
  take-append 16 iv (x ++ mac) hi,
  beq_iff mac (c.hmac_sha256 signing (iv ++ x)),
)

-- Under any key pair, whatever LinkTokenEncrypt produces is decrypted to the message by the holder
-- of the same keys.
pub link_token_decrypt-encrypted :
    (c : Crypto)
    → IsSound c
    → (entropy : Option Bytes) (m signing encryption wire : Bytes)
    → link_token_encrypt c entropy m signing encryption ≡ ok wire
    → link_token_decrypt c wire signing encryption ≡ ok m
unfolding link_token_encrypt
link_token_decrypt-encrypted c s none m signing encryption wire h = absurd (ground arith)
link_token_decrypt-encrypted c s (some iv) m signing encryption wire h =
    let hs : length signing ≡ 32 = ground arith in
    let he : length encryption ≡ 32 = ground arith in
    let hi : length iv ≡ 16 = ground arith in
    let (w, enc, dec) = link_token_decrypt-encrypt c s m signing encryption iv hs he hi in
    let same : w ≡ wire = ground (arith, enc) in rw (← same) dec
