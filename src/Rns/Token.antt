-- ===== src/Rns/Token.antt =====
-- internal/rns/token.go and link_token.go: encrypt-then-MAC tokens with PKCS#7 padding. Entropy
-- is an argument; `none` stands for a failed rand.Read.
pub mod Padding
pub mod Link
pub mod Sealed
mod Examples
use reticulum_forwarding_ser.Base.{
  or_fail, ◌>>=◌, ◌>>◌, ℕ, ◌+◌, ◌-◌, ◌%◌, Bool, true, not, ◌&&◌, ◌||◌, [], ◌∷◌, ◌++◌, ◌==◌, ltb,
  if◌then◌else◌, length, take, drop, get_or, replicate, Option, none, some, Result, ok, err,
  fail_if,
}
use reticulum_forwarding_ser.Base.Bytes.{Bytes, ◌=ᵇ◌}
use reticulum_forwarding_ser.Rns.Crypto.{Crypto}
use reticulum_forwarding_ser.Rns.Identity.{Identity, identity_hash}

abbrev pub token_eph_pub_len : ℕ
token_eph_pub_len = 32

abbrev pub token_iv_len : ℕ
token_iv_len = 16

abbrev pub token_hmac_len : ℕ
token_hmac_len = 32

abbrev pub token_overhead : ℕ
token_overhead = token_eph_pub_len + token_iv_len + token_hmac_len

abbrev pub link_token_overhead : ℕ
link_token_overhead = token_iv_len + token_hmac_len

abbrev pub aes_block_size : ℕ
aes_block_size = 16

pub data Error : Type 0 where
  recipient_pub_len identity_hash_length entropy_failed derive_public key_exchange key_derivation :
      Error
  nil_identity signing_key_len encryption_key_len iv_len aes_key_len too_short not_aligned : Error
  hmac_mismatch bad_padded_length bad_padding_length bad_padding_bytes : Error

unfoldable pub pkcs7_pad : Bytes → ℕ → Bytes
pkcs7_pad m block_size =
    let pad_len = block_size - length m % block_size in m ++ replicate pad_len (pad_len % 256)

-- The loop over the padding bytes.
abbrev all_are : ℕ → Bytes → Bool
all_are k [] = true
all_are k (b ∷ bs) = b == k && all_are k bs

pub pkcs7_unpad : Bytes → ℕ → Result Error Bytes
pkcs7_unpad m block_size =
    let n = length m in
    let pad_len = get_or m (n - 1) 0 in
    if n == 0 || not (n % block_size == 0)
    then err bad_padded_length
    else if pad_len == 0 || ltb block_size pad_len
    then err bad_padding_length
    else if not (all_are pad_len (drop (n - pad_len) m))
    then err bad_padding_bytes
    else ok (take (n - pad_len) m)

-- The key lengths that aes.NewCipher accepts.
abbrev is_aes_key : Bytes → Bool
is_aes_key key = length key == 16 || length key == 24 || length key == 32

module _ (c : Crypto) where
  unfoldable pub aes_cbc_encrypt : Bytes → Bytes → Bytes → Result Error Bytes
  unfolding pkcs7_pad
  aes_cbc_encrypt key iv plaintext = do
    fail_if (not (is_aes_key key)) aes_key_len
    ok (c.cbc_encrypt key iv (pkcs7_pad plaintext aes_block_size))

  pub aes_cbc_decrypt : Bytes → Bytes → Bytes → Result Error Bytes
  aes_cbc_decrypt key iv ciphertext = do
    fail_if (not (is_aes_key key)) aes_key_len
    pkcs7_unpad (c.cbc_decrypt key iv ciphertext) aes_block_size

  unfoldable pub link_token_encrypt_with_iv : Bytes → Bytes → Bytes → Bytes → Result Error Bytes
  unfolding aes_cbc_encrypt
  link_token_encrypt_with_iv plaintext signing encryption iv = do
    fail_if (not (length iv == token_iv_len)) iv_len
    ciphertext ← aes_cbc_encrypt encryption iv plaintext
    ok (iv ++ (ciphertext ++ c.hmac_sha256 signing (iv ++ ciphertext)))

  unfoldable pub link_token_encrypt : Option Bytes → Bytes → Bytes → Bytes → Result Error Bytes
  unfolding link_token_encrypt_with_iv
  link_token_encrypt entropy plaintext signing encryption = do
    fail_if (not (length signing == 32)) signing_key_len
    fail_if (not (length encryption == 32)) encryption_key_len
    iv ← or_fail entropy entropy_failed
    link_token_encrypt_with_iv plaintext signing encryption iv

  pub link_token_decrypt : Bytes → Bytes → Bytes → Result Error Bytes
  unfolding aes_cbc_decrypt
  link_token_decrypt wire signing encryption =
      let n = length wire in
      let iv = take token_iv_len wire in
      let mac = drop (n - token_hmac_len) wire in
      let ciphertext = take (n - token_hmac_len - token_iv_len) (drop token_iv_len wire) in
      do
        fail_if (not (length signing == 32)) signing_key_len
        fail_if (not (length encryption == 32)) encryption_key_len
        fail_if (ltb n (link_token_overhead + aes_block_size)) too_short
        fail_if (not ((n - link_token_overhead) % aes_block_size == 0)) not_aligned
        fail_if (not (mac =ᵇ c.hmac_sha256 signing (iv ++ ciphertext))) hmac_mismatch
        aes_cbc_decrypt encryption iv ciphertext

  -- (signing_key, encryption_key)
  pub token_derive_keys : Bytes → Bytes → Result Error (Bytes × Bytes)
  token_derive_keys secret salt = do
    derived ← or_fail (c.hkdf_64 secret salt) key_derivation
    ok (take 32 derived, drop 32 derived)

  -- The ephemeral scalar comes from the entropy; the curve function clamps it in any case.
  pub token_encrypt : Option Bytes → Option Bytes → Bytes → Bytes → Bytes → Result Error Bytes
  unfolding token_derive_keys aes_cbc_encrypt
  token_encrypt eph_entropy iv_entropy plaintext recipient_pub recipient_hash = do
    fail_if (not (length recipient_pub == 32)) recipient_pub_len
    fail_if (not (length recipient_hash == 16)) identity_hash_length
    eph_priv ← or_fail eph_entropy entropy_failed
    eph_pub ← or_fail (c.x25519 eph_priv c.x25519_base) derive_public
    shared ← or_fail (c.x25519 eph_priv recipient_pub) key_exchange
    keys ← token_derive_keys shared recipient_hash
    iv ← or_fail iv_entropy entropy_failed
    ciphertext ← aes_cbc_encrypt keys.1 iv plaintext
    ok (eph_pub ++ (iv ++ (ciphertext ++ c.hmac_sha256 keys.0 (iv ++ ciphertext))))

  -- `none` is the nil identity.
  pub token_decrypt : Option Identity → Bytes → Result Error Bytes
  unfolding token_derive_keys aes_cbc_decrypt
  token_decrypt none wire = err nil_identity
  token_decrypt (some id) wire =
      let n = length wire in
      let eph_pub = take token_eph_pub_len wire in
      let iv = take token_iv_len (drop token_eph_pub_len wire) in
      let mac = drop (n - token_hmac_len) wire in
      let ciphertext =
        take (n - token_hmac_len - (token_eph_pub_len + token_iv_len))
          (drop (token_eph_pub_len + token_iv_len) wire) in
      do
        fail_if (ltb n (token_overhead + aes_block_size)) too_short
        fail_if (not ((n - token_overhead) % aes_block_size == 0)) not_aligned
        shared ← or_fail (c.x25519 id.x25519_priv eph_pub) key_exchange
        keys ← token_derive_keys shared (identity_hash c id)
        fail_if (not (mac =ᵇ c.hmac_sha256 keys.0 (iv ++ ciphertext))) hmac_mismatch
        aes_cbc_decrypt keys.1 iv ciphertext
