-- ===== src/Rns/Token/Examples.antt =====
-- Padding and tokens on concrete messages.
use reticulum_forwarding_ser.Base.{◌%◌, ◌≡◌, refl, [], ◌∷◌, ◌++◌, some, ok, length, replicate}
use reticulum_forwarding_ser.Base.Bytes.{Bytes, ◌=ᵇ◌}
use reticulum_forwarding_ser.Rns.Crypto.Toy.{toy, toy-IsSound, zeros}
use reticulum_forwarding_ser.Rns.Identity.{identity_hash}
use reticulum_forwarding_ser.Rns.Identity.Examples.{alice, alice-IsKeyPair}
use reticulum_forwarding_ser.Rns.Token.{
  pkcs7_unpad, aes_cbc_decrypt, link_token_encrypt, link_token_decrypt, token_encrypt,
  token_decrypt,
}
use reticulum_forwarding_ser.Rns.Token.Link.{
  link_token_decrypt-encrypt, link_token_decrypt-authentic,
}
use reticulum_forwarding_ser.Rns.Token.Sealed.{token_decrypt-encrypt}

abbrev message : Bytes
message = 1 ∷ 2 ∷ 3 ∷ []

abbrev padded : Bytes
padded = 1 ∷ 2 ∷ 3 ∷ replicate 13 13

unpadded : pkcs7_unpad padded 16 ≡ ok message
unfolding pkcs7_unpad
unpadded = refl

link_token_decrypt-encrypt_example :
    (wire : Bytes) × (link_token_encrypt toy (some (zeros 16)) message (zeros 32) (zeros 32)
      ≡ ok wire)
    × (link_token_decrypt toy wire (zeros 32) (zeros 32) ≡ ok message)
link_token_decrypt-encrypt_example =
    link_token_decrypt-encrypt toy toy-IsSound message (zeros 32) (zeros 32) (zeros 16) refl refl
      refl

-- The IV, the ciphertext and their MAC: the toy MAC is the first 32 bytes.
abbrev token : Bytes
token = zeros 16 ++ (padded ++ (zeros 16 ++ padded))

decrypted : link_token_decrypt toy token (zeros 32) (zeros 32) ≡ ok message
unfolding link_token_decrypt aes_cbc_decrypt pkcs7_unpad ◌=ᵇ◌
decrypted = refl

link_token_decrypt-authentic_example :
    (iv : Bytes) × (x : Bytes) × (token ≡ iv ++ (x ++ toy.hmac_sha256 (zeros 32) (iv ++ x)))
    × (length iv ≡ 16)
    × (length x % 16 ≡ 0)
    × (aes_cbc_decrypt toy (zeros 32) iv x ≡ ok message)
link_token_decrypt-authentic_example =
    link_token_decrypt-authentic toy token (zeros 32) (zeros 32) message decrypted

token_decrypt-encrypt_example :
    (wire : Bytes) × (token_encrypt toy
        (some (zeros 32))
        (some (zeros 16))
        message
        (zeros 32)
        (identity_hash toy alice)
      ≡ ok wire)
    × (token_decrypt toy (some alice) wire ≡ ok message)
token_decrypt-encrypt_example =
    token_decrypt-encrypt toy toy-IsSound alice alice-IsKeyPair (zeros 32) (zeros 16) (zeros 32)
      (zeros 32) (zeros 64) message refl refl refl refl
