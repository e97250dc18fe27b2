-- ===== src/Rns/Token/Padding.antt =====
-- PKCS#7 padding to blocks of 16 bytes and its removal are inverse to one another.
use reticulum_forwarding_ser.Base.{
  ℕ, zero, suc, ◌+◌, ◌-◌, ◌%◌, ◌≤◌, ◌≡◌, refl, ap, ◌∙◌, true, [], ◌∷◌, ◌++◌, length, length-append,
  length-replicate, length-take, length-drop, drop, take-append, drop-append, take-append-drop,
  get_or, get_or-skip, replicate, ok, arith,
}
use reticulum_forwarding_ser.Base.Bytes.{Bytes}
use reticulum_forwarding_ser.Rns.Token.{all_are, pkcs7_pad, pkcs7_unpad}

all_are-replicate : (n k : ℕ) → all_are k (replicate n k) ≡ true
all_are-replicate zero k = refl
all_are-replicate (suc n) k = ground (arith, all_are-replicate n k)

replicate-all_are : (k : ℕ) (m : Bytes) → all_are k m ≡ true → m ≡ replicate (length m) k
replicate-all_are k [] h = refl
replicate-all_are k (b ∷ m) h = ground (arith, replicate-all_are k m)

last_of_replicate : (n k : ℕ) → get_or (replicate (suc n) k) n 0 ≡ k
last_of_replicate zero k = refl
last_of_replicate (suc n) k = last_of_replicate n k

-- The padding added to m.
abbrev pad_len : Bytes → ℕ
pad_len m = 16 - length m % 16

last_of_pad : (m : Bytes) (k : ℕ) → get_or (m ++ replicate (suc k) (suc k)) (length m + k) 0 ≡ suc k
last_of_pad m k = get_or-skip (length m) k m _ 0 refl ∙ last_of_replicate k (suc k)

pub length-pkcs7_pad : (m : Bytes) → length (pkcs7_pad m 16) ≡ length m + (16 - length m % 16)
unfolding pkcs7_pad
length-pkcs7_pad m = length-append m _ ∙ ap (λ t. length m + t) (length-replicate (pad_len m) _)

unpad-append :
    (m : Bytes) (k : ℕ)
    → suc k ≤ 16
    → (length m + suc k) % 16 ≡ 0
    → pkcs7_unpad (m ++ replicate (suc k) (suc k)) 16 ≡ ok m
unfolding pkcs7_unpad
unpad-append m k hk hm = ground (
  arith,
  length-append m (replicate (suc k) (suc k)),
  length-replicate (suc k) (suc k),
  last_of_pad m k,
  drop-append (length m) m (replicate (suc k) (suc k)) refl,
  take-append (length m) m (replicate (suc k) (suc k)) refl,
  all_are-replicate (suc k) (suc k),
)

-- Removing the padding gives back any message.
pub pkcs7_unpad-pkcs7_pad : (m : Bytes) → pkcs7_unpad (pkcs7_pad m 16) 16 ≡ ok m
unfolding pkcs7_pad
pkcs7_unpad-pkcs7_pad m =
    let e : pad_len m ≡ suc (15 - length m % 16) = omega arith in
    let small : pad_len m % 256 ≡ pad_len m = omega arith in
    rw (small, e) (unpad-append m (15 - length m % 16) (omega arith) (omega arith))

-- Only padded messages are accepted: the message that comes out, padded again, is the input.
pub pkcs7_pad-pkcs7_unpad : (p m : Bytes) → pkcs7_unpad p 16 ≡ ok m → pkcs7_pad m 16 ≡ p
unfolding pkcs7_unpad pkcs7_pad
pkcs7_pad-pkcs7_unpad p m h =
    let n = length p in
    let k = get_or p (n - 1) 0 in
    ground (
      arith,
      length-take (n - k) p,
      length-drop (n - k) p,
      take-append-drop (n - k) p,
      replicate-all_are k (drop (n - k) p),
    )
