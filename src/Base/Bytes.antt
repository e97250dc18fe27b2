-- ===== src/Base/Bytes.antt =====
-- Byte slices and strings (Go's strings are byte sequences), with the equality the code uses, and
-- encoding/hex's EncodeToString.
use Prim.Native.Nat.{ℕ, ◌+◌, ◌/◌, ◌%◌, ◌<◌}
use mathlib.Core.Path.{◌≡◌, refl, ap, sym, ◌∙◌}
use mathlib.Core.Logic.{◌↔◌}
use mathlib.Core.Bool.{Bool, true, false, ◌&&◌}
use mathlib.Core.List.{List, [], ◌∷◌}
use native.Mathlib.Omega.{arith}
use reticulum_forwarding_ser.Base.Tests.{◌==◌, ltb, leb, if◌then◌else◌}
use reticulum_forwarding_ser.Base.Lists.{All, length, take}

-- A []byte or a string; each element is below 256.
abbrev pub Bytes : Type 0
Bytes = List ℕ

abbrev pub IsByte : ℕ → Type 0
IsByte b = b < 256

infix 50 ◌=ᵇ◌
unfoldable pub ◌=ᵇ◌ : Bytes → Bytes → Bool
[] =ᵇ [] = true
[] =ᵇ (y ∷ ys) = false
(x ∷ xs) =ᵇ [] = false
(x ∷ xs) =ᵇ (y ∷ ys) = x == y && xs =ᵇ ys

beq→eq : (a b : Bytes) → (a =ᵇ b) ≡ true → a ≡ b
unfolding ◌=ᵇ◌
beq→eq [] [] h = refl
beq→eq [] (y ∷ ys) h = cc
beq→eq (x ∷ xs) [] h = cc
beq→eq (x ∷ xs) (y ∷ ys) h = ground (arith, beq→eq xs ys)

pub beq_refl : (a : Bytes) → (a =ᵇ a) ≡ true
unfolding ◌=ᵇ◌
beq_refl [] = refl
beq_refl (x ∷ xs) = ground (arith, beq_refl xs)

pub beq_iff : (a b : Bytes) → ((a =ᵇ b) ≡ true) ↔ (a ≡ b)
beq_iff a b = (beq→eq a b, λ e. ap (λ t. a =ᵇ t) (sym e) ∙ beq_refl a)

-- strings.HasPrefix
unfoldable pub has_prefix : Bytes → Bytes → Bool
has_prefix k prefix = leb (length prefix) (length k) && take (length prefix) k =ᵇ prefix

-- One digit of lower-case hexadecimal.
unfoldable pub hex_digit : ℕ → ℕ
hex_digit n = if ltb n 10 then n + 48 else n + 87

-- hex.EncodeToString
unfoldable pub hex_encode : Bytes → Bytes
hex_encode [] = []
hex_encode (b ∷ bs) = hex_digit (b / 16) ∷ hex_digit (b % 16) ∷ hex_encode bs

pub hex_digit-injective : (m n : ℕ) → m < 16 → n < 16 → hex_digit m ≡ hex_digit n → m ≡ n
unfolding hex_digit
hex_digit-injective m n hm hn e = ground arith

-- Distinct byte slices have distinct hex texts.
pub hex_encode-injective :
    (a b : Bytes) → All IsByte a → All IsByte b → hex_encode a ≡ hex_encode b → a ≡ b
unfolding hex_encode
hex_encode-injective [] [] ha hb e = refl
hex_encode-injective [] (y ∷ ys) ha hb e = cc
hex_encode-injective (x ∷ xs) [] ha hb e = cc
hex_encode-injective (x ∷ xs) (y ∷ ys) (hx, hxs) (hy, hys) e = ground (
  arith,
  hex_digit-injective (x / 16) (y / 16),
  hex_digit-injective (x % 16) (y % 16),
  hex_encode-injective xs ys hxs hys,
)
