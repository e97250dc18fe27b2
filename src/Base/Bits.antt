-- ===== src/Base/Bits.antt =====
-- Masks and joins of a byte as arithmetic, each from a table that is checked by evaluation.
use Prim.Native.Nat.{ℕ, zero, suc, ◌*◌, ◌/◌, ◌%◌, ◌<◌, bit_and, bit_or}
use mathlib.Core.Path.{◌≡◌, refl}
use mathlib.Core.Bool.{Bool, true, ◌&&◌}
use native.Mathlib.Omega.{arith}
use reticulum_forwarding_ser.Base.Tests.{◌==◌, ==_iff}

all_below : ℕ → (ℕ → Bool) → Bool
all_below zero p = true
all_below (suc n) p = p n && all_below n p

all_below-true : (n : ℕ) (p : ℕ → Bool) (x : ℕ) → all_below n p ≡ true → x < n → p x ≡ true
unfolding all_below
all_below-true zero p x h lt = absurd (omega arith)
all_below-true (suc n) p x h lt = ground (arith, all_below-true n p x)

mask_1_table : all_below 256 (λ x. bit_and x 0x01 == x % 2) ≡ true
unfolding all_below
mask_1_table = refl

pub mask_1 : (x : ℕ) → x < 256 → bit_and x 0x01 ≡ x % 2
mask_1 x h = (==_iff _ _).0 (all_below-true 256 _ x mask_1_table h)

mask_3_table : all_below 256 (λ x. bit_and x 0x03 == x % 4) ≡ true
unfolding all_below
mask_3_table = refl

pub mask_3 : (x : ℕ) → x < 256 → bit_and x 0x03 ≡ x % 4
mask_3 x h = (==_iff _ _).0 (all_below-true 256 _ x mask_3_table h)

mask_15_table : all_below 256 (λ x. bit_and x 0x0f == x % 16) ≡ true
unfolding all_below
mask_15_table = refl

pub mask_15 : (x : ℕ) → x < 256 → bit_and x 0x0f ≡ x % 16
mask_15 x h = (==_iff _ _).0 (all_below-true 256 _ x mask_15_table h)

-- Joining five fields of a flags byte that stand in disjoint bits: n lists all their values.
join_table :
    all_below 128 (λ n.
      bit_or
        (bit_or
          (bit_or (bit_or (bit_or 0 (n / 64 * 64)) (n / 32 % 2 * 32)) (n / 16 % 2 * 16))
          (n / 4 % 4 * 4))
        (n % 4)
      == n)
    ≡ true
unfolding all_below
join_table = refl

pub join_bits :
    (n : ℕ)
    → n < 128
    → bit_or
        (bit_or
          (bit_or (bit_or (bit_or 0 (n / 64 * 64)) (n / 32 % 2 * 32)) (n / 16 % 2 * 16))
          (n / 4 % 4 * 4))
        (n % 4)
      ≡ n
join_bits n h = (==_iff _ _).0 (all_below-true 128 _ n join_table h)
