-- ===== src/Base/Bits.antt =====
-- The mask of `k` low ones is the remainder by `2 ^ k`.
use Prim.Native.Nat.{
  ℕ, zero, suc, ◌+◌, ◌-◌, ◌*◌, ◌/◌, ◌%◌, ◌^◌, ◌≤◌, ◌<◌, min, bit_and, digits, bit_and-bitwise,
}
use mathlib.Core.Path.{◌≡◌, ap, ◌∙◌}
use native.Mathlib.Nat.{pow-suc, one-le-pow}
use native.Mathlib.Omega.{arith}

-- A number of `suc k` digits, halved.
shift_out : (q k : ℕ) → q * 2 ^ suc k ≡ 2 * (q * 2 ^ k)
shift_out q k = omega (arith, ap (λ (p : ℕ). q * p) (pow-suc 2 k))

-- With fuel for the digits of `a`, its digits under the mask are the low part of `a`.
mask_digits :
    (fuel k q r a : ℕ)
    → a ≡ q * 2 ^ k + r
    → a ≤ fuel
    → r < 2 ^ k
    → digits (λ b. zero) min fuel a (2 ^ k - 1) ≡ r
mask_digits zero k q r zero e enough low = omega arith
mask_digits (suc fuel) k q r zero e enough low = omega arith
mask_digits zero k q r (suc a) e enough low = absurd (omega arith)
mask_digits (suc fuel) zero q r (suc a) e enough low =
    ground (arith, mask_digits fuel zero (suc a / 2) 0 (suc a / 2))
mask_digits (suc fuel) (suc k) q r (suc a) e enough low =
    ground
      (arith, shift_out q k, pow-suc 2 k, one-le-pow k 2, mask_digits fuel k q (r / 2) (suc a / 2))

pub bit_and_mask : (k a : ℕ) → bit_and a (2 ^ k - 1) ≡ a % 2 ^ k
bit_and_mask k a =
    bit_and-bitwise a (2 ^ k - 1)
    ∙ mask_digits a k (a / 2 ^ k) (a % 2 ^ k) a (grind arith) (omega arith)
        (omega (arith, one-le-pow k 2))
