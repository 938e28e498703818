-- ===== src/Base/Int.antt =====
-- Signed integers (`i64`) over the native numbers. Signed overflow has no defined result in C, and
-- the counts here would need 2 ^ 63 operations to reach it, so the type is unbounded; where a sum
-- can leave the 64 bits at once, it is converted to them, as the machine does.
use Prim.Native.Nat.{ℕ, suc, ◌+◌, ◌-◌, ◌%◌, ◌^◌, ◌≤◌, ◌<◌}
use mathlib.Core.Path.{◌≡◌, ap, ◌∙◌}
use mathlib.Core.Bool.{Bool, true, false, ◌&&◌}
use native.Mathlib.Omega.{arith}
use etcp.Base.Tests.{ltb, leb, if◌then◌else◌}

-- `negsuc n` is -(n + 1).
pub data ℤ : Type 0 where
  pos : ℕ → ℤ
  negsuc : ℕ → ℤ

abbrev pub pos_part : ℤ → ℕ
pos_part (pos n) = n
pos_part (negsuc n) = 0

abbrev pub neg_part : ℤ → ℕ
neg_part (pos n) = 0
neg_part (negsuc n) = suc n

-- a - b, as an integer.
abbrev pub sub_ℕ : ℕ → ℕ → ℤ
sub_ℕ a b = if leb b a then pos (a - b) else negsuc (b - a - 1)

infixl 65 ◌+ℤ◌ ◌-ℤ◌
infix 50 ◌≤ℤ◌
unfoldable pub ◌+ℤ◌ : ℤ → ℤ → ℤ
a +ℤ b = sub_ℕ (pos_part a + pos_part b) (neg_part a + neg_part b)

unfoldable pub ◌-ℤ◌ : ℤ → ℤ → ℤ
a -ℤ b = sub_ℕ (pos_part a + neg_part b) (neg_part a + pos_part b)

abbrev pub ◌≤ℤ◌ : ℤ → ℤ → Type 0
a ≤ℤ b = pos_part a + neg_part b ≤ pos_part b + neg_part a

abbrev pub ltb_ℤ : ℤ → ℤ → Bool
ltb_ℤ a b = ltb (pos_part a + neg_part b) (pos_part b + neg_part a)

abbrev pub leb_ℤ : ℤ → ℤ → Bool
leb_ℤ a b = leb (pos_part a + neg_part b) (pos_part b + neg_part a)

pub +ℤ_parts :
    (a b : ℤ)
    → pos_part (a +ℤ b) + neg_part a + neg_part b ≡ neg_part (a +ℤ b) + pos_part a + pos_part b
unfolding ◌+ℤ◌
+ℤ_parts a b = ground arith

-- A number that is not negative is not 0 once it is one more.
pub more-than-none :
    (a : ℤ)
    → leb_ℤ (pos 0) a ≡ true
    → leb_ℤ (a +ℤ pos 1) (pos 0) && leb_ℤ (pos 0) (a +ℤ pos 1) ≡ false
more-than-none a h = ground (arith, +ℤ_parts a (pos 1))

pub -ℤ_parts :
    (a b : ℤ)
    → pos_part (a -ℤ b) + neg_part a + pos_part b ≡ neg_part (a -ℤ b) + pos_part a + neg_part b
unfolding ◌-ℤ◌
-ℤ_parts a b = ground arith

-- The conversion of a word of 64 bits, and of 16, to a signed integer.
abbrev residue : ℕ → ℤ → ℕ
residue size (pos n) = n % size
residue size (negsuc n) = size - 1 - n % size

abbrev pub int_64 : ℤ → ℤ
int_64 a =
    let low = residue (2 ^ 64) a in if ltb low (2 ^ 63) then pos low else negsuc (2 ^ 64 - 1 - low)

abbrev pub int_16 : ℤ → ℤ
int_16 a =
    let low = residue (2 ^ 16) a in if ltb low (2 ^ 15) then pos low else negsuc (2 ^ 16 - 1 - low)

int_64-small : (n : ℕ) → n < 2 ^ 63 → int_64 (pos n) ≡ pos n
int_64-small n less = ground arith

pub eq_of_parts : (a b : ℤ) → pos_part a + neg_part b ≡ pos_part b + neg_part a → a ≡ b
eq_of_parts a b h = ground arith

-- A sum that 64 bits hold.
pub int_64-sum :
    (a : ℕ) (m : ℤ)
    → pos 1 ≤ℤ m
    → a + pos_part m < 2 ^ 63
    → int_64 (pos a +ℤ m) ≡ pos (a + pos_part m)
int_64-sum a m some_slots less =
    ap int_64 (eq_of_parts (pos a +ℤ m) (pos (a + pos_part m)) (ground (arith, +ℤ_parts (pos a) m)))
    ∙ int_64-small (a + pos_part m) less
