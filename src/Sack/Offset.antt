-- ===== src/Sack/Offset.antt =====
-- The offset of a number from the number that a connection expects: src/etcp.c.
use etcp.Base.{ℕ, ◌-◌, ◌%◌, ◌^◌, ◌≤◌, ◌<◌, ◌≡◌, pos, ◌-ℤ◌, arith, -ℤ_parts, eq_of_parts}

pub sub_pos : (n a : ℕ) → a ≤ n → pos n -ℤ pos a ≡ pos (n - a)
sub_pos n a le =
    eq_of_parts (pos n -ℤ pos a) (pos (n - a)) (omega (arith, -ℤ_parts (pos n) (pos a)))

pub small : (x : ℕ) → x < 2 ^ 32 → x % 2 ^ 32 ≡ x
small x less = omega arith
