-- ===== src/SelfTest.antt =====
-- The program's own tests of its containers: src/CircularQueueTest.c, src/LinkedListTest.c and
-- src/HashTableTest.c. A test is a function, and one that stops at a failed assertion has no result.
-- Memory is found; an assertion that only assigns is left out.
pub mod Queue
pub mod Chain
pub mod Table
use etcp.Base.{
  ℕ, zero, suc, Bool, true, false, Option, none, some, ltb, ◌==◌, ◌&&◌, ◌+◌, if◌then◌else◌, Bytes,
}

-- `CQ_ASSERT`, `LL_ASSERT` and `HT_ASSERT`, before what follows.
abbrev pub asserting {ℓ} : {A : Type ℓ} → Bool → Option A → Option A
asserting holds rest = if holds then rest else none

-- The outcome of a test.
abbrev pub passes {ℓ} : {A : Type ℓ} → Option A → Bool
passes none = false
passes (some a) = true

-- `memcmp(a, b, n) == 0`.
abbrev pub same_bytes : ℕ → Bytes → Bytes → Bool
same_bytes zero a b = true
same_bytes (suc n) a b = (a n == b n) && same_bytes n a b

-- `"123456"`, and a buffer of zero bytes.
abbrev pub data_bytes : Bytes
data_bytes i = if ltb i 6 then 49 + i else 0

abbrev pub no_data : Bytes
no_data i = 0
