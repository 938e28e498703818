-- ===== src/Base/Memory.antt =====
-- An array as a function from its index, and raw memory as a function from the offset to the byte.
use Prim.Native.Nat.{ℕ}
use mathlib.Core.Path.{◌≡◌, fun_ext}
use native.Mathlib.Omega.{arith}
use etcp.Base.Tests.{ltb, ◌==◌, if◌then◌else◌}

abbrev pub update {ℓ} : {A : Type ℓ} → (ℕ → A) → ℕ → A → ℕ → A
update f i v j = if j == i then v else f j

-- The bytes from a pointer on.
abbrev pub Bytes : Type 0
Bytes = ℕ → ℕ

-- `memcpy(dst, src, n)`.
abbrev pub memcpy : Bytes → Bytes → ℕ → Bytes
memcpy dst src n i = if ltb i n then src i else dst i

-- Bytes copied in and copied out again are those that a direct copy gives.
pub memcpy-memcpy : (a b c : Bytes) (n : ℕ) → memcpy a (memcpy b c n) n ≡ memcpy a c n
memcpy-memcpy a b c n = fun_ext λ i. ground arith

-- What `memcpy` does to a type of buffers: `copy dst src n` overwrites the first `n` bytes.
pub record Buffer {ℓ} (A : Type ℓ) : Type ℓ where
  pub copy : A → A → ℕ → A
  pub copy-copy : (a b c : A) (n : ℕ) → copy a (copy b c n) n ≡ copy a c n

instance abbrev pub bytes_buffer : Buffer Bytes
bytes_buffer = record { copy = memcpy; copy-copy = memcpy-memcpy }
