-- ===== src/Base.antt =====
-- What every part shares: the libraries' names, passed on, tests on numbers, signed integers,
-- memory written at an index, masks, results that carry an error code, and what holds of a result
-- that may be missing.
mod Tests
pub mod Int
pub mod Bits
pub mod Memory
mod Results
pub use Tests.*
pub use Results.*
pub use Int.{
  ℤ, pos, negsuc, pos_part, neg_part, sub_ℕ, ◌≤ℤ◌, ltb_ℤ, leb_ℤ, +ℤ_parts, more-than-none, -ℤ_parts,
  eq_of_parts, int_64, int_16, int_64-sum,
}
unfoldable pub use Int.{◌+ℤ◌, ◌-ℤ◌}
pub use Memory.{update, Bytes, memcpy, Buffer, bytes_buffer}
pub use Prim.Native.Nat.{ℕ, zero, suc, ◌+◌, ◌-◌, ◌*◌, ◌/◌, ◌%◌, ◌^◌, ◌≤◌, ◌<◌, min, bit_and}
pub use mathlib.Core.Path.{◌≡◌, refl, sym, ap, ◌∙◌, subst, fun_ext}
pub use mathlib.Core.Logic.{◌≢◌, ◌↔◌, ◌⊎◌, inl, inr}
pub use mathlib.Core.Bool.{Bool, true, false, not, ◌&&◌, ◌||◌}
pub use mathlib.Core.Option.{Option, none, some}
pub use mathlib.Core.List.{List, [], ◌∷◌, ◌++◌}
pub use native.Mathlib.Omega.{arith}
