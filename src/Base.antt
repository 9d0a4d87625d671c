-- ===== src/Base.antt =====
-- The names that the modules share: the libraries', passed on, and those of the children.
mod Tests
mod Lists
mod Bytes
mod Integers
pub use Tests.*
pub use Lists.*
unfoldable pub use Integers.{to_int32, ◌+ℤ◌, ◌-ℤ◌}
pub use Integers.{
  ◌+ℤ◌, ◌-ℤ◌, +ℤ_assoc, +ℤ_cancel_left, zero-+ℤ, +ℤ-zero, ℤ, pos, negsuc, equal_ℤ, is_negative,
  to_int32-small,
}
unfoldable pub use Bytes.{update, store, bytes}
pub use Bytes.{
  Memory, length-bytes, bytes-add, drop-bytes, bytes_ext, store_outside, bytes-store_apart,
  bytes-store_self,
}
pub use Prim.Native.Nat.{ℕ, zero, suc, ◌+◌, ◌-◌, ◌*◌, ◌/◌, ◌%◌, ◌^◌, ◌≤◌, ◌<◌, min}
pub use mathlib.Core.Path.{◌≡◌, refl, sym, ap, ap₂, ◌∙◌, subst, fun_ext, ◌≡⟨◌⟩◌, ◌∎}
pub use mathlib.Core.Logic.{◌≢◌, ◌↔◌, ◌⊎◌, inl, inr}
pub use mathlib.Core.Bool.{Bool, true, false, not, ◌&&◌, ◌||◌}
pub use mathlib.Core.Option.{Option, none, some}
pub use mathlib.Core.List.{List, [], ◌∷◌, ◌++◌, map, append-nil, append_assoc}
pub use native.Mathlib.Omega.{arith}
unfoldable pub use native.Mathlib.Decide.{dec_lt, dec_le, ℕ_discrete}
