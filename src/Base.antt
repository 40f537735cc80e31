-- ===== src/Base.antt =====
-- Names that the whole development shares: the libraries', passed on, and those of the children.
pub mod Tests
pub mod Lists
pub mod Text
pub mod Table
pub mod Int
pub mod Sort
pub mod Single
pub mod Decimal
pub mod Texts
pub use Tests.*
pub use Lists.*
pub use Text.{Str, codes, str_eq_sound, str_eq_refl, str_eq_iff, str_eq_ne}
unfoldable pub use Text.{
  str_eq, rune_bytes, bytes, len, lower_rune, to_lower, is_space, trim_left, trim_right_step,
  trim_right, trim, trim_space,
}
unfoldable pub use Table.{select, update, delete, affected}
pub use Prim.Native.Nat.{ℕ, zero, suc, ◌+◌, ◌-◌, ◌*◌, ◌/◌, ◌%◌, ◌^◌, ◌≤◌, ◌<◌, min, max}
pub use mathlib.Core.Path.{◌≡◌, refl, sym, ap, ap₂, ◌∙◌, subst, fun_ext}
pub use mathlib.Core.Logic.{◌≢◌, ◌↔◌, ◌⊎◌, inl, inr}
pub use mathlib.Core.Bool.{Bool, true, false, not, ◌&&◌, ◌||◌}
pub use mathlib.Core.Option.{Option, none, some}
pub use mathlib.Core.List.{List, [], ◌∷◌, ◌++◌, map, reverse}
pub use native.Mathlib.Omega.{arith}
unfoldable pub use native.Mathlib.Decide.{dec_lt, dec_le, ℕ_discrete}
