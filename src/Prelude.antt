-- ===== src/Prelude.antt =====
-- The names that the other modules share: the libraries', passed on, and those of the children.
mod Tests
mod Int
mod Lists
pub use Tests.*
pub use Lists.{
  length, get_elem?, get_or, replicate, take, drop, update, update_self, update_other, update-all,
  update_both, holds_from-entry,
}
unfoldable pub use Lists.{holds_from}
pub use Int.{
  ℤ, pos, negsuc, pos_part, neg_part, sub_ℕ, times, over, ◌≤ℤ◌, ltb_ℤ, leb_ℤ, ◌==ℤ◌, +ℤ_parts,
  -ℤ_parts, eq_of_parts, int_laws, ==ℤ_iff,
}
unfoldable pub use Int.{◌+ℤ◌, ◌-ℤ◌, low_bits, signed_of, bit_field}
pub use Prim.Native.Nat.{ℕ, zero, suc, ◌+◌, ◌-◌, ◌*◌, ◌/◌, ◌%◌, ◌^◌, ◌≤◌, ◌<◌}
pub use mathlib.Core.Path.{◌≡◌, refl, sym, ap, ◌∙◌, fun_ext}
pub use mathlib.Core.Logic.{◌≢◌, ◌↔◌, ◌⊎◌, inl, inr}
pub use mathlib.Core.Bool.{Bool, true, false, not, ◌&&◌, ◌||◌}
pub use mathlib.Core.Option.{Option, none, some}
pub use mathlib.Core.List.{List, [], ◌∷◌, ◌++◌, map}
pub use native.Mathlib.Omega.{arith}
unfoldable pub use native.Mathlib.Decide.{dec_lt, ℕ_discrete}
