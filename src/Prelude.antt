-- ===== src/Prelude.antt =====
-- The names that the other modules share: the libraries', passed on, and those of the children.
mod Tests
mod Lists
mod Int
mod Text
mod Decimal
pub use Tests.{ltb, leb, if◌then◌else◌, ltb→lt, lt→ltb, leb→le, Bool-cases, Option-cases}
pub use Lists.*
pub use Int.{ℤ, pos, negsuc, pos_part, neg_part, ltb_ℤ, leb_ℤ, int_max, int_modulus}
unfoldable pub use Int.{◌+ℤ◌, ◌-ℤ◌, go_add, go_sub, go_mul}
pub use Int.{wrap-pos, go_add-pos, go_sub-pos, go_mul-pos}
pub use Text.{
  GoString, str, eq_str_iff, eq_str_refl, Eq, ◌==◌, nat_eq, int_eq, string_eq, nonempty, contains,
}
unfoldable pub use Text.{eq_str, digits, itoa_nat, itoa}
unfoldable pub use Decimal.{count, value}
pub use Decimal.{IsDigit, digits-IsDigit, value-digits, itoa_injective, count-append, count-itoa}
pub use Prim.Native.Nat.{ℕ, zero, suc, ◌+◌, ◌-◌, ◌*◌, ◌≤◌, ◌<◌}
pub use mathlib.Core.Path.{◌≡◌, refl, sym, ap, ◌∙◌, fun_ext}
pub use mathlib.Core.Logic.{◌≢◌, ◌↔◌, ◌⊎◌, inl, inr}
pub use mathlib.Core.Bool.{Bool, true, false, not, ◌&&◌, ◌||◌}
pub use mathlib.Core.Option.{Option, none, some}
pub use mathlib.Core.List.{List, [], ◌∷◌, ◌++◌, map, append_assoc, append-nil}
pub use native.Mathlib.Omega.{arith}
