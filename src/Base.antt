-- ===== src/Base.antt =====
-- The names that the other modules share: the libraries', passed on, and those of the children:
-- tests on numbers and texts, lists measured by native numbers, Python's int and dict.
mod Tests
mod Lists
mod Slices
mod Distinct
mod Int
mod Assoc
mod Text
mod Strip
pub mod Calendar
pub use Tests.*
pub use Lists.*
pub use Slices.*
pub use Distinct.*
unfoldable pub use Int.{◌+ℤ◌, ◌-ℤ◌}
pub use Int.*
pub use Assoc.*
unfoldable pub use Text.{
  lower_is, is_space_code, lstrip, rstrip, strip, show_nat, show_int, starts_with,
  lower_starts_with, before_comma,
}
pub use Text.*
pub use Strip.*
unfoldable pub use Calendar.{year_of, month_of, day_of, to_ordinal}
unfoldable pub use Calendar.IsoText.{digit_char, isoformat, checked_date}
pub use Calendar.Months.{to_ordinal-month, to_ordinal-first, month_nonempty}
pub use Calendar.{
  year_of-around, month_of-around, days_in_month, max_ordinal, day_length, date_of, midnight,
}
pub use Calendar.IsoText.{date_fields, year_month, isoformat_inj}
pub use Prim.Native.Nat.{ℕ, zero, suc, ◌+◌, ◌-◌, ◌*◌, ◌/◌, ◌%◌, ◌^◌, ◌≤◌, ◌<◌, min, max}
pub use Prim.Native.String.{String}
pub use mathlib.Core.Path.{◌≡◌, refl, sym, ap, ◌∙◌, subst}
pub use mathlib.Core.Logic.{◌≢◌, ◌↔◌, ◌⊎◌, inl, inr}
pub use mathlib.Core.Bool.{Bool, true, false, not, ◌&&◌, ◌||◌}
pub use mathlib.Core.Option.{Option, none, some}
pub use mathlib.Core.List.{List, [], ◌∷◌, ◌++◌, map, reverse}
pub use native.Mathlib.Omega.{arith}
pub use text.Mathlib.TextEquality.{eq_iff}
