-- ===== src/Base/Calendar/Months.antt =====
-- How the months of Python's calendar follow one another.
use Prim.Native.Nat.{ℕ, suc, ◌+◌, ◌≤◌}
use mathlib.Core.Path.{◌≡◌, refl}
use mathlib.Core.Logic.{inl, inr}
use native.Mathlib.Numerals.{add-one}
use native.Mathlib.Omega.{arith}
use prooflens.Base.Tests.{◌==◌, ==_iff, Bool-cases, if◌then◌else◌}
use prooflens.Base.Calendar.{
  year_of, month_of, day_of, to_ordinal, days_in_month, days_before_year, days_before_month,
  days_before_year-suc, year_length, first_month, days_in_month-le, to_ordinal-parts,
}

pub month_nonempty : (y m : ℕ) → 1 ≤ m → m ≤ 12 → 28 ≤ days_in_month y m
unfolding days_in_month
month_nonempty y m lo hi = ground arith

days_before_month-suc :
    (y m : ℕ) → days_before_month y (m + 1) ≡ days_before_month y m + days_in_month y m
unfolding days_before_month
days_before_month-suc y m = rw add-one

to_ordinal-day : (y m d : ℕ) → to_ordinal y m d ≡ days_before_year y + days_before_month y m + d
unfolding to_ordinal
to_ordinal-day y m d = refl

-- The first day of the month after is a month's length later; after December the next year opens.
pub to_ordinal-month :
    (y m : ℕ)
    → 1 ≤ y
    → 1 ≤ m
    → m ≤ 12
    → to_ordinal (if m == 12 then y + 1 else y) (if m == 12 then 1 else m + 1) 1
      ≡ to_ordinal y m 1 + days_in_month y m
to_ordinal-month y m one lo hi = elim (Bool-cases (m == 12)) [
  | inl last ↦
      let e : m ≡ 12 = (==_iff m 12).0 last in
      rw (last, e)
        (rw (add-one y) (
          omega (
            arith,
            to_ordinal-day (suc y) 1 1,
            to_ordinal-day y 12 1,
            days_before_year-suc y one,
            year_length y,
            days_before_month-suc y 12,
            first_month (suc y),
          )))
  | inr before ↦
      rw before
        (omega (arith, to_ordinal-day y (m + 1) 1, to_ordinal-day y m 1, days_before_month-suc y m))
]

-- A day is at most 30 days after the first of its month.
pub to_ordinal-first :
    (n : ℕ)
    → 1 ≤ n
    → (to_ordinal (year_of n) (month_of n) 1 ≤ n) × (n ≤ to_ordinal (year_of n) (month_of n) 1 + 30)
to_ordinal-first n h = omega (
  arith,
  to_ordinal-parts n h,
  to_ordinal-day (year_of n) (month_of n) (day_of n),
  to_ordinal-day (year_of n) (month_of n) 1,
  days_in_month-le (year_of n) (month_of n),
)
