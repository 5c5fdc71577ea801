-- ===== src/Base/Calendar.antt =====
-- Python's `date` as its ordinal: day 1 is 1 January of year 1, day 3652059 is 31 December 9999.
-- A datetime in UTC is its microseconds, so that its date is that number over the length of a day.
pub mod IsoText
pub mod Months
use Prim.Native.Nat.{ℕ, zero, suc, ◌+◌, ◌-◌, ◌*◌, ◌/◌, ◌%◌, ◌≤◌, ◌<◌, max}
use Prim.Native.Char.{Char, code}
use Prim.Native.String.{String}
use mathlib.Core.Path.{◌≡◌, refl, ap}
use mathlib.Core.Bool.{Bool, true, false, not, ◌&&◌, ◌||◌}
use mathlib.Core.Option.{Option, none, some}
use native.Mathlib.Omega.{arith}
use prooflens.Base.Tests.{leb, ◌==◌, if◌then◌else◌}

abbrev pub max_ordinal : ℕ
max_ordinal = 3652059

abbrev pub day_length : ℕ
day_length = 86400000000

-- `dt.date()` and the midnight that opens a day
abbrev pub date_of : ℕ → ℕ
date_of t = t / day_length

abbrev pub midnight : ℕ → ℕ
midnight d = d * day_length

unfoldable pub is_leap : ℕ → Bool
is_leap y = y % 4 == 0 && (not (y % 100 == 0) || y % 400 == 0)

unfoldable pub days_in_month : ℕ → ℕ → ℕ
unfolding is_leap
days_in_month y m =
    if m == 0
    then 0
    else if m == 2
    then (if is_leap y then 29 else 28)
    else if m == 4 || m == 6 || m == 9 || m == 11
    then 30
    else 31

unfoldable pub days_before_year : ℕ → ℕ
days_before_year y = let p = y - 1 in p * 365 + p / 4 - p / 100 + p / 400

unfoldable pub days_before_month : ℕ → ℕ → ℕ
unfolding days_in_month
days_before_month y zero = 0
days_before_month y (suc m) = days_before_month y m + days_in_month y m

-- `date(y, m, d).toordinal()`
unfoldable pub to_ordinal : ℕ → ℕ → ℕ → ℕ
unfolding days_before_year days_before_month
to_ordinal y m d = days_before_year y + days_before_month y m + d

-- `d.year`, by search from a year that is not after it
find_year : ℕ → ℕ → ℕ → ℕ
unfolding days_before_year
find_year zero n y = y
find_year (suc fuel) n y =
    let later = find_year fuel n (suc y) in if leb n (days_before_year (suc y)) then y else later

unfoldable pub year_of : ℕ → ℕ
unfolding find_year
year_of n = find_year n n (max 1 (n / 366))

find_month : ℕ → ℕ → ℕ → ℕ → ℕ
unfolding days_before_month
find_month y zero n m = m
find_month y (suc fuel) n m =
    let later = find_month y fuel n (suc m) in
    if leb n (days_before_month y (suc m)) then m else later

-- `d.month` and `d.day`
unfoldable pub month_of : ℕ → ℕ
unfolding year_of find_month
month_of n = let y = year_of n in find_month y 11 (n - days_before_year y) 1

unfoldable pub day_of : ℕ → ℕ
unfolding month_of
day_of n = let y = year_of n in n - days_before_year y - days_before_month y (month_of n)

pub days_before_year-suc :
    (y : ℕ)
    → 1 ≤ y
    → days_before_year (suc y) ≡ days_before_year y + (if is_leap y then 366 else 365)
unfolding days_before_year is_leap
days_before_year-suc y h = ground arith

pub year_length : (y : ℕ) → days_before_month y 13 ≡ (if is_leap y then 366 else 365)
unfolding days_before_month
year_length y = ground arith

start_before : (n : ℕ) → 1 ≤ n → days_before_year (max 1 (n / 366)) < n
unfolding days_before_year
start_before n h = omega arith

-- The year's first day is after the day before `y`, and its last is not before `n`.
find_year-around :
    (fuel n y : ℕ)
    → 1 ≤ y
    → days_before_year y < n
    → n ≤ days_before_year (y + fuel)
    → let r = find_year fuel n y in
      (1 ≤ r) × (days_before_year r < n) × (n ≤ days_before_year (suc r))
unfolding find_year
find_year-around zero n y one lo hi = absurd (omega arith)
find_year-around (suc fuel) n y one lo hi = ground (arith, find_year-around fuel n (suc y))

enough_years : (n y : ℕ) → 1 ≤ y → n ≤ days_before_year (y + n)
unfolding days_before_year
enough_years n y h = omega arith

pub year_of-around :
    (n : ℕ)
    → 1 ≤ n
    → (1 ≤ year_of n)
      × (days_before_year (year_of n) < n)
      × (n ≤ days_before_year (suc (year_of n)))
unfolding year_of
year_of-around n h =
    find_year-around n n (max 1 (n / 366)) (omega arith) (start_before n h)
      (enough_years n _ (omega arith))

find_month-around :
    (y fuel n m : ℕ)
    → 1 ≤ m
    → m + fuel ≡ 12
    → days_before_month y m < n
    → n ≤ days_before_month y 13
    → let r = find_month y fuel n m in
      (1 ≤ r) × (r ≤ 12) × (days_before_month y r < n) × (n ≤ days_before_month y (suc r))
unfolding find_month
find_month-around y zero n m one twelve lo hi =
    let last : m ≡ 12 = omega arith in
    rw last (ground (arith, ap (λ k. days_before_month y k) last))
find_month-around y (suc fuel) n m one twelve lo hi =
    ground (arith, find_month-around y fuel n (suc m))

pub first_month : (y : ℕ) → days_before_month y 1 ≡ 0
unfolding days_before_month
first_month y = refl

pub month_of-around :
    (n : ℕ)
    → 1 ≤ n
    → let y = year_of n in
      let m = month_of n in
      (1 ≤ m)
      × (m ≤ 12)
      × (days_before_month y m < n - days_before_year y)
      × (n - days_before_year y ≤ days_before_month y (suc m))
unfolding month_of
month_of-around n h =
    find_month-around (year_of n) 11 (n - days_before_year (year_of n)) 1 (omega arith) refl
      (omega (arith, first_month (year_of n), year_of-around n h)) (omega (arith, within n h))
  where
    within : (n : ℕ) → 1 ≤ n → n - days_before_year (year_of n) ≤ days_before_month (year_of n) 13
    within n h =
        ground
          (arith, year_of-around n h, year_length (year_of n), days_before_year-suc (year_of n))

-- A date is put together from its parts again, and they are in range.
pub to_ordinal-parts :
    (n : ℕ)
    → 1 ≤ n
    → (to_ordinal (year_of n) (month_of n) (day_of n) ≡ n)
      × (1 ≤ day_of n)
      × (day_of n ≤ days_in_month (year_of n) (month_of n))
unfolding to_ordinal day_of
to_ordinal-parts n h = (
  omega (arith, year_of-around n h, month_of-around n h),
  omega (arith, month_of-around n h),
  omega (arith, month_of-around n h, month_end (year_of n) (month_of n)),
)
  where
    month_end : (y m : ℕ) → days_before_month y (suc m) ≡ days_before_month y m + days_in_month y m
    month_end y m = refl

pub days_in_month-le : (y m : ℕ) → days_in_month y m ≤ 31
unfolding days_in_month
days_in_month-le y m = ground arith
