-- ===== src/Base/Calendar/IsoText.antt =====
-- `date.isoformat()`, the shape YYYY-MM-DD, and `date.fromisoformat` on a text of that shape.
use Prim.Native.Nat.{ℕ, zero, suc, ◌+◌, ◌-◌, ◌*◌, ◌/◌, ◌%◌, ◌≤◌, ◌<◌}
use Prim.Native.Char.{Char, code}
use Prim.Native.String.{String}
use mathlib.Core.Path.{◌≡◌, refl, ap}
use mathlib.Core.Bool.{Bool, true, ◌&&◌}
use mathlib.Core.List.{List, [], ◌∷◌}
use mathlib.Core.Option.{Option, none, some}
use native.Mathlib.Omega.{arith}
use prooflens.Base.Tests.{leb, ◌==◌, if◌then◌else◌}
use prooflens.Base.Text.{codes}
use prooflens.Base.Calendar.{
  max_ordinal, year_of, month_of, day_of, to_ordinal, days_in_month, days_before_year,
  days_in_month-le, year_of-around, month_of-around, to_ordinal-parts,
}

unfoldable pub digit_char : ℕ → Char
digit_char d =
    if d == 0
    then "0"
    else if d == 1
    then "1"
    else if d == 2
    then "2"
    else if d == 3
    then "3"
    else if d == 4
    then "4"
    else if d == 5
    then "5"
    else if d == 6
    then "6"
    else if d == 7
    then "7"
    else if d == 8
    then "8"
    else "9"

-- `f"{y:04d}-{m:02d}-{d:02d}"`
abbrev pub two_digits : ℕ → String → String
two_digits n rest = String.◌∷◌ (digit_char (n / 10 % 10)) (String.◌∷◌ (digit_char (n % 10)) rest)

abbrev pub year_month : ℕ → ℕ → String → String
year_month y m rest =
    two_digits (y / 100) (two_digits (y % 100) (String.◌∷◌ "-" (two_digits m rest)))

unfoldable pub isoformat : ℕ → String
isoformat n = year_month (year_of n) (month_of n) (String.◌∷◌ "-" (two_digits (day_of n) ""))

abbrev pub is_digit : ℕ → Bool
is_digit c = leb 48 c && leb c 57

abbrev all_digits : List ℕ → Bool
all_digits [] = true
all_digits (c ∷ cs) = is_digit c && all_digits cs

-- Year, month and day of a text that matches \d{4}-\d{2}-\d{2}
abbrev pub date_fields : List ℕ → Option (ℕ × ℕ × ℕ)
date_fields (a ∷ b ∷ c ∷ d ∷ p ∷ e ∷ f ∷ q ∷ g ∷ h ∷ []) =
    if p == 45 && q == 45 && all_digits (a ∷ b ∷ c ∷ d ∷ e ∷ f ∷ g ∷ h ∷ [])
    then some (
      (a - 48) * 1000 + (b - 48) * 100 + (c - 48) * 10 + (d - 48),
      (e - 48) * 10 + (f - 48),
      (g - 48) * 10 + (h - 48),
    )
    else none
date_fields _ = none

-- `date(y, m, d)`, which raises ValueError where a part is out of range
unfoldable pub checked_date : ℕ × ℕ × ℕ → Option ℕ
unfolding to_ordinal days_in_month
checked_date (y, m, d) =
    if leb 1 y && leb y 9999 && leb 1 m && leb m 12 && leb 1 d && leb d (days_in_month y m)
    then some (to_ordinal y m d)
    else none

code-digit_char : (d : ℕ) → d < 10 → code (digit_char d) ≡ 48 + d
unfolding digit_char
code-digit_char zero h = refl
code-digit_char (suc zero) h = refl
code-digit_char (suc (suc zero)) h = refl
code-digit_char (suc (suc (suc zero))) h = refl
code-digit_char (suc (suc (suc (suc zero)))) h = refl
code-digit_char (suc (suc (suc (suc (suc zero))))) h = refl
code-digit_char (suc (suc (suc (suc (suc (suc zero)))))) h = refl
code-digit_char (suc (suc (suc (suc (suc (suc (suc zero))))))) h = refl
code-digit_char (suc (suc (suc (suc (suc (suc (suc (suc zero)))))))) h = refl
code-digit_char (suc (suc (suc (suc (suc (suc (suc (suc (suc zero))))))))) h = refl
code-digit_char (suc (suc (suc (suc (suc (suc (suc (suc (suc (suc d)))))))))) h =
    absurd (omega arith)

date_fields-parts :
    (y m d : ℕ)
    → y ≤ 9999
    → m ≤ 99
    → d ≤ 99
    → date_fields (codes (year_month y m (String.◌∷◌ "-" (two_digits d "")))) ≡ some (y, m, d)
date_fields-parts y m d hy hm hd = ground (
  arith,
  code-digit_char (y / 100 / 10 % 10),
  code-digit_char (y / 100 % 10),
  code-digit_char (y % 100 / 10 % 10),
  code-digit_char (y % 100 % 10),
  code-digit_char (m / 10 % 10),
  code-digit_char (m % 10),
  code-digit_char (d / 10 % 10),
  code-digit_char (d % 10),
)

year-le : (n : ℕ) → 1 ≤ n → n ≤ max_ordinal → year_of n ≤ 9999
unfolding days_before_year
year-le n lo hi = omega (arith, year_of-around n lo)

-- The text of a date has the shape that the pattern asks for, with the date's parts.
pub date_fields-isoformat :
    (n : ℕ)
    → 1 ≤ n
    → n ≤ max_ordinal
    → date_fields (codes (isoformat n)) ≡ some (year_of n, month_of n, day_of n)
unfolding isoformat
date_fields-isoformat n lo hi =
    date_fields-parts (year_of n) (month_of n) (day_of n) (year-le n lo hi)
      (omega (arith, month_of-around n lo))
      (omega (arith, to_ordinal-parts n lo, days_in_month-le (year_of n) (month_of n)))

-- A date is read back from its text.
pub checked_date-parts :
    (n : ℕ) → 1 ≤ n → n ≤ max_ordinal → checked_date (year_of n, month_of n, day_of n) ≡ some n
unfolding checked_date
checked_date-parts n lo hi =
    ground (arith, year-le n, year_of-around n, month_of-around n, to_ordinal-parts n)

pub isoformat_inj :
    (a b : ℕ)
    → (1 ≤ a) × (a ≤ max_ordinal)
    → (1 ≤ b) × (b ≤ max_ordinal)
    → isoformat a ≡ isoformat b
    → a ≡ b
isoformat_inj a b ha hb e = cc (
  checked_date-parts a ha.0 ha.1,
  checked_date-parts b hb.0 hb.1,
  date_fields-isoformat a ha.0 ha.1,
  date_fields-isoformat b hb.0 hb.1,
  ap (λ s. date_fields (codes s)) e,
)
