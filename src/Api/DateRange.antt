-- ===== src/Api/DateRange.antt =====
-- src/prooflens/api/date_range.py: the bounds of a range of days, and a series with a bucket a day.
-- `datetime.fromisoformat` on a text that is not a plain date is an argument, `full`.
pub mod Bounds
pub mod Series
mod Tests
use prooflens.Base.{
  ℕ, zero, suc, ◌+◌, ◌-◌, ℤ, pos, pos_part, ◌-ℤ◌, ltb_ℤ, String, Bool, true, false, not, ◌&&◌, ◌||◌,
  List, [], ◌∷◌, Option, none, some, ◌⊎◌, inl, inr, is_none, ltb, leb, ◌==◌, if◌then◌else◌,
  nonempty, strip, codes, date_fields, checked_date, isoformat, date_of, midnight, day_length,
  max_ordinal, or_else, Dict, lookup, insert, string_eq, ◌++◌, length, count, str_eq, map,
}
use prooflens.Engine.Number.{Float, average}
use prooflens.Service.Repo.{ResultView}

-- The ValueErrors, and the OverflowError of `date` arithmetic, which is not one
pub data RangeError : Type 0 where
  malformed start_in_future end_in_future start_after_end too_large overflow : RangeError

-- A parsed timestamp: its fields as microseconds, and its offset from UTC where it has one
pub record Stamp : Type 0 where
  pub local : ℕ
  pub offset : Option ℤ

abbrev in_years : ℤ → RangeError ⊎ Option ℕ
in_years t =
    if ltb_ℤ t (pos (midnight 1)) || not (ltb_ℤ t (pos (midnight (max_ordinal + 1))))
    then inl overflow
    else inr (some (pos_part t))

-- `.replace(tzinfo=UTC)` of a naive time, and `.astimezone(UTC)`
abbrev pub to_utc : ℕ → Option ℤ → RangeError ⊎ Option ℕ
to_utc local none = inr (some local)
to_utc local (some o) = in_years (pos local -ℤ o)

abbrev pub day_bound : Bool → Option ℕ → RangeError ⊎ Option ℕ
day_bound is_end none = inl malformed
day_bound false (some d) = inr (some (midnight d))
day_bound true (some d) = if d == max_ordinal then inl overflow else inr (some (midnight (d + 1)))

abbrev pub instant_bound : Option Stamp → RangeError ⊎ Option ℕ
instant_bound none = inl malformed
instant_bound (some t) = to_utc t.local t.offset

abbrev pub text_bound :
    (String → Option Stamp) → Bool → String → Option (ℕ × ℕ × ℕ) → RangeError ⊎ Option ℕ
text_bound full is_end v (some fields) = day_bound is_end (checked_date fields)
text_bound full is_end v none = instant_bound (full v)

-- `parse_bound`
unfoldable pub parse_bound : (String → Option Stamp) → Bool → Option String → RangeError ⊎ Option ℕ
parse_bound full is_end none = inr none
parse_bound full is_end (some value) =
    if nonempty value
    then text_bound full is_end (strip value) (date_fields (codes (strip value)))
    else inr none

abbrev pub day_of_bound : RangeError ⊎ Option ℕ → RangeError ⊎ Option ℕ
day_of_bound (inl e) = inl e
day_of_bound (inr none) = inr none
day_of_bound (inr (some t)) = inr (some (date_of t))

-- `_bound_day`
unfoldable pub bound_day : (String → Option Stamp) → Option String → RangeError ⊎ Option ℕ
unfolding parse_bound
bound_day full value = day_of_bound (parse_bound full false value)

abbrev pub default_days : ℕ
default_days = 30

abbrev pub max_span_days : ℕ
max_span_days = 400

-- The checks on the two days, and the range that they open
abbrev pub checked_range : ℕ → Bool → Bool → ℕ → ℕ → RangeError ⊎ (ℕ × ℕ)
checked_range today start_given end_given start_day end_day =
    if start_given && ltb today start_day
    then inl start_in_future
    else if end_given && ltb today end_day
    then inl end_in_future
    else if ltb end_day start_day
    then inl start_after_end
    else if ltb max_span_days (end_day - start_day + 1)
    then inl too_large
    else if end_day == max_ordinal
    then inl overflow
    else inr (midnight start_day, midnight (end_day + 1))

-- `end_day - timedelta(days=_DEFAULT_DAYS - 1)`, which has to be a date
abbrev pub default_start : ℕ → Bool → Bool → ℕ → RangeError ⊎ (ℕ × ℕ)
default_start today start_given end_given end_day =
    if leb end_day (default_days - 1)
    then inl overflow
    else checked_range today start_given end_given (end_day - (default_days - 1)) end_day

abbrev pub resolve_days : ℕ → Bool → Bool → Option ℕ → Option ℕ → RangeError ⊎ (ℕ × ℕ)
resolve_days today start_given end_given none none = default_start today start_given end_given today
resolve_days today start_given end_given none (some e) = default_start today start_given end_given e
resolve_days today start_given end_given (some s) none =
    checked_range today start_given end_given s today
resolve_days today start_given end_given (some s) (some e) =
    checked_range today start_given end_given s e

abbrev pub resolve_bounds :
    ℕ → Bool → Bool → RangeError ⊎ Option ℕ → RangeError ⊎ Option ℕ → RangeError ⊎ (ℕ × ℕ)
resolve_bounds today start_given end_given (inl e) end_day = inl e
resolve_bounds today start_given end_given (inr s) (inl e) = inl e
resolve_bounds today start_given end_given (inr s) (inr e) =
    resolve_days today start_given end_given s e

-- `resolve_range`
unfoldable pub resolve_range :
    (String → Option Stamp) → ℕ → Option String → Option String → RangeError ⊎ (ℕ × ℕ)
resolve_range full today start_date end_date =
    resolve_bounds today (not (is_none start_date)) (not (is_none end_date))
      (bound_day full start_date) (bound_day full end_date)

-- A day of the series
pub record DayPoint (R : Type 0) : Type 0 where
  pub date : String
  pub count : ℕ
  pub clear : ℕ
  pub doubtful : ℕ
  pub suspect : ℕ
  pub avg_score : R

-- The loop of api/scoring.py that files the results under the day of `created_at`
abbrev pub day_key : {R : Type 0} → ResultView R → String
day_key r = isoformat (date_of r.created_at)

abbrev pub by_day_from :
    {R : Type 0}
    → Dict String (List (ResultView R))
    → List (ResultView R)
    → Dict String (List (ResultView R))
by_day_from by_day [] = by_day
by_day_from by_day (r ∷ items) =
    by_day_from (insert (day_key r) (or_else (lookup (day_key r) by_day) [] ++ r ∷ []) by_day) items

module _ (F : Float) where
  abbrev pub point_of : String → List (ResultView F.Carrier) → DayPoint F.Carrier
  point_of key rows = record {
    date = key;
    count = length rows;
    clear = count (λ x. str_eq x.band "Clear") rows;
    doubtful = count (λ x. str_eq x.band "Doubtful") rows;
    suspect = count (λ x. str_eq x.band "Suspect") rows;
    avg_score = average F (map (λ x. x.score) rows);
  }

  -- The loop `while day <= last`, with fuel
  unfoldable pub fill_from :
      ℕ → Dict String (List (ResultView F.Carrier)) → ℕ → ℕ → List (DayPoint F.Carrier)
  fill_from zero by_day day last = []
  fill_from (suc fuel) by_day day last =
      let rest = fill_from fuel by_day (day + 1) last in
      if leb day last
      then point_of (isoformat day) (or_else (lookup (isoformat day) by_day) []) ∷ rest
      else []

  -- `fill_series`; the rounds are the days from the first to the last, and one more.
  unfoldable pub fill_series :
      Dict String (List (ResultView F.Carrier)) → ℕ → ℕ → List (DayPoint F.Carrier)
  fill_series by_day start end =
      let last = date_of (end - day_length) in
      fill_from (suc (last + 1 - date_of start)) by_day (date_of start) last
