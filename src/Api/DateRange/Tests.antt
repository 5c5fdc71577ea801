-- ===== src/Api/DateRange/Tests.antt =====
-- Runs of src/prooflens/api/date_range.py, and its theorems at inputs that meet their conditions.
use prooflens.Base.{
  ℕ, ◌+◌, ◌-◌, ◌≡◌, refl, ◌↔◌, inl, inr, String, Option, List, [], ◌∷◌, none, some, map, midnight,
  to_ordinal, year_of, month_of, day_of, isoformat, checked_date, strip, lstrip, rstrip,
  is_space_code, digit_char, arith, ◌≤◌,
}
use prooflens.Service.Repo.Samples.{sample}
use prooflens.Engine.Number.{decimals, average, fsum}
use prooflens.Service.Repo.{ResultView}
use prooflens.Api.DateRange.{
  overflow, parse_bound, bound_day, resolve_range, by_day_from, fill_series, fill_from,
}
use prooflens.Api.DateRange.Bounds.{IsRange, resolve_range-IsRange}
use prooflens.Api.DateRange.Series.{point_on, days_from, fill_series-points}

-- 28 July 2026
abbrev today : ℕ
today = 739825

today_is : to_ordinal 2026 7 28 ≡ today
unfolding to_ordinal
today_is = refl

today_text : isoformat today ≡ "2026-07-28"
unfolding isoformat year_of month_of day_of digit_char
today_text = refl

leap_day : checked_date (2025, 2, 29) ≡ none
unfolding checked_date
leap_day = refl

-- A week in July, and the 30 days up to today
asked_week :
    resolve_range (λ _. none) today (some " 2026-07-01") (some "2026-07-07")
    ≡ inr (midnight 739798, midnight 739805)
unfolding resolve_range bound_day parse_bound strip lstrip rstrip is_space_code checked_date
asked_week = refl

default_range : resolve_range (λ _. none) today none none ≡ inr (midnight 739796, midnight 739826)
unfolding resolve_range bound_day parse_bound
default_range = refl

-- A day in the first weeks of year 1 is a valid date, and the default start is none.
first_weeks : resolve_range (λ _. none) today none (some "0001-01-05") ≡ inl overflow
unfolding resolve_range bound_day parse_bound strip lstrip rstrip is_space_code checked_date
first_weeks = refl

start_parses : bound_day (λ _. none) (some "2026-07-01") ≡ inr (some 739798)
unfolding bound_day parse_bound strip lstrip rstrip is_space_code checked_date
start_parses = refl

end_parses : bound_day (λ _. none) none ≡ inr none
unfolding bound_day parse_bound
end_parses = refl

resolve_range-IsRange_example :
    ((r : ℕ × ℕ)
      → (resolve_range (λ _. none) today (some "2026-07-01") none ≡ inr r)
        ↔ IsRange today (some 739798) none r)
    × ((resolve_range (λ _. none) today (some "2026-07-01") none ≡ inl overflow)
        ↔ ((◌≡◌ {A = Option ℕ} (some 739798) none) × (today ≤ 29)))
resolve_range-IsRange_example =
    resolve_range-IsRange (λ _. none) today (some "2026-07-01") none (some 739798) none
      (omega arith) (omega arith) start_parses end_parses

-- A result of a day and a band, with a score in thousandths
abbrev pub result_on : ℕ → String → ℕ → ResultView ℕ
result_on day band score = record sample {
  created_at = midnight day + 3600000000;
  band = band;
  score = score;
}

abbrev results : List (ResultView ℕ)
results =
    result_on 739798 "Clear" 80000
    ∷ result_on 739800 "Suspect" 10000
    ∷ result_on 739798 "Doubtful" 50000
    ∷ []

three_days :
    fill_series decimals (by_day_from [] results) (midnight 739798) (midnight 739801)
    ≡ record {
      date = "2026-07-01";
      count = 2;
      clear = 1;
      doubtful = 1;
      suspect = 0;
      avg_score = 65000;
    }
      ∷ record {
        date = "2026-07-02";
        count = 0;
        clear = 0;
        doubtful = 0;
        suspect = 0;
        avg_score = 0;
      }
      ∷ record {
        date = "2026-07-03";
        count = 1;
        clear = 0;
        doubtful = 0;
        suspect = 1;
        avg_score = 10000;
      }
      ∷ []
unfolding fill_series fill_from average fsum isoformat year_of month_of day_of digit_char
three_days = refl

fill_series-points_example :
    fill_series decimals (by_day_from [] results) (midnight 739798) (midnight (739800 + 1))
    ≡ map (point_on decimals results) (days_from (739800 + 1 - 739798) 739798)
fill_series-points_example =
    fill_series-points decimals results (omega arith) 739798 739800 (omega arith) (omega arith)
      (omega arith)
