-- ===== src/Api/Analytics/Tests.antt =====
-- Runs of src/prooflens/api/analytics.py, and its theorems at inputs that meet their conditions.
use prooflens.Base.{
  IsDistinctOn, ap, str_eq, ◌≢◌, ℕ, ◌+◌, ◌≤◌, ◌<◌, ◌≡◌, refl, true, false, map, All, String, Bool,
  Option, show_nat, isoformat, year_of, month_of, day_of, to_ordinal, digit_char, List, [], ◌∷◌,
  none, some, length, date_of, midnight, arith, strip, lstrip, rstrip, is_space_code,
}
use prooflens.Service.Repo.Samples.{plain, sample}
use prooflens.Engine.Number.{decimals, average, fsum}
use prooflens.Service.Ids.{normalize_id}
use prooflens.Service.Casings.{one_letter}
use prooflens.Service.Hierarchy.{agent_display_name, newest_first, first_name}
use prooflens.Service.Repo.{ResultView}
use prooflens.Api.Analytics.{agent, tally, scored_date, flag_precision, flag_counts}
use prooflens.Api.Analytics.Buckets.{
  weekly, monthly, bucket_edges, build_buckets, weekly_edges, monthly_edges, place_all,
}
use prooflens.Api.Analytics.Groups.{groups, join_all, sort_entries}
use prooflens.Api.Analytics.Grouping
use prooflens.Api.Analytics.Grouping.{IsGroup, groups-partition}
use prooflens.Api.Analytics.Belonging.{identity}
use prooflens.Api.Analytics.Partition
use prooflens.Api.Analytics.Partition.{bucket_on, build_buckets-partition}

-- A result of a day, a band, an agent and a review
abbrev result_on : ℕ → String → Option String → Option String → ResultView ℕ
result_on day band rep_id review = record sample {
  created_at = midnight day + 3600000000;
  band = band;
  rep_id = rep_id;
  review_status = review;
}

-- Three results from 27 July 2026 to 4 August
abbrev results : List (ResultView ℕ)
results =
    result_on 739824 "Suspect" (some "REP-1") (some "reject")
    ∷ result_on 739829 "Doubtful" none (some "approve")
    ∷ result_on 739832 "Clear" (some " REP-1 ") (some "reject")
    ∷ []

abbrev start : ℕ
start = midnight 739824

abbrev end : ℕ
end = midnight 739833

-- 27 July to 2 August, and the week that the range breaks off in
two_weeks :
    map {B = String × ℕ × Bool}
      (λ b. (b.bucket_label, b.counts.total, b.incomplete))
      (build_buckets decimals results start end weekly 739832)
    ≡ ("Week 1", 2, false) ∷ ("Week 2", 1, true) ∷ []
unfolding build_buckets bucket_edges weekly_edges show_nat place_all tally average fsum isoformat
two_weeks = refl

two_months :
    map {B = String × String × ℕ}
      (λ b. (b.bucket_label, b.start, b.counts.total))
      (build_buckets decimals results start end monthly 739832)
    ≡ ("2026-07", "2026-07-01", 1) ∷ ("2026-08", "2026-08-01", 2) ∷ []
unfolding build_buckets bucket_edges monthly_edges place_all tally average fsum isoformat year_of
    month_of day_of to_ordinal digit_char
two_months = refl

one_upheld :
    flag_precision decimals results
    ≡ record { reviewed = 2; confirmed = 1; overturned = 1; precision_pct = some 50000 }
unfolding flag_precision flag_counts
one_upheld = refl

-- The agent's two results and the one without an agent
two_agents :
    map {B = String × ℕ × ℕ}
      (λ g. (g.node, g.counts.total, g.share))
      (groups decimals plain results [] agent)
    ≡ ("REP-1", 2, 666) ∷ ("Unmapped", 1, 333) ∷ []
unfolding groups join_all sort_entries tally average fsum normalize_id agent_display_name
    newest_first first_name strip lstrip rstrip is_space_code
two_agents = refl

-- Upper case is not "Unmapped".
cased : ◌≢◌ {A = String} (one_letter.upper "Unmapped") "Unmapped"
cased h = absurd (ne (ap (str_eq "UnmApped") h))
  where
    ne : true ≡ false → ⊥
    ne e = cc

groups-partition_example :
    (Grouping.totals (groups decimals one_letter results [] agent) ≡ length results)
    × All
        (IsGroup decimals one_letter results [] agent)
        (groups decimals one_letter results [] agent)
    × IsDistinctOn (identity one_letter [] agent) (groups decimals one_letter results [] agent)
groups-partition_example = groups-partition decimals one_letter results [] agent cased

build_buckets-partition_example :
    (build_buckets decimals results start end weekly 739832
      ≡ map
          (bucket_on decimals results start end 739832)
          (bucket_edges weekly (date_of start) (date_of end)))
    × (All
          (λ (r : ResultView ℕ). (date_of start ≤ scored_date r) × (scored_date r < date_of end))
          results
        → Partition.totals (build_buckets decimals results start end weekly 739832)
          ≡ length results)
build_buckets-partition_example =
    build_buckets-partition decimals results start end 739832 weekly (omega arith)
