-- ===== src/Api/Results/Tests.antt =====
-- Runs of the endpoints of src/prooflens/api/scoring.py, and a theorem at inputs that meet its
-- conditions.
use prooflens.Base.{
  ℕ, ◌+◌, ◌≡◌, refl, ◌⊎◌, inl, inr, String, [], ◌∷◌, none, some, midnight, arith, strip, lstrip,
  rstrip, is_space_code, checked_date,
}
use prooflens.Service.Repo.Samples.{plain, sample}
use prooflens.Engine.Number.{decimals}
use prooflens.Engine.Verdicts.{Band, Reason}
use prooflens.Service.Repo.{ResultView, ResultQuery, Results, get_result, record_review}
use prooflens.Api.Analytics.{group_by_field}
use prooflens.Api.Analytics.Buckets.{weekly}
use prooflens.Api.DateRange.{malformed, parse_bound, bound_day, resolve_range}
use prooflens.Api.Results.{
  ApiError, invalid_dim, invalid_range, no_result, Page, approve, list_results_page, review_result,
}
use prooflens.Api.Results.Overview.{SummaryRequest, reason_of, sort_counts, most_common, all_named}
use prooflens.Api.Results.Totals.{HasSummary, analytics_summary-adds_up}

-- A result of an id, a day, a band and a reason
abbrev result_on : ℕ → ℕ → String → String → ResultView ℕ
result_on id day band reason_code = record sample {
  id = id;
  created_at = midnight day + 3600000000;
  band = band;
  reason_code = reason_code;
}

-- Two results in the first week of July 2026, and one after it
abbrev stored : Results ℕ
stored = record {
  results =
      result_on 1 739798 "Clear" "clear"
      ∷ result_on 2 739800 "Suspect" "recycled"
      ∷ result_on 3 739820 "Suspect" "recycled"
      ∷ [];
  audit_log = [];
}

abbrev everything : ResultQuery
everything = record {
  limit = 2;
  offset = 0;
  band = none;
  review = none;
  reason = none;
  rep_id = none;
  start = none;
  end = none;
}

-- The agent is no node.
agent_dim :
    ◌≡◌ {A = ApiError ⊎ Page ℕ}
      (list_results_page plain
        (λ _. none)
        739825
        "t1"
        everything
        none
        none
        (some "agent")
        none
        []
        stored)
      (inl (invalid_dim "agent"))
unfolding list_results_page group_by_field
agent_dim = refl

bad_from :
    ◌≡◌ {A = ApiError ⊎ Page ℕ}
      (list_results_page plain
        (λ _. none)
        739825
        "t1"
        everything
        (some "soon")
        none
        none
        none
        []
        stored)
      (inl (invalid_range malformed))
unfolding list_results_page resolve_range bound_day parse_bound strip lstrip rstrip is_space_code
bad_from = refl

other_tenant : (review_result 1 approve none 5 "t2" stored).0 ≡ inl no_result
unfolding review_result record_review get_result
other_tenant = refl

-- The most frequent reason comes first, and of equals the one that was met first.
common_first :
    most_common (("clear", 1) ∷ ("recycled", 3) ∷ ("too_blurred", 1) ∷ [])
    ≡ ("recycled", 3) ∷ ("clear", 1) ∷ ("too_blurred", 1) ∷ []
unfolding sort_counts
common_first = refl

unknown_code : all_named (("clear", 1) ∷ ("other", 3) ∷ []) ≡ none
unfolding all_named reason_of
unknown_code = refl

abbrev july : SummaryRequest
july = record {
  start_date = some "2026-07-01";
  end_date = none;
  from = some "2026-01-01";
  to = some "2026-07-07";
  bucket = weekly;
  group_by = "agent";
  dim = none;
  node = none;
}

-- The explicit start wins over its alias.
july_range :
    resolve_range (λ _. none) 739825 (some "2026-07-01") (some "2026-07-07")
    ≡ inr (midnight 739798, midnight 739805)
unfolding resolve_range bound_day parse_bound strip lstrip rstrip is_space_code checked_date
july_range = refl

analytics_summary-adds_up_example :
    HasSummary decimals plain
      (λ _. none)
      739825
      "t1"
      july
      []
      stored
      (midnight 739798)
      (midnight 739805)
analytics_summary-adds_up_example =
    analytics_summary-adds_up decimals plain (λ _. none) 739825 "t1" july [] stored
      (midnight 739798) (midnight 739805) refl july_range (omega arith)
      (
        ((Band.clear, refl), (Reason.clear, refl)),
        (
          ((Band.suspect, refl), (Reason.recycled, refl)),
          (((Band.suspect, refl), (Reason.recycled, refl)), tt),
        ),
      )
