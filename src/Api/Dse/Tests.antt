-- ===== src/Api/Dse/Tests.antt =====
-- Runs of src/prooflens/api/dse.py, and a theorem at inputs that meet its conditions.
use prooflens.Base.{
  ℕ, Option, ◌≡◌, refl, ◌⊎◌, inl, inr, String, [], ◌∷◌, none, some, midnight, arith, strip, lstrip,
  rstrip, is_space_code, checked_date, true, false, map, ◌≤◌,
}
use prooflens.Service.Repo.Samples.{plain, sample}
use prooflens.Engine.Number.{decimals}
use prooflens.Engine.Verdicts.{Band, Reason}
use prooflens.Service.Ids.{normalize_id}
use prooflens.Service.Hierarchy.{HierarchyRow}
use prooflens.Service.Repo.{ResultView, Results, matches}
use prooflens.Service.Nodes.{list_node_results}
use prooflens.Service.Organisation.{
  Organisation, get_hierarchy_rows, result_counts_by_rep, counts_from,
}
use prooflens.Api.Analytics.Buckets.{weekly}
use prooflens.Api.DateRange.{parse_bound, bound_day, resolve_range}
use prooflens.Api.Results.{no_result}
use prooflens.Api.Dse.{latest_rows_by_agent, sort_active, search_dse}
use prooflens.Api.Dse.Scorecard.{Scorecard, dse_scorecard}
use prooflens.Api.Dse.Known.{IsCard, has_agent, ever, dse_scorecard-known}

abbrev agent_version : String → String → ℕ → HierarchyRow
agent_version agent name day = record {
  agent_id = some agent;
  agent_name = some name;
  sm = none;
  rsm = none;
  srsm = none;
  zonal_head = none;
  branch = none;
  city = none;
  valid_from = day;
}

abbrev org : Organisation
org =
    (
      "t1",
      record { row = agent_version "A1" "Asha" 1; upload_id = "u" }
          ∷ record { row = agent_version "A2" "" 1; upload_id = "u" }
          ∷ record { row = agent_version "A1" "Asha R" 5; upload_id = "u" }
          ∷ [],
    )
    ∷ []

-- A result of an agent on 1 July 2026
abbrev result_of : String → ResultView ℕ
result_of rep_id = record sample {
  created_at = midnight 739798;
  band = "Suspect";
  reason_code = "recycled";
  rep_id = some rep_id;
}

abbrev stored : Results ℕ
stored = record { results = result_of "A2" ∷ result_of "A9" ∷ []; audit_log = [] }

-- The most active agent comes first, by her latest name, or by her id where she has none.
most_active :
    map {B = Option String × Option String}
      (λ m. (m.agent_id, m.name))
      (search_dse (λ s. s) "t1" " " org stored.results)
    ≡ (some "A2", some "A2") ∷ (some "A1", some "Asha R") ∷ []
unfolding search_dse latest_rows_by_agent sort_active get_hierarchy_rows result_counts_by_rep
    counts_from strip lstrip rstrip is_space_code
most_active = refl

july_range :
    resolve_range (λ _. none) 739825 (some "2026-07-01") (some "2026-07-07")
    ≡ inr (midnight 739798, midnight 739805)
unfolding resolve_range bound_day parse_bound strip lstrip rstrip is_space_code checked_date
july_range = refl

-- An agent without a row or a result is not found.
stranger :
    dse_scorecard decimals plain 739825 "t1" "A5" weekly org stored
      (λ _. none)
      (some "2026-07-01")
      (some "2026-07-07")
    ≡ inl no_result
unfolding dse_scorecard resolve_range bound_day parse_bound strip lstrip rstrip is_space_code
    checked_date latest_rows_by_agent get_hierarchy_rows list_node_results matches normalize_id
stranger = refl

-- An agent who has a result, but no row
dse_scorecard-known_example :
    ((dse_scorecard decimals plain 739825 "t1" "A9" weekly org stored
          (λ _. none)
          (some "2026-07-01")
          (some "2026-07-07")
        ≡ inl no_result)
      × (has_agent decimals plain 739825 "t1" "A9" weekly org stored ≡ false)
      × (ever decimals plain 739825 "t1" "A9" weekly org stored ≡ 0))
    ⊎ ((v : Scorecard ℕ) × (dse_scorecard decimals plain 739825 "t1" "A9" weekly org stored
            (λ _. none)
            (some "2026-07-01")
            (some "2026-07-07")
          ≡ inr v)
        × IsCard decimals plain 739825 "t1" "A9" weekly org stored
            (midnight 739798)
            (midnight 739805)
            v
        × ((has_agent decimals plain 739825 "t1" "A9" weekly org stored ≡ true)
            ⊎ (1 ≤ ever decimals plain 739825 "t1" "A9" weekly org stored)))
dse_scorecard-known_example =
    dse_scorecard-known decimals plain 739825 "t1" "A9" weekly org stored (λ _. none)
      (some "2026-07-01") (some "2026-07-07") (midnight 739798) (midnight 739805) july_range
      (omega arith)
      (
        ((Band.suspect, refl), (Reason.recycled, refl)),
        (((Band.suspect, refl), (Reason.recycled, refl)), tt),
      )
