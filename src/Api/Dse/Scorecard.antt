-- ===== src/Api/Dse/Scorecard.antt =====
-- `dse_scorecard` of src/prooflens/api/dse.py, over the in-memory repository.
use prooflens.Base.{
  ℕ, String, Bool, not, ◌||◌, ◌&&◌, List, [], ◌∷◌, Option, none, some, map, filter, take, ltb, ◌==◌,
  Dict, lookup, string_eq, or_else, ◌⊎◌, inl, inr, is_none, if◌then◌else◌,
}
use prooflens.Engine.Number.{Float}
use prooflens.Service.Ids.{Casing, normalize_id}
use prooflens.Service.Hierarchy.{HierarchyRow, agent_display_name}
use prooflens.Service.Repo.{ResultView, ResultQuery, Results}
use prooflens.Service.Nodes.{every_node, list_node_results}
use prooflens.Service.Organisation.{Organisation, get_hierarchy_rows, text_or_none}
use prooflens.Api.DateRange.{RangeError, Stamp, resolve_range}
use prooflens.Api.Analytics.{Tally, tally, has_band}
use prooflens.Api.Analytics.Buckets.{BucketKind, Bucket, build_buckets}
use prooflens.Api.Analytics.Groups.{text_lt, rate}
use prooflens.Api.Analytics.Summary.{count_reasons}
use prooflens.Api.Results.{ApiError, no_result, server_error, range_failure}
use prooflens.Api.Results.Overview.{TopReason, sort_counts, all_named}
use prooflens.Api.Dse.{latest_rows_by_agent}

abbrev pub recent_limit : ℕ
recent_limit = 20

abbrev pub scorecard_limit : ℕ
scorecard_limit = 5000

-- The row of an agent, under the id that `normalize_id` gives
abbrev pub row_under : Dict String HierarchyRow → Option String → Option HierarchyRow
row_under latest none = none
row_under latest (some norm_id) = lookup norm_id latest

pub record Chain : Type 0 where
  pub sm : Option String
  pub rsm : Option String
  pub srsm : Option String
  pub zone : Option String
  pub branch : Option String
  pub city : Option String

abbrev pub chain_of : Option HierarchyRow → Chain
chain_of none = record {
  sm = none;
  rsm = none;
  srsm = none;
  zone = none;
  branch = none;
  city = none;
}
chain_of (some row) = record {
  sm = row.sm;
  rsm = row.rsm;
  srsm = row.srsm;
  zone = row.zonal_head;
  branch = row.branch;
  city = row.city;
}

-- The order of the key (-count, code)
abbrev pub more_frequent : String × ℕ → String × ℕ → Bool
more_frequent f e = ltb e.1 f.1 || e.1 == f.1 && text_lt f.0 e.0

-- `flagged.sort(key=lambda r: r.created_at, reverse=True)`, which keeps the order of equal times
abbrev pub insert_recent : {R : Type 0} → ResultView R → List (ResultView R) → List (ResultView R)
insert_recent r [] = r ∷ []
insert_recent r (q ∷ rs) =
    if ltb r.created_at q.created_at then q ∷ insert_recent r rs else r ∷ q ∷ rs

unfoldable pub sort_recent : {R : Type 0} → List (ResultView R) → List (ResultView R)
sort_recent [] = []
sort_recent (r ∷ rs) = insert_recent r (sort_recent rs)

-- A bucket with its rate of suspects
pub record TrendPoint (R : Type 0) : Type 0 where
  pub bucket : Bucket R
  pub suspect_rate : R

pub record Scorecard (R : Type 0) : Type 0 where
  pub agent_id : String
  pub name : String
  pub chain : Chain
  pub counts : Tally R
  pub suspect_rate : R
  pub top_reasons : List TopReason
  pub trend : List (TrendPoint R)
  pub recent : List (ResultView R)
  pub truncated : Bool

abbrev pub agent_query : ℕ → String → Option ℕ → Option ℕ → ResultQuery
agent_query limit agent_id start end = record {
  limit = limit;
  offset = 0;
  band = none;
  review = none;
  reason = none;
  rep_id = some agent_id;
  start = start;
  end = end;
}

module _ (F : Float) where
  abbrev pub trend_point : Bucket F.Carrier → TrendPoint F.Carrier
  trend_point b = record { bucket = b; suspect_rate = rate F b.counts.suspect b.counts.total }

  abbrev pub named_card :
      (List TopReason → Scorecard F.Carrier)
      → Option (List TopReason)
      → ApiError ⊎ Scorecard F.Carrier
  named_card make none = inl server_error
  named_card make (some top) = inr (make top)

module _ (F : Float) (C : Casing) (today : ℕ) (tenant_id agent_id : String) (bucket : BucketKind)
    (org : Organisation) (s : Results F.Carrier) where
  -- The hierarchy row of the agent
  abbrev pub agent_row : Option HierarchyRow
  agent_row =
      row_under (latest_rows_by_agent (get_hierarchy_rows tenant_id org) [])
        (normalize_id C (some agent_id))

  -- The results of the agent that a query finds, and how many there are
  abbrev pub agent_results : ℕ → Option ℕ → Option ℕ → List (ResultView F.Carrier) × ℕ
  agent_results limit start end =
      list_node_results C tenant_id (agent_query limit agent_id start end) every_node
        (get_hierarchy_rows tenant_id org) s

  -- The payload
  abbrev pub card_of :
      List (ResultView F.Carrier) → ℕ → ℕ → ℕ → List TopReason → Scorecard F.Carrier
  card_of items total start end top = record {
    agent_id = or_else (text_or_none (normalize_id C (some agent_id))) agent_id;
    name = agent_display_name C (get_hierarchy_rows tenant_id org) (some agent_id);
    chain = chain_of agent_row;
    counts = tally F items;
    suspect_rate = rate F (tally F items).suspect (tally F items).total;
    top_reasons = top;
    trend = map (trend_point F) (build_buckets F items start end bucket today);
    recent = take recent_limit (sort_recent (filter (λ r. not (has_band "Clear" r)) items));
    truncated = ltb scorecard_limit total;
  }

  abbrev pub card_for : RangeError ⊎ (ℕ × ℕ) → ApiError ⊎ Scorecard F.Carrier
  card_for (inl e) = inl (range_failure e)
  card_for (inr (start, end)) =
      let (items, total) = agent_results scorecard_limit (some start) (some end) in
      let (_, any_total) = agent_results 1 none none in
      if is_none agent_row && total == 0 && any_total == 0
      then inl no_result
      else named_card F (card_of items total start end)
          (all_named (sort_counts more_frequent (count_reasons [] items)))

  -- `dse_scorecard`
  unfoldable pub dse_scorecard :
      (String → Option Stamp) → Option String → Option String → ApiError ⊎ Scorecard F.Carrier
  dse_scorecard full from to = card_for (resolve_range full today from to)
