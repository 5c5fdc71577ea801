-- ===== src/Api/Results.antt =====
-- The endpoints of src/prooflens/api/scoring.py that read and review stored results, over the
-- in-memory repository. Ids are numbers; FastAPI has checked the types and bounds of a request.
pub mod Overview
pub mod Listed
pub mod Counts
pub mod Totals
mod Tests
use prooflens.Base.{
  ℕ, ◌+◌, ◌-◌, ◌*◌, String, Bool, true, false, not, ◌||◌, List, [], ◌∷◌, Option, none, some, map,
  filter, find, count, ltb, leb, ◌==◌, str_eq, Dict, lookup, string_eq, or_else, is_none, pos, ◌⊎◌,
  inl, inr, if◌then◌else◌, date_of, midnight, isoformat,
}
use prooflens.Engine.Number.{Float, ratio, average, zero_float, is_nonzero}
use prooflens.Engine.Verdicts.{
  Reason, reason_value, reason_text, reason_short_label, reason_priority,
}
use prooflens.Service.Ids.{Casing}
use prooflens.Service.Hierarchy.{HierarchyRow}
use prooflens.Service.Repo.{ResultView, ResultQuery, Results, get_result, record_review}
use prooflens.Service.Nodes.{node_filter, list_node_results}
use prooflens.Service.Organisation.{Organisation, get_hierarchy_rows}
use prooflens.Api.DateRange.{
  RangeError, overflow, Stamp, resolve_range, day_key, by_day_from, DayPoint, fill_series,
}
use prooflens.Api.Analytics.{group_by_field, has_band}
use prooflens.Api.Analytics.Buckets.{BucketKind}
use prooflens.Api.Analytics.Summary.{RangeSummary, count_reasons, aggregate_range}

-- The 400s, the 404, and an exception that no handler catches, which is a 500
pub data ApiError : Type 0 where
  invalid_dim : String → ApiError
  invalid_range : RangeError → ApiError
  no_result server_error : ApiError

-- `dim is not None and (dim not in GROUP_BY_FIELD or dim == "agent")`
abbrev pub is_bad_dim : Option String → Bool
is_bad_dim none = false
is_bad_dim (some dim) = is_none (group_by_field dim) || str_eq dim "agent"

-- The endpoints catch ValueError, which OverflowError is not.
abbrev pub range_failure : RangeError → ApiError
range_failure overflow = server_error
range_failure e = invalid_range e

abbrev pub ranged : RangeError ⊎ (ℕ × ℕ) → ApiError ⊎ Option (ℕ × ℕ)
ranged (inl e) = inl (range_failure e)
ranged (inr r) = inr (some r)

-- `from` and `to` constrain the listing only where one of them is given.
abbrev pub asked_range :
    (String → Option Stamp) → ℕ → Option String → Option String → ApiError ⊎ Option (ℕ × ℕ)
asked_range full today none none = inr none
asked_range full today from to = ranged (resolve_range full today from to)

abbrev pub with_range : ResultQuery → Option (ℕ × ℕ) → ResultQuery
with_range q none = record q { start = none; end = none }
with_range q (some (start, end)) = record q { start = some start; end = some end }

pub record Page (R : Type 0) : Type 0 where
  pub items : List (ResultView R)
  pub total : ℕ
  pub limit : ℕ
  pub offset : ℕ

pub data Decision : Type 0 where
  approve reject false_positive escalate : Decision

abbrev pub decision_value : Decision → String
decision_value approve = "approve"
decision_value reject = "reject"
decision_value false_positive = "false_positive"
decision_value escalate = "escalate"

-- REVIEWER
abbrev pub reviewer_name : String
reviewer_name = "Demo Operator"

module _ {R : Type 0} where
  abbrev pub or_missing : Option (ResultView R) → ApiError ⊎ ResultView R
  or_missing none = inl no_result
  or_missing (some r) = inr r

  -- `get_result`
  unfoldable pub get_result_by_id : ℕ → String → Results R → ApiError ⊎ ResultView R
  get_result_by_id result_id tenant_id s = or_missing (get_result result_id tenant_id s)

  -- `review_result`: the answer, and the results and the audit log after it
  unfoldable pub review_result :
      ℕ → Decision → Option String → ℕ → String → Results R → (ApiError ⊎ ResultView R) × Results R
  review_result result_id decision remark now tenant_id s =
      let (view, s') =
        record_review result_id (decision_value decision) remark reviewer_name now tenant_id s in
      (or_missing view, s')

module _ {R : Type 0} (C : Casing) (full : String → Option Stamp) (today : ℕ) where
  abbrev pub page_for :
      String
      → ResultQuery
      → Option String
      → Option String
      → Organisation
      → Results R
      → ApiError ⊎ Option (ℕ × ℕ)
      → ApiError ⊎ Page R
  page_for tenant_id q dim at org s (inl e) = inl e
  page_for tenant_id q dim at org s (inr range) =
      let (items, total) =
        list_node_results C tenant_id (with_range q range) (node_filter dim at)
          (get_hierarchy_rows tenant_id org) s in
      inr (record { items = items; total = total; limit = q.limit; offset = q.offset })

  -- `list_results`; the range of the query is the one that `from` and `to` give.
  unfoldable pub list_results_page :
      String
      → ResultQuery
      → Option String
      → Option String
      → Option String
      → Option String
      → Organisation
      → Results R
      → ApiError ⊎ Page R
  list_results_page tenant_id q from to dim node org s =
      if is_bad_dim dim
      then inl (invalid_dim (or_else dim ""))
      else page_for tenant_id q dim node org s (asked_range full today from to)
