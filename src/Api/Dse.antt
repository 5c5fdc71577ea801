-- ===== src/Api/Dse.antt =====
-- `search_dse` of src/prooflens/api/dse.py, over the in-memory repository. `str.lower` is an
-- argument.
pub mod Scorecard
pub mod Rows
pub mod Counted
pub mod Known
mod Tests
use prooflens.Base.{
  ℕ, ◌+◌, String, Bool, true, false, not, ◌||◌, ◌&&◌, List, [], ◌∷◌, Option, none, some, map,
  filter, take, ltb, leb, ◌==◌, str_eq, Dict, lookup, insert, string_eq, or_else, ◌⊎◌, inl, inr,
  is_none, if◌then◌else◌, nonempty, strip,
}
use prooflens.Engine.Number.{Float, ratio, zero_float}
use prooflens.Engine.Verdicts.{reason_short_label}
use prooflens.Service.Ids.{Casing, normalize_id}
use prooflens.Service.Hierarchy.{HierarchyRow, agent_display_name}
use prooflens.Service.Repo.{ResultView, ResultQuery, Results}
use prooflens.Service.Nodes.{every_node, list_node_results}
use prooflens.Service.Organisation.{
  Organisation, get_hierarchy_rows, search_hierarchy, result_counts_by_rep, text_or_none,
}
use prooflens.Api.DateRange.{RangeError, Stamp, resolve_range}
use prooflens.Api.Analytics.{Tally, tally, has_band}
use prooflens.Api.Analytics.Buckets.{BucketKind, Bucket, build_buckets}
use prooflens.Api.Analytics.Groups.{text_lt, rate}
use prooflens.Api.Analytics.Summary.{count_reasons}
use prooflens.Api.Results.{ApiError, no_result, server_error, range_failure}
use prooflens.Api.Results.Overview.{TopReason, all_named}

abbrev pub search_limit : ℕ
search_limit = 25

-- `_latest_rows_by_agent`; of two rows of one day the first stays.
abbrev pub is_newer : HierarchyRow → Option HierarchyRow → Bool
is_newer row none = true
is_newer row (some cur) = ltb cur.valid_from row.valid_from

abbrev pub with_newer :
    Option String → HierarchyRow → Dict String HierarchyRow → Dict String HierarchyRow
with_newer none row latest = latest
with_newer (some key) row latest =
    if is_newer row (lookup key latest) then insert key row latest else latest

unfoldable pub latest_rows_by_agent :
    List HierarchyRow → Dict String HierarchyRow → Dict String HierarchyRow
latest_rows_by_agent [] latest = latest
latest_rows_by_agent (row ∷ rows) latest =
    latest_rows_by_agent rows (with_newer row.agent_id row latest)

-- The order of the key (-count, agent_id)
abbrev pub is_more_active : Dict String ℕ → HierarchyRow → HierarchyRow → Bool
is_more_active counts r q =
    let a = or_else r.agent_id "" in
    let b = or_else q.agent_id "" in
    let m = or_else (lookup a counts) 0 in
    let n = or_else (lookup b counts) 0 in ltb n m || m == n && text_lt a b

abbrev pub insert_active : Dict String ℕ → HierarchyRow → List HierarchyRow → List HierarchyRow
insert_active counts r [] = r ∷ []
insert_active counts r (q ∷ rows) =
    if is_more_active counts q r then q ∷ insert_active counts r rows else r ∷ q ∷ rows

unfoldable pub sort_active : Dict String ℕ → List HierarchyRow → List HierarchyRow
sort_active counts [] = []
sort_active counts (r ∷ rows) = insert_active counts r (sort_active counts rows)

pub record DseMatch : Type 0 where
  pub agent_id : Option String
  pub name : Option String
  pub branch : Option String
  pub sm : Option String

-- `row.get("agent_name") or row["agent_id"]`
abbrev pub name_or_id : Option String → Option String → Option String
name_or_id none id = id
name_or_id (some name) id = some name

abbrev pub dse_match : HierarchyRow → DseMatch
dse_match row = record {
  agent_id = row.agent_id;
  name = name_or_id (text_or_none row.agent_name) row.agent_id;
  branch = row.branch;
  sm = row.sm;
}

-- `search_dse`
unfoldable pub search_dse :
    {R : Type 0}
    → (String → String)
    → String
    → String
    → Organisation
    → List (ResultView R)
    → List DseMatch
search_dse lower tenant_id q org results =
    let latest = latest_rows_by_agent (get_hierarchy_rows tenant_id org) [] in
    let counts = result_counts_by_rep tenant_id none none results in
    map dse_match (
      if nonempty (strip q)
      then search_hierarchy lower tenant_id (strip q) search_limit org
      else take search_limit (sort_active counts (map (λ e. e.1) latest)))
