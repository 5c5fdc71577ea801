-- ===== src/Db/Repo.antt =====
-- The results of PostgresRepo in src/prooflens/db/repo.py. A query is a function of the table,
-- whose rows stand in the order of their insertion; rows of one time are listed with the later
-- first, which is one of the orders that the SQL allows. `uuid.UUID` is an argument: the canonical
-- text of a tenant's id and the number of a result, or none for its ValueError.
pub mod Refined
pub mod Recorded
mod Tests
use prooflens.Base.{
  leb, ℕ, String, Bool, true, ◌&&◌, List, [], ◌∷◌, ◌++◌, Option, none, some, pos, map, filter, find,
  length, take, drop, ltb, ◌==◌, str_eq, nonempty, date_of, if◌then◌else◌,
}
use prooflens.Engine.Number.{Float, fsum, zero_float}
use prooflens.Engine.Types.{CheckOutcome, Verdict}
use prooflens.Engine.Verdicts.{band_name, reason_value}
use prooflens.Queue.Jobs.{Job}
use prooflens.Db.Columns.{max_integer, fits, fits_or_null, storable_or_null}
use prooflens.Service.Ids.{Casing, normalize_id}
use prooflens.Service.Hierarchy.{HierarchyRow, NodeField, node_match}
use prooflens.Service.Repo.{
  ResultView, ResultQuery, asked, same_id, review_is, from_start, before_end, source_of,
}
use prooflens.Service.Nodes.{NodeFilter, every_node, no_result, at_node}
use prooflens.Service.Processor.{JobPayload}
use prooflens.Api.Scoring.{latency_or}

-- A row of results; its `created_at` is set by the server, and what its columns take is checked
-- where a row is written.
pub record ResultRow (R : Type 0) : Type 0 where
  pub id : ℕ
  pub tenant_id : String
  pub job_id : Option ℕ
  pub rep_id : Option String
  pub opportunity_id : Option String
  pub band : String
  pub score : ℕ
  pub reason : String
  pub reason_code : String
  pub rubric_version : String
  pub checks : List (CheckOutcome R)
  pub created_at : ℕ
  pub source : String
  pub copilot_summary : Option String
  pub review_status : Option String
  pub review_note : Option String
  pub reviewed_at : Option ℕ
  pub reviewer : Option String

-- `if band: query.filter(Result.band == band)`
abbrev pub band_is : Option String → String → Bool
band_is none x = true
band_is (some band) x = if nonempty band then str_eq x band else true

-- The originating job of a row, by its id
abbrev pub job_of : List (Job JobPayload) → Option ℕ → Option (Job JobPayload)
job_of jobs none = none
job_of jobs (some job_id) = find (λ j. j.id == job_id) jobs

-- `column if column is not None else payload.get(...)`
abbrev pub promoted :
    (JobPayload → Option String) → Option String → Option (Job JobPayload) → Option String
promoted field (some column) job = some column
promoted field none none = none
promoted field none (some j) = field j.payload

module _ (C : Casing) where
  -- `if rep_id is not None: query.filter(Result.rep_id == normalize_id(rep_id))`
  abbrev pub column_is : Option String → Option String → Bool
  column_is none column = true
  column_is (some want) column = same_id column (normalize_id C (some want))

module _ {R : Type 0} (C : Casing) where
  -- The filters of the query, in their order
  unfoldable pub row_matches : String → ResultQuery → ResultRow R → Bool
  row_matches tenant_id q r =
      str_eq r.tenant_id tenant_id
      && band_is q.band r.band
      && asked q.reason r.reason_code
      && column_is C q.rep_id r.rep_id
      && review_is q.review r.review_status
      && from_start q.start r.created_at
      && before_end q.end r.created_at

  abbrev pub row_is_at : List HierarchyRow → NodeField → String → ResultRow R → Bool
  row_is_at hier field node r = node_match C hier r.rep_id (date_of r.created_at) field node

module _ {R : Type 0} where
  -- `order_by(Result.created_at.desc())`
  abbrev pub insert_latest : ResultRow R → List (ResultRow R) → List (ResultRow R)
  insert_latest r [] = r ∷ []
  insert_latest r (q ∷ rows) =
      if ltb q.created_at r.created_at then r ∷ q ∷ rows else q ∷ insert_latest r rows

  unfoldable pub latest_first : List (ResultRow R) → List (ResultRow R)
  latest_first [] = []
  latest_first (r ∷ rows) = insert_latest r (latest_first rows)

module _ (F : Float) where
  open F use {Carrier}

  -- `_to_view` with the originating job
  unfoldable pub to_view : ResultRow Carrier → Option (Job JobPayload) → ResultView Carrier
  to_view r job = record {
    id = r.id;
    created_at = r.created_at;
    tenant_id = r.tenant_id;
    band = r.band;
    score = F.of_int (pos r.score);
    reason = r.reason;
    reason_code = r.reason_code;
    rubric_version = r.rubric_version;
    checks = r.checks;
    processing_ms = F.round1 (fsum F (map (latency_or (zero_float F)) r.checks));
    source = source_of (some r.source) r.job_id;
    opportunity_id = promoted (λ p. p.opportunity_id) r.opportunity_id job;
    rep_id = promoted (λ p. p.rep_id) r.rep_id job;
    review_status = r.review_status;
    review_note = r.review_note;
    reviewed_at = r.reviewed_at;
    reviewer = r.reviewer;
    copilot_summary = r.copilot_summary;
  }

  abbrev pub view_of : List (Job JobPayload) → ResultRow Carrier → ResultView Carrier
  view_of jobs r = to_view r (job_of jobs r.job_id)

  -- One page as views, and the total
  abbrev pub row_page :
      List (Job JobPayload) → ResultQuery → List (ResultRow Carrier) → List (ResultView Carrier) × ℕ
  row_page jobs q rows = (map (view_of jobs) (take q.limit (drop q.offset rows)), length rows)

  -- The rows that `list_results` asks for, newest first, without their page
  unfoldable pub rows_asked :
      Casing → String → ResultQuery → List (ResultRow Carrier) → List (ResultRow Carrier)
  rows_asked C tenant_id q table = latest_first (filter (row_matches C tenant_id q) table)

  -- `list_results`, where `hier` are the tenant's rows; none is the ValueError of a tenant's id.
  abbrev pub listed :
      Casing
      → List (Job JobPayload)
      → ResultQuery
      → NodeFilter
      → List HierarchyRow
      → List (ResultRow Carrier)
      → Option String
      → Option (List (ResultView Carrier) × ℕ)
  listed C jobs q at hier table none = none
  listed C jobs q every_node hier table (some tid) =
      some (row_page jobs q (rows_asked C tid q table))
  listed C jobs q no_result hier table (some tid) = some ([], 0)
  listed C jobs q (at_node field node) hier table (some tid) =
      some (row_page jobs q (filter (row_is_at C hier field node) (rows_asked C tid q table)))

  unfoldable pub pg_list_results :
      (String → Option String)
      → Casing
      → List (Job JobPayload)
      → String
      → ResultQuery
      → NodeFilter
      → List HierarchyRow
      → List (ResultRow Carrier)
      → Option (List (ResultView Carrier) × ℕ)
  pg_list_results uuid C jobs tenant_id q at hier table =
      listed C jobs q at hier table (uuid tenant_id)

  -- The row that `record_result` adds under a fresh id
  abbrev pub new_row :
      Casing
      → ℕ
      → ℕ
      → String
      → Option ℕ
      → Verdict Carrier
      → Option String
      → Option String
      → Option String
      → Option String
      → ResultRow Carrier
  new_row C rid now tenant_id job_id verdict opportunity_id rep_id source summary = record {
    id = rid;
    tenant_id = tenant_id;
    job_id = job_id;
    rep_id = normalize_id C rep_id;
    opportunity_id = opportunity_id;
    band = band_name verdict.band;
    score = F.to_int verdict.score;
    reason = verdict.reason;
    reason_code = reason_value verdict.reason_code;
    rubric_version = verdict.rubric_version;
    checks = verdict.checks;
    created_at = now;
    source = source_of source job_id;
    copilot_summary = summary;
    review_status = none;
    review_note = none;
    reviewed_at = none;
    reviewer = none;
  }

  -- The columns take the row; `takes_json` says it of the JSON of the checks.
  unfoldable pub is_row_storable : (List (CheckOutcome Carrier) → Bool) → ResultRow Carrier → Bool
  is_row_storable takes_json r =
      fits_or_null 200 r.rep_id
      && fits_or_null 200 r.opportunity_id
      && fits 16 r.band
      && leb r.score max_integer
      && fits 200 r.reason
      && fits 64 r.reason_code
      && fits 16 r.rubric_version
      && takes_json r.checks
      && fits 16 r.source
      && storable_or_null r.copilot_summary

  -- `record_result`: none is the error of the database for a row that does not fit.
  unfoldable pub pg_record_result :
      (List (CheckOutcome Carrier) → Bool)
      → Casing
      → ℕ
      → ℕ
      → String
      → Option ℕ
      → Verdict Carrier
      → Option String
      → Option String
      → Option String
      → Option String
      → List (ResultRow Carrier)
      → Option (List (ResultRow Carrier))
  pg_record_result takes_json C rid now tenant_id job_id verdict opportunity_id rep_id source
        summary table =
      let r = new_row C rid now tenant_id job_id verdict opportunity_id rep_id source summary in
      if is_row_storable takes_json r then some (table ++ r ∷ []) else none
