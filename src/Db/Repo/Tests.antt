-- ===== src/Db/Repo/Tests.antt =====
-- The results of src/prooflens/db/repo.py and src/prooflens/service/repo.py on small tables.
use prooflens.Base.{
  ℕ, Bool, true, String, ◌≡◌, refl, ◌≢◌, ◌⊎◌, inl, List, [], ◌∷◌, Option, none, some, All, arith,
  if◌then◌else◌, strip, lstrip, rstrip, is_space_code, str_eq, map,
}
use prooflens.Engine.Number.{decimals}
use prooflens.Engine.Verdicts.{Band, Reason}
use prooflens.Engine.Types.{Verdict, CheckOutcome}
use prooflens.Queue.Jobs.{Job}
use prooflens.Service.Ids.{normalize_id}
use prooflens.Service.Repo.{ResultView, ResultQuery, record_review, record_result}
use prooflens.Service.Nodes.{every_node, list_node_results}
use prooflens.Service.Processor.{JobPayload}
use prooflens.Service.Processor.Samples.{plain}
use prooflens.Api.Scoring.{processing_ms}
use prooflens.Db.Repo.{
  ResultRow, to_view, latest_first, is_row_storable, row_matches, rows_asked, pg_list_results,
  pg_record_result,
}
use prooflens.Db.Repo.Refined.{IsChronological, IsCurrent, view_list, pg_list_results-refines}
use prooflens.Db.Repo.Recorded.{rounded, pg_record_result-refines}
use prooflens.Db.Reviews.{Tables, pg_record_review}
use prooflens.Db.Reviews.Refined.{shown, shown_outcome, pg_record_review-refines}

abbrev row : ℕ → String → ResultRow ℕ
row id tenant_id = record {
  id = id;
  tenant_id = tenant_id;
  job_id = none;
  rep_id = some "A7";
  opportunity_id = none;
  band = "Clear";
  score = 90;
  reason = "";
  reason_code = "clear";
  rubric_version = "v3";
  checks = [];
  created_at = id;
  source = "direct";
  copilot_summary = none;
  review_status = none;
  review_note = none;
  reviewed_at = none;
  reviewer = none;
}

abbrev table : List (ResultRow ℕ)
table = row 1 "acme" ∷ row 2 "birch" ∷ row 3 "acme" ∷ []

abbrev no_jobs : List (Job JobPayload)
no_jobs = []

abbrev first_page : ResultQuery
first_page = record {
  limit = 1;
  offset = 0;
  band = some "Clear";
  review = some "pending";
  reason = none;
  rep_id = some " A7 ";
  start = none;
  end = none;
}

abbrev canonical : String → Option String
canonical s = some s

-- The newest row of the tenant is the page, and both are counted.
newest : map {B = ℕ} (λ r. r.id) (rows_asked decimals plain "acme" first_page table) ≡ 3 ∷ 1 ∷ []
unfolding rows_asked latest_first row_matches normalize_id strip lstrip rstrip is_space_code
newest = refl

clear_not_blank : first_page.band ≢ some ""
clear_not_blank h = absurd (ne h)
  where
    ne : ◌≡◌ {A = Option String} (some "Clear") (some "") → ⊥
    ne e = cc

table-IsCurrent : All (IsCurrent decimals plain no_jobs) table
unfolding to_view normalize_id strip lstrip rstrip is_space_code
table-IsCurrent = ((refl, refl), ((refl, refl), ((refl, refl), tt)))

table-IsChronological : IsChronological table
table-IsChronological = ((omega arith, (omega arith, tt)), ((omega arith, tt), (tt, tt)))

pg_list_results-refines_example :
    pg_list_results decimals canonical plain no_jobs "acme" first_page every_node [] table
    ≡ some (
        list_node_results plain "acme" first_page every_node []
          (record { results = view_list decimals plain no_jobs table; audit_log = [] }))
pg_list_results-refines_example =
    pg_list_results-refines decimals plain no_jobs canonical "acme" first_page every_node [] table
      [] refl clear_not_blank table-IsCurrent table-IsChronological

abbrev verdict : Verdict ℕ
verdict = record {
  band = Band.clear;
  score = 91500;
  reason = "";
  reason_code = Reason.clear;
  checks = [];
  rubric_version = "v3";
}

-- Every JSON is taken.
abbrev any_json : List (CheckOutcome ℕ) → Bool
any_json checks = true

pg_record_result-refines_example :
    (table' : List (ResultRow ℕ)) × (pg_record_result decimals any_json plain 4 9 "acme" none
        verdict none
        (some "a8")
        none
        none
        table
      ≡ some table')
    × (view_list decimals plain no_jobs table'
        ≡ (record_result plain 4 9
            (processing_ms decimals verdict)
            "acme"
            none
            (rounded decimals verdict)
            none
            (some "a8")
            none
            none
            (record { results = view_list decimals plain no_jobs table; audit_log = [] })).results)
    × All (IsCurrent decimals plain no_jobs) table'
    × IsChronological table'
unfolding normalize_id strip lstrip rstrip is_space_code is_row_storable
pg_record_result-refines_example =
    pg_record_result-refines decimals plain no_jobs any_json 4 9 "acme" none verdict none
      (some "a8") none none table [] refl refl refl table-IsCurrent table-IsChronological
      (omega arith, (omega arith, (omega arith, tt)))

abbrev number_of : String → Option ℕ
number_of s = if str_eq s "3" then some 3 else none

abbrev tables : Tables ℕ
tables = record { rows = table; audit = [] }

pg_record_review-refines_example :
    (r : Option (ResultView ℕ) × Tables ℕ) × (pg_record_review decimals number_of canonical no_jobs
        "3" "reject" none "mod" 50 "acme" tables
      ≡ some r)
    × (((rid : ℕ) × (number_of "3" ≡ some rid)
          × (record_review rid "reject" none "mod" 50 "acme" (shown decimals no_jobs tables)
              ≡ shown_outcome decimals no_jobs r))
        ⊎ (((number_of "3" ≡ none) ⊎ (canonical "acme" ≡ none)) × (r ≡ (none, tables))))
pg_record_review-refines_example =
    pg_record_review-refines decimals no_jobs number_of canonical "3" "reject" none "mod" 50 "acme"
      tables refl (inl refl)
