-- ===== src/Service/Tests.antt =====
-- Runs of src/prooflens/service, and its theorems on them.
use prooflens.Base.{
  ℕ, ◌≤◌, ◌+◌, String, ◌≡◌, refl, ◌≢◌, true, false, List, [], ◌∷◌, none, some, arith, strip,
  is_space_code, lstrip, rstrip, str_eq, if◌then◌else◌, In, lookup, insert, nat_eq,
}
use prooflens.Vision.Schema.{Attempt, returned, raised}
use prooflens.Service.Ids.{normalize_id}
use prooflens.Service.Casings.{one_letter}
use prooflens.Service.Hierarchy.{
  HierarchyRow, resolve_node, resolve_from, is_agent, node_match, branch_field,
}
use prooflens.Service.Hierarchy.Effective.{IsInForce, resolve_node-IsInForce}
use prooflens.Service.Bulk.{
  BulkRow, BulkJob, Payload, Jobs, is_done, new_bulk_job, create, done, running, start_bulk_score,
  active_count, arrived, admitted, started,
}
use prooflens.Service.Bulk.Registry.{create-keeps}
use prooflens.Service.Bulk.Bounds.{
  IsHealthy, empty, next, admits, creates, advances, RegistryReach-IsHealthy,
}

abbrev row : String → String → ℕ → HierarchyRow
row agent branch day = record {
  agent_id = some agent;
  agent_name = none;
  sm = none;
  rsm = none;
  srsm = none;
  zonal_head = none;
  branch = some branch;
  city = none;
  valid_from = day;
}

abbrev rows : List HierarchyRow
rows = row "a7" "North" 10 ∷ row "A7" "South" 30 ∷ row "B1" "East" 20 ∷ []

-- The agent's branch on a day between the two changes
north_on_day_20 : node_match one_letter rows (some " a7") 20 branch_field "North" ≡ true
unfolding node_match resolve_node resolve_from is_agent normalize_id strip lstrip rstrip
    is_space_code
north_on_day_20 = refl

resolve_node-IsInForce_example :
    ((m : HierarchyRow)
      → resolve_node one_letter rows (some "a7") 20 ≡ some m
      → In m rows
        × IsInForce one_letter rows (some "a7") 20 m
        × ((r : HierarchyRow)
            → In r rows
            → IsInForce one_letter rows (some "a7") 20 r
            → r.valid_from ≤ m.valid_from))
    × ((r : HierarchyRow)
        → In r rows
        → IsInForce one_letter rows (some "a7") 20 r
        → resolve_node one_letter rows (some "a7") 20 ≢ none)
resolve_node-IsInForce_example = resolve_node-IsInForce one_letter rows (some "a7") 20

abbrev finished : BulkJob
finished = record (new_bulk_job 1 4 none) { status = done }

abbrev two_jobs : Jobs
two_jobs = (1, finished) ∷ (2, record (new_bulk_job 2 9 none) { status = running }) ∷ []

create-keeps_example :
    (lookup 3 (create 3 5 (some "July") two_jobs) ≡ some (new_bulk_job 3 5 (some "July")))
    × ((jid : ℕ) (j : BulkJob)
        → lookup jid two_jobs ≡ some j
        → is_done j ≡ false
        → lookup jid (create 3 5 (some "July") two_jobs) ≡ some j)
create-keeps_example = create-keeps 3 5 (some "July") two_jobs refl

abbrev one_started : Jobs
one_started = (7, new_bulk_job 7 4 none) ∷ []

start_one : start_bulk_score 7 4 none admitted [] ≡ (started, one_started)
unfolding start_bulk_score create
start_one = refl

admit_one : start_bulk_score 7 4 none arrived [] ≡ (admitted, [])
unfolding start_bulk_score active_count
admit_one = refl

RegistryReach-IsHealthy_example : IsHealthy 40 (insert 7 finished one_started, 0)
RegistryReach-IsHealthy_example =
    RegistryReach-IsHealthy 40 (insert 7 finished one_started, 0) (omega arith)
      (next
        (next (next empty (admits 7 4 none (omega arith) admit_one))
          (creates 7 4 none refl start_one))
        (advances 7 finished (new_bulk_job 7 4 none) refl (λ h. refl)))

-- Two requests that check before either creates its job are both admitted with two jobs in flight.
abbrev two_in_flight : Jobs
two_in_flight = (1, new_bulk_job 1 4 none) ∷ (2, new_bulk_job 2 4 none) ∷ []

four_in_flight :
    let (first, unchanged) = start_bulk_score 3 4 none arrived two_in_flight in
    let (second, still) = start_bulk_score 4 4 none arrived unchanged in
    let (_, three) = start_bulk_score 3 4 none first still in
    let (_, four) = start_bulk_score 4 4 none second three in ◌≡◌ {A = ℕ} (active_count four) 4
unfolding start_bulk_score create active_count
four_in_flight = refl

abbrev bulk_row : String → BulkRow
bulk_row url = record { image_url = url; rep_id = some "A7"; opportunity_id = none }

abbrev bulk_rows : List BulkRow
bulk_rows = bulk_row "one" ∷ bulk_row "broken" ∷ []

abbrev fetch : String → Attempt String
fetch url = if str_eq url "broken" then raised "404" else returned url

-- A scorer that counts
abbrev score_nth : String → BulkRow → ℕ → Attempt Payload × ℕ
score_nth image r n = (
  returned (record {
    payload_band = "Clear";
    payload_score = n;
    payload_reason_code = "clear";
    payload_result_id = image;
  }),
  n + 1,
)

abbrev backwards : List (ℕ × BulkRow)
backwards = (1, bulk_row "broken") ∷ (0, bulk_row "one") ∷ []
