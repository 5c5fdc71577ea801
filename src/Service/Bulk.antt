-- ===== src/Service/Bulk.antt =====
-- src/prooflens/service/bulk.py and the guard of src/prooflens/api/bulk.py: the registry of bulk
-- jobs, and the run of one. A job's number stands for its uuid.
pub mod Registry
pub mod Counts
pub mod Bounds
pub mod Run
use prooflens.Base.{
  ℕ, zero, ◌+◌, ◌≤◌, suc, String, Bool, true, false, not, ◌&&◌, List, [], ◌∷◌, Option, none, some,
  map, filter, count, length, leb, ◌==◌, Dict, lookup, insert, erase, nat_eq, if◌then◌else◌,
  text_take,
}
use prooflens.Vision.Schema.{Attempt, returned, raised}

pub data JobStatus : Type 0 where
  queued running done : JobStatus

pub record BulkRow : Type 0 where
  pub image_url : String
  pub rep_id : Option String
  pub opportunity_id : Option String

-- What `score_bytes` returns for a row
pub record Payload : Type 0 where
  pub payload_band : String
  pub payload_score : ℕ
  pub payload_reason_code : String
  pub payload_result_id : String

pub record BulkRowResult : Type 0 where
  pub image_url : String
  pub rep_id : Option String
  pub opportunity_id : Option String
  pub band : Option String
  pub score : Option ℕ
  pub reason_code : Option String
  pub result_id : Option String
  pub error : Option String

pub record BulkJob : Type 0 where
  pub id : ℕ
  pub total : ℕ
  pub label : Option String
  pub status : JobStatus
  pub processed : ℕ
  pub results : List BulkRowResult

abbrev pub max_retained_jobs : ℕ
max_retained_jobs = 200

abbrev pub max_inflight_jobs : ℕ
max_inflight_jobs = 3

abbrev pub Jobs : Type 0
Jobs = Dict ℕ BulkJob

abbrev pub is_done : BulkJob → Bool
is_done j = elim j.status [ done ↦ true | _ ↦ false ]

abbrev pub done_entry : Option BulkJob → Bool
done_entry none = false
done_entry (some j) = is_done j

abbrev pub new_bulk_job : ℕ → ℕ → Option String → BulkJob
new_bulk_job new_id total label = record {
  id = new_id;
  total = total;
  label = label;
  status = queued;
  processed = 0;
  results = [];
}

-- The loop of `create` over the ids, oldest first
unfoldable pub evict : ℕ → List ℕ → Jobs → Jobs
evict new_id [] jobs = jobs
evict new_id (jid ∷ ids) jobs =
    let erased = evict new_id ids (erase jid jobs) in
    let kept = evict new_id ids jobs in
    if leb (length jobs) max_retained_jobs
    then jobs
    else if not (jid == new_id) && done_entry (lookup jid jobs)
    then erased
    else kept

abbrev pub ids_of : Jobs → List ℕ
ids_of jobs = map (λ e. e.0) jobs

-- `create`
unfoldable pub create : ℕ → ℕ → Option String → Jobs → Jobs
create new_id total label jobs =
    let grown = insert new_id (new_bulk_job new_id total label) jobs in
    if leb (length grown) max_retained_jobs then grown else evict new_id (ids_of grown) grown

-- `active_count`
unfoldable pub active_count : Jobs → ℕ
active_count jobs = count (λ e. not (is_done e.1)) jobs

-- How far a request for a bulk job is: other requests run between its steps.
pub data RequestStage : Type 0 where
  arrived admitted refused started : RequestStage

-- The next step of `start_bulk_score`: the check of the jobs in flight, refused with 429, and the
-- creation of the job.
unfoldable pub start_bulk_score : ℕ → ℕ → Option String → RequestStage → Jobs → RequestStage × Jobs
start_bulk_score new_id total label arrived jobs =
    if leb max_inflight_jobs (active_count jobs) then (refused, jobs) else (admitted, jobs)
start_bulk_score new_id total label admitted jobs = (started, create new_id total label jobs)
start_bulk_score new_id total label refused jobs = (refused, jobs)
start_bulk_score new_id total label started jobs = (started, jobs)

abbrev pub empty_result : BulkRow → BulkRowResult
empty_result r = record {
  image_url = r.image_url;
  rep_id = r.rep_id;
  opportunity_id = r.opportunity_id;
  band = none;
  score = none;
  reason_code = none;
  result_id = none;
  error = none;
}

-- What `_process` writes into a row's slot
abbrev pub record_outcome : BulkRowResult → Attempt Payload → BulkRowResult
record_outcome out (returned p) = record out {
  band = some p.payload_band;
  score = some p.payload_score;
  reason_code = some p.payload_reason_code;
  result_id = some p.payload_result_id;
}
record_outcome out (raised e) = record out { error = some (text_take 500 e) }

-- `job.results[index] = ...`
abbrev pub set_at {ℓ} : {A : Type ℓ} → ℕ → (A → A) → List A → List A
set_at i f [] = []
set_at zero f (x ∷ xs) = f x ∷ xs
set_at (suc i) f (x ∷ xs) = x ∷ set_at i f xs

module _ {S Bytes : Type 0} (fetch_image : String → Attempt Bytes)
    (score_row : Bytes → BulkRow → S → Attempt Payload × S) where
  -- Fetch, then score and record; a fetch that raises leaves the store alone.
  abbrev pub score_fetched : BulkRow → Attempt Bytes → S → Attempt Payload × S
  score_fetched row (raised e) s = (raised e, s)
  score_fetched row (returned image) s = score_row image row s

  -- `_process` of one index
  unfoldable pub process : ℕ → BulkRow → BulkJob × S → BulkJob × S
  process i row (job, s) =
      let (outcome, after) = score_fetched row (fetch_image row.image_url) s in
      (
        record job {
          results = set_at i (λ out. record_outcome out outcome) job.results;
          processed = job.processed + 1;
        },
        after,
      )

  -- The tasks, in the order in which they run
  unfoldable pub process_all : List (ℕ × BulkRow) → BulkJob × S → BulkJob × S
  process_all [] state = state
  process_all ((i, row) ∷ tasks) state = process_all tasks (process i row state)

  -- `run_bulk_job` of a known tenant, with the order in which the rows run
  unfoldable pub run_bulk_job : List (ℕ × BulkRow) → List BulkRow → BulkJob × S → BulkJob × S
  run_bulk_job order rows (job, s) =
      let (ran, after) =
        process_all order (record job { status = running; results = map empty_result rows }, s) in
      (record ran { status = done }, after)

-- `run_bulk_job` of an unknown tenant
unfoldable pub run_unknown_tenant : String → List BulkRow → BulkJob → BulkJob
run_unknown_tenant message rows job = record job {
  status = done;
  results = map (λ r. record (empty_result r) { error = some message }) rows;
  processed = length rows;
}
