-- ===== src/Db/JobQueue.antt =====
-- The queue of PostgresRepo in src/prooflens/db/repo.py, over the jobs table of
-- src/prooflens/queue/queue.py and src/prooflens/db/models.py.
use prooflens.Base.{
  ℕ, String, Bool, true, false, ◌&&◌, List, Option, none, some, map, find, if◌then◌else◌,
}
use prooflens.Queue.Backoff.{JobError}
use prooflens.Queue.Jobs.{Job, Settings, same_event, enqueue, claim_batch, complete, fail, on_job}
use prooflens.Service.Processor.{JobPayload, JobView}
use prooflens.Service.Worker.{job_view}
use prooflens.Db.Columns.{is_storable, fits, storable_or_null}

-- The id of the job, and whether it was created
abbrev pub Enqueued : Type 0
Enqueued = (ℕ × Bool) × List (Job JobPayload)

-- The columns event_id and payload of a new job take their values.
abbrev pub is_job_storable : String → JobPayload → Bool
is_job_storable event_id p =
    fits 200 event_id
    && storable_or_null p.image_base64
    && storable_or_null p.image_url
    && storable_or_null p.rep_id
    && storable_or_null p.opportunity_id
    && storable_or_null p.captured_at

module _ (cfg : Settings) where
  -- none is the error of the database for a job that does not fit.
  abbrev pub insert_job :
      ℕ → ℕ → String → String → JobPayload → List (Job JobPayload) → Option Enqueued
  insert_job new_id now tid event_id payload table =
      let (job, table') = enqueue cfg new_id now tid event_id payload table in
      if is_job_storable event_id payload then some ((job.id, true), table') else none

  abbrev pub enqueue_if_new :
      ℕ
      → ℕ
      → String
      → String
      → JobPayload
      → List (Job JobPayload)
      → Option (Job JobPayload)
      → Option Enqueued
  enqueue_if_new new_id now tid event_id payload table (some existing) =
      some ((existing.id, false), table)
  enqueue_if_new new_id now tid event_id payload table none =
      insert_job new_id now tid event_id payload table

  -- `enqueue`; a query for a text with the character 0 raises, too.
  unfoldable pub pg_enqueue :
      ℕ → ℕ → String → String → JobPayload → List (Job JobPayload) → Option Enqueued
  pg_enqueue new_id now tid event_id payload table =
      if is_storable event_id
      then enqueue_if_new new_id now tid event_id payload table
          (find (same_event tid event_id) table)
      else none

  -- `claim_batch`, `complete` and `fail`
  unfoldable pub pg_claim_batch :
      (ℕ → Bool) → ℕ → ℕ → List (Job JobPayload) → List JobView × List (Job JobPayload)
  pg_claim_batch locked now limit table =
      let (jobs, table') = claim_batch locked now limit table in (map job_view jobs, table')

  unfoldable pub pg_complete : ℕ → List (Job JobPayload) → List (Job JobPayload)
  pg_complete job_id table = on_job job_id complete table

  unfoldable pub pg_fail :
      (ℕ → ℕ) → ℕ → ℕ → JobError → List (Job JobPayload) → List (Job JobPayload)
  pg_fail draw now job_id error table = on_job job_id (fail cfg draw now error) table
