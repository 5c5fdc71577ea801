-- ===== src/Queue/Jobs.antt =====
-- The table of src/prooflens/queue/queue.py and the operations on it. A job's number stands for its
-- uuid; times are microseconds. The rows that another worker holds locked are a test on the number.
use prooflens.Base.{
  ℕ, ◌+◌, ◌-◌, String, Bool, true, false, not, ◌&&◌, List, [], ◌∷◌, ◌++◌, Option, none, some, map,
  filter, count, find, take, leb, ◌==◌, str_eq, any, if◌then◌else◌,
}
use prooflens.Queue.Backoff.{
  JobError, fatal, overloaded, last_message, retry_after_of, backoff_seconds,
}

pub data JobStatus : Type 0 where
  queued in_progress done failed dead_letter : JobStatus

-- A row of jobs; what its columns take is checked where Db/JobQueue inserts it.
pub record Job (Payload : Type 0) : Type 0 where
  pub id : ℕ
  pub tenant_id : String
  pub event_id : String
  pub payload : Payload
  pub status : JobStatus
  pub attempts : ℕ
  pub max_attempts : ℕ
  pub scheduled_at : ℕ
  pub locked_at : Option ℕ
  pub last_error : Option String

pub record Settings : Type 0 where
  pub queue_max_attempts : ℕ
  pub queue_backoff_base_seconds : ℕ
  pub queue_backoff_max_seconds : ℕ

-- `status IN ('queued', 'failed')`
abbrev pub is_waiting : JobStatus → Bool
is_waiting queued = true
is_waiting failed = true
is_waiting _ = false

-- The attempts after the refund of an overloaded provider
abbrev pub refunded : JobError → ℕ → ℕ
refunded (overloaded m after) attempts = attempts - 1
refunded _ attempts = attempts

module _ {P : Type 0} where
  abbrev pub same_event : String → String → Job P → Bool
  same_event tenant_id event_id j = str_eq j.tenant_id tenant_id && str_eq j.event_id event_id

  abbrev pub new_job : Settings → ℕ → ℕ → String → String → P → Job P
  new_job cfg new_id now tenant_id event_id payload = record {
    id = new_id;
    tenant_id = tenant_id;
    event_id = event_id;
    payload = payload;
    status = queued;
    attempts = 0;
    max_attempts = cfg.queue_max_attempts;
    scheduled_at = now;
    locked_at = none;
    last_error = none;
  }

  -- `enqueue`: the job and the table after it.
  unfoldable pub enqueue :
      Settings → ℕ → ℕ → String → String → P → List (Job P) → Job P × List (Job P)
  enqueue cfg new_id now tenant_id event_id payload table =
      elim (find (same_event tenant_id event_id) table) [
        | some existing ↦ (existing, table)
        | none ↦ (
          new_job cfg new_id now tenant_id event_id payload,
          table ++ new_job cfg new_id now tenant_id event_id payload ∷ [],
        )
      ]

  -- The WHERE clause, with SKIP LOCKED.
  abbrev pub is_due : (ℕ → Bool) → ℕ → Job P → Bool
  is_due locked now j = is_waiting j.status && leb j.scheduled_at now && not (locked j.id)

  -- ORDER BY scheduled_at, jobs of one time in the table's order
  abbrev pub insert_by_time : Job P → List (Job P) → List (Job P)
  insert_by_time j [] = j ∷ []
  insert_by_time j (k ∷ js) =
      if leb j.scheduled_at k.scheduled_at then j ∷ k ∷ js else k ∷ insert_by_time j js

  unfoldable pub sort_by_time : List (Job P) → List (Job P)
  sort_by_time [] = []
  sort_by_time (j ∷ js) = insert_by_time j (sort_by_time js)

  -- The rows that the SELECT returns
  unfoldable pub selected : (ℕ → Bool) → ℕ → ℕ → List (Job P) → List (Job P)
  selected locked now limit table = take limit (sort_by_time (filter (is_due locked now) table))

  -- `Job.id.in_(ids)`
  unfoldable pub has_id : ℕ → List (Job P) → Bool
  has_id i js = any (λ j. j.id == i) js

  -- What claiming does to one job
  unfoldable pub claim : ℕ → Job P → Job P
  claim now j = record j { status = in_progress; locked_at = some now; attempts = j.attempts + 1 }

  unfoldable pub claim_if : Bool → ℕ → Job P → Job P
  claim_if true now j = claim now j
  claim_if false now j = j

  -- `claim_batch`: the claimed jobs and the table after it.
  unfoldable pub claim_batch : (ℕ → Bool) → ℕ → ℕ → List (Job P) → List (Job P) × List (Job P)
  claim_batch locked now limit table =
      let rows = selected locked now limit table in
      (
        map (claim now) (filter (λ j. has_id j.id rows) table),
        map (λ j. claim_if (has_id j.id rows) now j) table,
      )

  unfoldable pub complete : Job P → Job P
  complete j = record j { status = done; locked_at = none; last_error = none }

  abbrev pub bury : Job P → Job P
  bury j = record j { status = dead_letter; locked_at = none }

  -- The part of `fail` after the fatal case
  unfoldable pub reschedule : Settings → (ℕ → ℕ) → ℕ → Option ℕ → Job P → Job P
  reschedule cfg draw now after j = if leb j.max_attempts j.attempts then bury j else record j {
    status = queued;
    locked_at = none;
    scheduled_at =
        now
        + backoff_seconds draw j.attempts cfg.queue_backoff_base_seconds
            cfg.queue_backoff_max_seconds after;
  }

  -- `fail`
  unfoldable pub fail : Settings → (ℕ → ℕ) → ℕ → JobError → Job P → Job P
  fail cfg draw now (fatal m) j = bury (record j { last_error = some (last_message (fatal m)) })
  fail cfg draw now e j =
      reschedule cfg draw now (retry_after_of e)
        (record j { last_error = some (last_message e); attempts = refunded e j.attempts })

  -- An operation on the row of one job
  unfoldable pub on_job : ℕ → (Job P → Job P) → List (Job P) → List (Job P)
  on_job i f table = map (λ j. if j.id == i then f j else j) table

  unfoldable pub depth : List (Job P) → ℕ
  depth table = count (λ j. is_waiting j.status) table
