-- ===== src/Queue/Sound.antt =====
-- The job state machine of src/prooflens/queue/queue.py as steps on the table, and what holds of
-- every table that they reach.
use prooflens.Base.{ℕ, ◌≤◌, ◌≢◌, Bool, List, [], String, All}
use prooflens.Queue.Backoff.{JobError}
use prooflens.Queue.Jobs.{Job, Settings, enqueue, claim_batch, complete, fail, on_job}
use prooflens.Queue.Kept.{
  fail-keeps, fail-IsSound, IsGood, complete-IsSound, complete-keeps, on_job-IsGood,
  claim_batch-IsGood, enqueue-IsGood,
}

module _ {P : Type 0} where
  -- The operations of queue.py on a table. Their arguments are arbitrary, but that a new job's id
  -- is new; a transition on a job that is not in progress is allowed too.
  pub data Step (cfg : Settings) (draw : ℕ → ℕ) : List (Job P) → List (Job P) → Type 0 where
    enqueues :
        {table : List (Job P)} (new_id now : ℕ) (t e : String) (p : P)
        → All (λ j. j.id ≢ new_id) table
        → Step cfg draw table (enqueue cfg new_id now t e p table).1
    claims :
        {table : List (Job P)} (locked : ℕ → Bool) (now limit : ℕ)
        → Step cfg draw table (claim_batch locked now limit table).1
    completes : {table : List (Job P)} (i : ℕ) → Step cfg draw table (on_job i complete table)
    fails :
        {table : List (Job P)} (i now : ℕ) (e : JobError)
        → Step cfg draw table (on_job i (fail cfg draw now e) table)

  pub data Reachable (cfg : Settings) (draw : ℕ → ℕ) : List (Job P) → Type 0 where
    empty : Reachable cfg draw []
    next :
        {table after : List (Job P)}
        → Reachable cfg draw table
        → Step cfg draw table after
        → Reachable cfg draw after

  Step-IsGood :
      (cfg : Settings) (draw : ℕ → ℕ) (table after : List (Job P))
      → 1 ≤ cfg.queue_max_attempts
      → Step cfg draw table after
      → IsGood table
      → IsGood after
  Step-IsGood cfg draw table after h (enqueues new_id now t e p fresh) g =
      enqueue-IsGood cfg new_id now t e p table h fresh g
  Step-IsGood cfg draw table after h (claims locked now limit) g =
      claim_batch-IsGood locked now limit table g
  Step-IsGood cfg draw table after h (completes i) g =
      on_job-IsGood i complete table complete-IsSound complete-keeps g
  Step-IsGood cfg draw table after h (fails i now e) g =
      on_job-IsGood i (fail cfg draw now e) table (fail-IsSound cfg draw now e)
        (fail-keeps cfg draw now e) g

  -- With a budget of at least one attempt, in every table that the operations reach from the empty
  -- one: no job has more attempts than its budget, a job that waits has one left, exactly the jobs
  -- in progress are locked, and neither a job's id nor a tenant's event occurs twice.
  pub Reachable-IsGood :
      (cfg : Settings) (draw : ℕ → ℕ) (table : List (Job P))
      → 1 ≤ cfg.queue_max_attempts
      → Reachable cfg draw table
      → IsGood table
  Reachable-IsGood cfg draw table h empty = (tt, tt, tt)
  Reachable-IsGood cfg draw table h (next {table = before} r s) =
      Step-IsGood cfg draw before table h s (Reachable-IsGood cfg draw before h r)
