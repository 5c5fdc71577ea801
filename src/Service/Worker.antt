-- ===== src/Service/Worker.antt =====
-- src/prooflens/worker.py: one pass over the queue, with the job table of
-- src/prooflens/queue/queue.py and src/prooflens/db/repo.py. `process_job` returns the state to
-- commit, or the error after which the worker rolls back to the state before. Metrics and logs are
-- left out.
pub mod Settled
mod Counted
pub mod Pass
pub mod Recorded
mod Tests
use prooflens.Base.{ℕ, suc, List, [], ◌∷◌, Bool, ◌⊎◌, inl, inr}
use prooflens.Queue.Backoff.{JobError}
use prooflens.Queue.Jobs.{Job, Settings, claim_batch, complete, fail, on_job}
use prooflens.Service.Processor.{JobPayload, JobView}

-- `_job_view`
abbrev pub job_view : Job JobPayload → JobView
job_view j = record {
  id = j.id;
  tenant_id = j.tenant_id;
  event_id = j.event_id;
  payload = j.payload;
  attempts = j.attempts;
  max_attempts = j.max_attempts;
}

-- What a pass has done so far: the jobs it processed, the table, and the rest of the state
pub record Progress (W : Type 0) : Type 0 where
  pub processed : ℕ
  pub table : List (Job JobPayload)
  pub world : W

-- `process` stands for `process_job`; the clock gives the time of each failure.
module _ {V W : Type 0} (process : JobView → W → JobError ⊎ (V × W)) (cfg : Settings) (draw : ℕ → ℕ)
    (clock : ℕ → ℕ) where
  abbrev pub finish : Job JobPayload → JobError ⊎ (V × W) → Progress W → Progress W
  finish j (inr (verdict, world)) p = record {
    processed = suc p.processed;
    table = on_job j.id complete p.table;
    world = world;
  }
  finish j (inl e) p = record p { table = on_job j.id (fail cfg draw (clock j.id) e) p.table }

  -- The loop over the claimed jobs
  unfoldable pub drain : List (Job JobPayload) → Progress W → Progress W
  drain [] p = p
  drain (j ∷ jobs) p = drain jobs (finish j (process (job_view j) p.world) p)

  -- `run_once`
  unfoldable pub run_once : (ℕ → Bool) → ℕ → ℕ → List (Job JobPayload) → W → Progress W
  run_once locked now worker_batch_size table world =
      let (jobs, claimed) = claim_batch locked now worker_batch_size table in
      drain jobs (record { processed = 0; table = claimed; world = world })
