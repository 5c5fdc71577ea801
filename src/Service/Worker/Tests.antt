-- ===== src/Service/Worker/Tests.antt =====
-- Passes of src/prooflens/worker.py over a small table.
use prooflens.Base.{
  ℕ, suc, ◌+◌, ◌≡◌, refl, ◌⊎◌, inl, inr, String, Bool, false, List, [], ◌∷◌, none, map, length, In,
  ◌==◌, show_nat, arith, if◌then◌else◌,
}
use prooflens.Engine.Number.{decimals}
use prooflens.Engine.Pipeline.InMemory.{in_memory}
use prooflens.Queue.Backoff.{JobError, fatal}
use prooflens.Queue.Jobs.{
  JobStatus, queued, done, dead_letter, Settings, claim_batch, complete, fail, on_job, selected,
  sort_by_time, has_id, claim, claim_if,
}
use prooflens.Service.Processor.{JobView}
use prooflens.Service.Processor.Samples.{
  plain, flat, tenant, job, logged, no_key, start, no_time, decode,
}
use prooflens.Service.Worker.{run_once, drain}
use prooflens.Service.Worker.Settled.{Row, number}
use prooflens.Service.Worker.Counted.{done_jobs}
use prooflens.Service.Worker.Pass.{IsLeft, run_once-settles}
use prooflens.Service.Worker.Recorded.{process, run_once-recorded}

abbrev settings : Settings
settings = record {
  queue_max_attempts = 5;
  queue_backoff_base_seconds = 5;
  queue_backoff_max_seconds = 900;
}

abbrev row : ℕ → String → Row
row i tenant_id = record {
  id = i;
  tenant_id = tenant_id;
  event_id = "e";
  payload = job.payload;
  status = queued;
  attempts = 0;
  max_attempts = 5;
  scheduled_at = 0;
  locked_at = none;
  last_error = none;
}

-- A job of a known tenant, one of an unknown tenant, and one more than a batch takes
abbrev table : List Row
table = row 1 "acme" ∷ row 2 "nobody" ∷ row 3 "acme" ∷ []

abbrev unlocked : ℕ → Bool
unlocked i = false

abbrev no_wait : ℕ → ℕ
no_wait e = 0

-- A process that fails for every tenant but one
abbrev only_acme : JobView → ℕ → JobError ⊎ (ℕ × ℕ)
only_acme j w = if j.id == 2 then inl (fatal "unknown tenant") else inr (0, suc w)

first_two :
    map {B = JobStatus × ℕ}
      (λ (j : Row). (j.status, j.attempts))
      (run_once only_acme settings no_wait no_wait unlocked 9 2 table 0).table
    ≡ (done, 1) ∷ (dead_letter, 1) ∷ (queued, 0) ∷ []
unfolding run_once drain claim_batch claim claim_if selected sort_by_time has_id on_job complete
    fail
first_two = refl

run_once-settles_example :
    let (jobs, claimed) = claim_batch unlocked 9 2 table in
    let p = run_once only_acme settings no_wait no_wait unlocked 9 2 table 0 in
    ((r : Row) → In r p.table → IsLeft settings no_wait jobs claimed r)
    × (map number p.table ≡ map number claimed)
    × (done_jobs p.table ≡ done_jobs claimed + p.processed)
run_once-settles_example =
    run_once-settles only_acme settings no_wait no_wait unlocked 9 2 table 0 (omega arith)

run_once-recorded_example :
    let p =
      run_once
        (process decimals flat in_memory plain no_time decode no_key show_nat logged
          (("acme", tenant) ∷ [])
          (λ j. j.id)
          (λ j. 7)
          (λ j. 0)
          (λ j. none))
        settings
        no_wait
        no_wait
        unlocked
        9
        2
        table
        start in
    length p.world.stored.results ≡ 0 + p.processed
run_once-recorded_example =
    run_once-recorded decimals flat in_memory plain no_time decode no_key show_nat logged
      (("acme", tenant) ∷ []) (λ j. j.id) (λ j. 7) (λ j. 0) (λ j. none) settings no_wait no_wait
      unlocked 9 2 table start
