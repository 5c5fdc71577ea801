-- ===== src/Queue/Budget.antt =====
-- The retry budget of src/prooflens/queue/queue.py, for one job: what `fail` does for each kind of
-- error, and when a job that fails again and again is given up.
use prooflens.Base.{ℕ, ◌+◌, ◌-◌, ◌≤◌, ◌<◌, ◌≡◌, Option, none, some, arith}
use prooflens.Queue.Backoff.{JobError, fatal, overloaded, retryable, unexpected, last_message}
use prooflens.Queue.Jobs.{queued, dead_letter, Job, Settings, reschedule, fail, claim}

module _ {P : Type 0} (cfg : Settings) (draw : ℕ → ℕ) (now : ℕ) where
  -- Within the budget a job goes back to the queue, later than now; at the budget it is buried.
  pub reschedule-lem :
      (after : Option ℕ) (j : Job P)
      → (j.attempts < j.max_attempts
          → ((reschedule cfg draw now after j).status ≡ queued)
            × (now ≤ (reschedule cfg draw now after j).scheduled_at))
        × (j.max_attempts ≤ j.attempts → (reschedule cfg draw now after j).status ≡ dead_letter)
        × ((reschedule cfg draw now after j).attempts ≡ j.attempts)
        × ((reschedule cfg draw now after j).max_attempts ≡ j.max_attempts)
        × ((reschedule cfg draw now after j).locked_at ≡ none)
        × ((reschedule cfg draw now after j).id ≡ j.id)
  unfolding reschedule
  reschedule-lem after j = ground arith

  -- What one attempt at a job that was within its budget leaves of it.
  abbrev pub Outcome : JobError → Job P → Job P → Type 0
  Outcome (fatal m) j j' = (j'.status ≡ dead_letter) × (j'.attempts ≡ j.attempts + 1)
  Outcome (overloaded m after) j j' =
      (j'.status ≡ queued) × (j'.attempts ≡ j.attempts) × (now ≤ j'.scheduled_at)
  Outcome _ j j' =
      (j'.attempts ≡ j.attempts + 1)
      × (j.attempts + 1 < j.max_attempts → (j'.status ≡ queued) × (now ≤ j'.scheduled_at))
      × (j.attempts + 1 ≡ j.max_attempts → j'.status ≡ dead_letter)

  -- An attempt at a job that was within its budget ends by the kind of its error. A fatal error
  -- buries the job. An overloaded provider puts it back with the attempts it had before. A
  -- retryable error, and any other one, counts an attempt, and puts the job back where the budget
  -- allows another one and buries it otherwise. The job is then not locked, its budget is what it
  -- was, and where it waits its time is not before now.
  pub fail-claim :
      (at : ℕ) (e : JobError) (j : Job P)
      → j.attempts < j.max_attempts
      → let j' = fail cfg draw now e (claim at j) in
        Outcome e j j' × (j'.locked_at ≡ none) × (j'.max_attempts ≡ j.max_attempts)
  unfolding fail claim
  fail-claim at (fatal m) j h = ground arith
  fail-claim at (overloaded m after) j h =
      let r = reschedule-lem after (record (claim at j) {
        last_error = some (last_message (overloaded m after));
        attempts = j.attempts + 1 - 1;
      }) in
      ground (arith, r)
  fail-claim at (retryable m after) j h =
      let r =
        reschedule-lem after
          (record (claim at j) { last_error = some (last_message (retryable m after)) }) in
      ground (arith, r)
  fail-claim at (unexpected m) j h =
      let r =
        reschedule-lem none
          (record (claim at j) { last_error = some (last_message (unexpected m)) }) in
      ground (arith, r)
