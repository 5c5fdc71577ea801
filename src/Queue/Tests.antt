-- ===== src/Queue/Tests.antt =====
-- Runs of the queue of src/prooflens/queue, and its theorems on them.
use prooflens.Base.{
  ℕ, ◌*◌, ◌≤◌, ◌≡◌, refl, ◌⊎◌, Bool, false, List, [], ◌∷◌, ◌++◌, none, some, String, arith, length,
  In, map,
}
use prooflens.Queue.Backoff.{
  JobError, fatal, overloaded, retryable, unexpected, micros, backoff_seconds,
}
use prooflens.Queue.Jobs.{
  queued, dead_letter, Job, Settings, new_job, enqueue, is_due, selected, sort_by_time, has_id,
  claim, claim_batch, complete, reschedule, fail, on_job, depth,
}
use prooflens.Queue.Budget.{Outcome, fail-claim}
use prooflens.Queue.Retries.{Attempt, attempt_all, attempt_all-exhausted}
use prooflens.Queue.Claim.{IsDistinct, claim_batch-lem, IsClaimable, IsClaimed}
use prooflens.Queue.Kept.{IsGood}
use prooflens.Queue.Sound.{enqueues, claims, completes, fails, empty, next, Reachable-IsGood}
use prooflens.Queue.Idempotent.{stay, step, enqueue-redelivered}

abbrev settings : Settings
settings = record {
  queue_max_attempts = 3;
  queue_backoff_base_seconds = 5;
  queue_backoff_max_seconds = 900;
}

-- A draw in the middle
abbrev middle : ℕ → ℕ
middle e = e * 500000

abbrev job_at : ℕ → String → ℕ → Job String
job_at i event time = new_job settings i time "acme" event "image"

abbrev table : List (Job String)
table = job_at 1 "a" 30 ∷ job_at 2 "b" 10 ∷ job_at 3 "c" 99 ∷ []

abbrev unlocked : ℕ → Bool
unlocked i = false

-- The job due first is claimed.
first_claim : map (λ (j : Job String). j.id) (claim_batch unlocked 50 1 table).0 ≡ 2 ∷ []
unfolding claim_batch selected sort_by_time has_id claim
first_claim = refl

-- A retry waits within its ceiling: half of five seconds after the first attempt.
first_retry :
    (fail settings middle 100 (retryable "timeout" none) (claim 50 (job_at 1 "a" 30))).scheduled_at
    ≡ 2500100
unfolding fail reschedule backoff_seconds claim
first_retry = refl

two_wait : depth table ≡ 3
unfolding depth
two_wait = refl

middle_fits : (e : ℕ) → middle e ≤ micros e
middle_fits e = omega arith

fail-claim_example :
    let j = job_at 1 "a" 30 in
    let j' = fail settings middle 100 (overloaded "529" none) (claim 50 j) in
    Outcome settings middle 100 (overloaded "529" none) j j'
    × (j'.locked_at ≡ none)
    × (j'.max_attempts ≡ 3)
fail-claim_example =
    fail-claim settings middle 100 50 (overloaded "529" none) (job_at 1 "a" 30) (omega arith)

abbrev try_with : JobError → Attempt
try_with e = record { claimed_at = 50; failed_at = 100; error = e }

abbrev two_timeouts : List Attempt
two_timeouts =
    try_with (retryable "timeout" none)
    ∷ try_with (overloaded "529" (some 5))
    ∷ try_with (unexpected "broken pipe")
    ∷ []

attempt_all-exhausted_example :
    ((attempt_all settings middle two_timeouts (job_at 1 "a" 30)).status ≡ queued)
    × ((attempt_all settings middle
          (two_timeouts ++ try_with (unexpected "again") ∷ [])
          (job_at 1 "a" 30)).status
        ≡ dead_letter)
attempt_all-exhausted_example =
    attempt_all-exhausted settings middle two_timeouts (try_with (unexpected "again"))
      (job_at 1 "a" 30) refl (refl, (refl, (refl, tt))) refl (omega arith)

table-IsDistinct : IsDistinct table
table-IsDistinct = (
  ((λ e. omega (arith, e)), ((λ e. omega (arith, e)), tt)),
  (((λ e. omega (arith, e)), tt), (tt, tt)),
)

claim_batch-lem_example :
    let (jobs, after) = claim_batch unlocked 50 1 table in
    (length jobs ≤ 1)
    × ((j : Job String)
        → In j jobs
        → (old : Job String) × In old table
          × IsClaimable unlocked 50 old
          × IsClaimed 50 old j
          × In j after)
    × ((old : Job String) → In old table → is_due unlocked 50 old ≡ false → In old after)
    × ((old : Job String)
        → In old table
        → IsClaimable unlocked 50 old
        → In (claim 50 old) jobs
          ⊎ (In old after
              × (length (selected unlocked 50 1 table) ≡ 1)
              × ((r : Job String)
                  → In r (selected unlocked 50 1 table)
                  → r.scheduled_at ≤ old.scheduled_at)))
claim_batch-lem_example = claim_batch-lem unlocked 50 1 table table-IsDistinct

abbrev enqueued : List (Job String)
enqueued = (enqueue settings 1 10 "acme" "a" "image" []).1

abbrev claimed : List (Job String)
claimed = (claim_batch unlocked 50 8 enqueued).1

Reachable-IsGood_example : IsGood (on_job 1 (fail settings middle 90 (fatal "no image")) claimed)
Reachable-IsGood_example = Reachable-IsGood settings middle _ (omega arith) (
    next (next (next empty (enqueues 1 10 "acme" "a" "image" tt)) (claims unlocked 50 8))
      (fails 1 90 (fatal "no image")))

enqueue-redelivered_example :
    let later = on_job 1 complete (claim_batch unlocked 50 8 enqueued).1 in
    (enqueue settings 2 99 "acme" "a" "image" later).1 ≡ later
enqueue-redelivered_example =
    enqueue-redelivered settings middle 1 10 "acme" "a" "image" [] _ 2 99 "image"
      (step (step stay (claims unlocked 50 8)) (completes 1))
