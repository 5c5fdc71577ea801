-- ===== src/Queue/Retries.antt =====
-- A job's attempts one after another (claim_batch and fail of src/prooflens/queue/queue.py): when
-- it is given up.
use prooflens.Base.{
  ℕ, ◌+◌, ◌<◌, ◌≡◌, refl, Bool, true, false, List, [], ◌∷◌, ◌++◌, arith, count, All, suc,
  if◌then◌else◌,
}
use prooflens.Queue.Backoff.{JobError, fatal, overloaded, retryable, unexpected}
use prooflens.Queue.Jobs.{queued, dead_letter, Job, Settings, fail, claim}
use prooflens.Queue.Budget.{fail-claim}

-- The time a job is claimed at, the time it fails at, and its error.
pub record Attempt : Type 0 where
  pub claimed_at : ℕ
  pub failed_at : ℕ
  pub error : JobError

abbrev counting : JobError → Bool
counting (retryable m after) = true
counting (unexpected m) = true
counting _ = false

abbrev returning : JobError → Bool
returning (fatal m) = false
returning _ = true

-- The error counts against the budget.
abbrev pub counts : Attempt → Bool
counts a = counting a.error

-- The error is not a fatal one.
abbrev pub returns : Attempt → Bool
returns a = returning a.error

counting-returning : (e : JobError) → counting e ≡ true → returning e ≡ true
counting-returning (fatal m) c = cc
counting-returning (overloaded m after) c = refl
counting-returning (retryable m after) c = refl
counting-returning (unexpected m) c = refl

module _ {P : Type 0} (cfg : Settings) (draw : ℕ → ℕ) where
  -- The job after these attempts.
  unfoldable pub attempt_all : List Attempt → Job P → Job P
  attempt_all [] j = j
  attempt_all (a ∷ rest) j =
      attempt_all rest (fail cfg draw a.failed_at a.error (claim a.claimed_at j))

  -- One attempt, where there are attempts left after it or it is the last one.
  attempt-step :
      (now at : ℕ) (e : JobError) (j : Job P) (later : ℕ)
      → returning e ≡ true
      → j.attempts < j.max_attempts
      → let j' = fail cfg draw now e (claim at j) in
        (j'.max_attempts ≡ j.max_attempts)
        × (j'.attempts + later ≡ j.attempts + (if counting e then suc later else later))
        × (j'.attempts < j.max_attempts → j'.status ≡ queued)
        × (j'.attempts ≡ j.max_attempts → j'.status ≡ dead_letter)
  attempt-step now at (fatal m) j later r h = cc
  attempt-step now at (overloaded m after) j later r h =
      ground (arith, fail-claim cfg draw now at (overloaded m after) j h)
  attempt-step now at (retryable m after) j later r h =
      ground (arith, fail-claim cfg draw now at (retryable m after) j h)
  attempt-step now at (unexpected m) j later r h =
      ground (arith, fail-claim cfg draw now at (unexpected m) j h)

  -- A job that waits with attempts left goes through any tries that are not fatal and of which
  -- fewer count than it has attempts left: it waits again, and the tries that count are counted.
  -- Tries that an overloaded provider spoiled are not, however many they are.
  pub attempt_all-waits :
      (tries : List Attempt) (j : Job P)
      → j.status ≡ queued
      → All (λ a. returns a ≡ true) tries
      → j.attempts + count counts tries < j.max_attempts
      → ((attempt_all tries j).status ≡ queued)
        × ((attempt_all tries j).attempts ≡ j.attempts + count counts tries)
        × ((attempt_all tries j).max_attempts ≡ j.max_attempts)
  unfolding attempt_all
  attempt_all-waits [] j q h b = (q, omega arith, refl)
  attempt_all-waits (a ∷ rest) j q h b =
      let j' = fail cfg draw a.failed_at a.error (claim a.claimed_at j) in
      let (m, n, w, d) =
        attempt-step a.failed_at a.claimed_at a.error j (count counts rest) h.0 (ground arith) in
      let (s, t, u) = attempt_all-waits rest j' (w (ground arith)) h.1 (ground arith) in
      (s, ground arith, ground arith)

  attempt_all-append :
      (tries : List Attempt) (a : Attempt) (j : Job P)
      → attempt_all (tries ++ a ∷ []) j
        ≡ fail cfg draw a.failed_at a.error (claim a.claimed_at (attempt_all tries j))
  unfolding attempt_all
  attempt_all-append [] a j = refl
  attempt_all-append (b ∷ rest) a j = attempt_all-append rest a _

  -- A job that waits is given up exactly when its budget is spent: tries that are not fatal leave
  -- it waiting while those that count are fewer than its attempts left, and one more that counts,
  -- where only one attempt was left, buries it.
  pub attempt_all-exhausted :
      (tries : List Attempt) (last : Attempt) (j : Job P)
      → j.status ≡ queued
      → All (λ a. returns a ≡ true) tries
      → counts last ≡ true
      → j.attempts + count counts tries + 1 ≡ j.max_attempts
      → ((attempt_all tries j).status ≡ queued)
        × ((attempt_all (tries ++ last ∷ []) j).status ≡ dead_letter)
  attempt_all-exhausted tries last j q h c b =
      let (s, t, u) = attempt_all-waits tries j q h (omega arith) in
      let (m, n, w, d) =
        attempt-step last.failed_at last.claimed_at last.error (attempt_all tries j) 0
          (counting-returning last.error c) (omega arith) in
      (s, rw (attempt_all-append tries last j) (d (ground arith)))
