-- ===== src/Queue/Backoff.antt =====
-- src/prooflens/queue/backoff.py and errors.py: how a failed job is put off. Base and maximum are
-- whole seconds, as the settings give them. A delay is counted in microseconds, the unit in which
-- `timedelta` keeps it. `draw e` is the outcome of `random.uniform(0, e)`.
use prooflens.Base.{ℕ, ◌-◌, ◌*◌, ◌^◌, Option, none, some, String, min, max, text_take}

-- The exceptions of errors.py, and any other one.
pub data JobError : Type 0 where
  fatal : String → JobError
  overloaded : String → Option ℕ → JobError
  retryable : String → Option ℕ → JobError
  unexpected : String → JobError

abbrev pub message : JobError → String
message (fatal m) = m
message (overloaded m after) = m
message (retryable m after) = m
message (unexpected m) = m

-- `str(error)[:2000]`
abbrev pub last_message : JobError → String
last_message e = text_take 2000 (message e)

-- `error.retry_after` where the error has one
abbrev pub retry_after_of : JobError → Option ℕ
retry_after_of (overloaded m after) = after
retry_after_of (retryable m after) = after
retry_after_of _ = none

-- `min(maximum, base * (2 ** max(0, attempts - 1)))`, in seconds
abbrev pub ceiling : ℕ → ℕ → ℕ → ℕ
ceiling attempts base maximum = min maximum (base * 2 ^ (attempts - 1))

abbrev pub micros : ℕ → ℕ
micros seconds = seconds * 1000000

unfoldable pub backoff_seconds : (ℕ → ℕ) → ℕ → ℕ → ℕ → Option ℕ → ℕ
backoff_seconds draw attempts base maximum none = draw (ceiling attempts base maximum)
backoff_seconds draw attempts base maximum (some after) =
    max after (draw (ceiling attempts base maximum))
