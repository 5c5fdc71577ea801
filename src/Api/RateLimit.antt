-- ===== src/Api/RateLimit.antt =====
-- src/prooflens/api/ratelimit.py: the limiter and its middleware. Times are whole microseconds and
-- the window is in whole seconds; SHA-256 is the argument `digest`.
pub mod Window
pub mod Middleware
use prooflens.Base.{
  ℕ, ◌+◌, ◌-◌, ◌*◌, ◌/◌, ◌≤◌, suc, String, Bool, true, false, not, ◌&&◌, ◌||◌, List, [], ◌∷◌, ◌++◌,
  Option, none, some, filter, length, leb, ltb, ℤ, pos, negsuc, pos_part, ltb_ℤ, leb_ℤ, Dict,
  lookup, insert, string_eq, pair_eq, or_else, min, max, if◌then◌else◌, str_eq, any, starts_with,
  lower_starts_with, before_comma, strip, nonempty, text_take, text_drop, text_append,
}

-- (window_start, count)
abbrev pub Bucket : Type 0
Bucket = ℕ × ℕ

abbrev pub Buckets : Type 0
Buckets = Dict (String × String) Bucket

pub record RateLimiter : Type 0 where
  pub limits : Dict String ℤ
  pub window : ℕ

abbrev pub prune_threshold : ℕ
prune_threshold = 10000

-- A duration in microseconds
abbrev pub ticks : ℕ → ℕ
ticks seconds = seconds * 1000000

-- `t - start >= self._window`
abbrev pub is_over : RateLimiter → ℕ → ℕ → Bool
is_over limiter start t = leb (start + ticks limiter.window) t

unfoldable pub prune : RateLimiter → ℕ → Buckets → Buckets
prune limiter t buckets = filter (λ b. not (is_over limiter b.1.0 t)) buckets

-- The buckets after the prune of an overfull table
unfoldable pub pruned : RateLimiter → ℕ → Buckets → Buckets
pruned limiter t buckets =
    if ltb prune_threshold (length buckets) then prune limiter t buckets else buckets

-- The window that a request at `t` falls in, before it is counted.
abbrev pub current : RateLimiter → ℕ → Option Bucket → Bucket
current limiter t none = (t, 0)
current limiter t (some (start, count)) = if is_over limiter start t then (t, 0) else (start, count)

-- `max(1, min(int(window - (t - start)) + 1, window))`
unfoldable pub retry_after : RateLimiter → ℕ → ℕ → ℕ
retry_after limiter start t =
    max 1 (min ((start + ticks limiter.window - t) / 1000000 + 1) limiter.window)

-- `check` with a limit above 0: allowed, seconds to wait, the buckets after it.
unfoldable pub check_limited :
    RateLimiter → ℕ → String × String → ℕ → Buckets → (Bool × ℕ) × Buckets
check_limited limiter limit key t buckets =
    let kept = pruned limiter t buckets in
    let (start, count) = current limiter t (lookup key kept) in
    (
      if ltb limit (suc count) then (false, retry_after limiter start t) else (true, 0),
      insert key (start, suc count) kept,
    )

-- `check`
unfoldable pub check : RateLimiter → String → String → ℕ → Buckets → (Bool × ℕ) × Buckets
check limiter bucket_key tier t buckets =
    let limit = or_else (lookup tier limiter.limits) (pos 0) in
    let limited = check_limited limiter (pos_part limit) (bucket_key, tier) t buckets in
    if leb_ℤ limit (pos 0) then ((true, 0), buckets) else limited

-- What the middleware reads of a request
pub record Request : Type 0 where
  pub path : String
  pub authorization : Option String
  pub x_forwarded_for : Option String
  pub client_host : Option String

abbrev pub address_of : Request → String
address_of r =
    if nonempty (or_else r.x_forwarded_for "")
    then strip (before_comma (or_else r.x_forwarded_for ""))
    else or_else r.client_host "unknown"

-- `_bucket_key`
unfoldable pub bucket_key_of : (String → String) → Request → String
bucket_key_of digest r =
    let auth = or_else r.authorization "" in
    let raw = strip (text_drop 7 auth) in
    if lower_starts_with auth "bearer " && nonempty raw
    then text_append "k:" (text_take 32 (digest raw))
    else text_append "ip:" (address_of r)

abbrev pub compute_paths : List String
compute_paths = "/v1/score" ∷ "/v1/bulk-score" ∷ []

abbrev pub exempt_prefixes : List String
exempt_prefixes = "/v1/webhooks/" ∷ []

-- The requests that the middleware passes on at once
unfoldable pub is_exempt : Request → Bool
is_exempt r = not (starts_with r.path "/v1/") || any (λ p. starts_with r.path p) exempt_prefixes

unfoldable pub is_compute : Request → Bool
is_compute r = any (λ p. str_eq r.path p) compute_paths

abbrev pub tiers_of : Request → List String
tiers_of r = if is_compute r then "compute" ∷ "general" ∷ [] else "general" ∷ []

-- The response: passed on, or 429 with Retry-After.
pub data Response : Type 0 where
  passed_on : Response
  too_many : ℕ → Response

-- The tiers in order; `t tier` is the time that `check` reads for the tier.
unfoldable pub check_tiers :
    RateLimiter → String → (String → ℕ) → List String → Buckets → Response × Buckets
check_tiers limiter bkey t [] buckets = (passed_on, buckets)
check_tiers limiter bkey t (tier ∷ tiers) buckets =
    let ((allowed, retry), after) = check limiter bkey tier (t tier) buckets in
    let rest = check_tiers limiter bkey t tiers after in
    if allowed then rest else (too_many retry, after)

-- The middleware
unfoldable pub middleware :
    RateLimiter → (String → String) → (String → ℕ) → Request → Buckets → Response × Buckets
middleware limiter digest t r buckets =
    if is_exempt r
    then (passed_on, buckets)
    else check_tiers limiter (bucket_key_of digest r) t (tiers_of r) buckets
