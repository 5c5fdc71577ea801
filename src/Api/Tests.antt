-- ===== src/Api/Tests.antt =====
-- Runs of the limiter of src/prooflens/api/ratelimit.py, and its theorems on them.
use prooflens.Base.{
  ℕ, ◌≤◌, ◌<◌, suc, min, String, ◌≡◌, refl, ◌↔◌, true, false, List, [], ◌∷◌, none, some, pos, count,
  lookup, string_eq, pair_eq, starts_with, strip, lstrip, rstrip, is_space_code, before_comma,
  lower_starts_with,
}
use prooflens.Api.RateLimit.{
  RateLimiter, Buckets, Request, passed_on, check, check_limited, pruned, retry_after, is_exempt,
  is_compute, bucket_key_of, middleware,
}
use prooflens.Api.RateLimit.Window.{Hit, allowed_of, is_own, allowed_of-window}
use prooflens.Api.RateLimit.Middleware.{middleware-compute}

abbrev limiter : RateLimiter
limiter = record { limits = ("general", pos 3) ∷ ("compute", pos 2) ∷ []; window = 60 }

abbrev hit_of : String → String → ℕ → Hit
hit_of key tier at = record { key = key; tier = tier; at = at }

abbrev hits : List Hit
hits =
    hit_of "a" "compute" 5
    ∷ hit_of "b" "compute" 6
    ∷ hit_of "a" "general" 7
    ∷ hit_of "a" "compute" 59000000
    ∷ []

-- Two of the three are allowed.
two_allowed : allowed_of limiter ("a", "compute") (hit_of "a" "compute" 0 ∷ hits) [] ≡ 2
unfolding allowed_of check check_limited pruned
two_allowed = refl

-- The third one, half a second later, waits for the rest of the window.
third_waits : (check limiter "a" "compute" 500000 ((("a", "compute"), (0, 2)) ∷ [])).0 ≡ (false, 60)
unfolding check check_limited pruned retry_after
third_waits = refl

allowed_of-window_example :
    allowed_of limiter ("a", "compute") (hit_of "a" "compute" 0 ∷ hits) []
    ≡ min (suc (count (is_own ("a", "compute")) hits)) 2
unfolding pruned
allowed_of-window_example =
    allowed_of-window limiter "a" "compute" 0 1 hits [] refl refl (refl, (refl, (refl, (refl, tt))))

abbrev full : Buckets
full = (("a", "compute"), (0, 2)) ∷ []

abbrev score_request : Request
score_request = record {
  path = "/v1/score";
  authorization = none;
  x_forwarded_for = some "10.0.0.7, 10.0.0.1";
  client_host = none;
}

abbrev same_text : String → String
same_text s = s

abbrev at_900 : String → ℕ
at_900 tier = 900

abbrev begun : Buckets
begun = (("ip:10.0.0.7", "compute"), (0, 2)) ∷ (("ip:10.0.0.7", "general"), (0, 1)) ∷ []

exempt : is_exempt score_request ≡ false
unfolding is_exempt starts_with
exempt = refl

compute : is_compute score_request ≡ true
unfolding is_compute
compute = refl

live_compute : lookup (bucket_key_of same_text score_request, "compute") begun ≡ some (0, 2)
unfolding bucket_key_of strip lstrip rstrip is_space_code before_comma lower_starts_with
live_compute = refl

live_general : lookup (bucket_key_of same_text score_request, "general") begun ≡ some (0, 1)
unfolding bucket_key_of strip lstrip rstrip is_space_code before_comma lower_starts_with
live_general = refl

middleware-compute_example :
    let (response, after) = middleware limiter same_text at_900 score_request begun in
    ((response ≡ passed_on) ↔ ((2 < 2) × (1 < 3)))
    × (lookup (bucket_key_of same_text score_request, "compute") after ≡ some (0, 3))
    × (2 < 2 → lookup (bucket_key_of same_text score_request, "general") after ≡ some (0, 2))
    × (2 ≤ 2 → lookup (bucket_key_of same_text score_request, "general") after ≡ some (0, 1))
middleware-compute_example =
    middleware-compute limiter same_text at_900 score_request begun 1 2 0 2 0 1 exempt compute refl
      refl live_compute live_general (λ tier. refl) (λ tier. refl)
