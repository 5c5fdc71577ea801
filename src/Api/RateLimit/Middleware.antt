-- ===== src/Api/RateLimit/Middleware.antt =====
-- The two tiers of the middleware of src/prooflens/api/ratelimit.py.
use prooflens.Base.{
  ℕ, ◌≤◌, ◌<◌, suc, String, ◌≡◌, refl, sym, ap, ◌≢◌, ◌↔◌, Bool, true, false, not, some, ltb, pos,
  lookup, string_eq, pair_eq, eq_iff, if◌then◌else◌, arith,
}
use prooflens.Api.RateLimit.{
  Buckets, RateLimiter, is_over, check, Request, Response, passed_on, too_many, bucket_key_of,
  is_exempt, is_compute, check_tiers, middleware,
}
use prooflens.Api.RateLimit.Window.{check-own, check-other}

tiers-ne : {key : String} → ◌≢◌ {A = String × String} (key, "compute") (key, "general")
tiers-ne h = text_ne ((eq_iff "compute" "general").1 (ap (λ x. x.1) h))
  where
    text_ne : false ≡ true → ⊥
    text_ne e = cc

-- The answer of the two tiers, one after the other
abbrev chain : {S : Type 0} → Bool → Bool → ℕ → ℕ → S → S → Response × S
chain x y p q a b =
    if x then if◌then◌else◌ {A = Response × _} y (passed_on, b) (too_many q, b) else (too_many p, a)

chain-lem :
    {S : Type 0} (x y : Bool) (p q m n c d : ℕ) (a b : S) (C Q R : S → Type 0)
    → x ≡ not (ltb (suc m) (suc c))
    → y ≡ not (ltb (suc n) (suc d))
    → C a
    → C b
    → Q a
    → R b
    → let (response, after) = chain x y p q a b in
      ((response ≡ passed_on) ↔ ((c < suc m) × (d < suc n)))
      × C after
      × (c < suc m → R after)
      × (suc m ≤ c → Q after)
chain-lem true true p q m n c d a b C Q R x y ca cb qa rb =
    (((λ h. ground arith), (λ h. refl)), cb, (λ h. rb), (λ h. absurd (ground arith)))
chain-lem true false p q m n c d a b C Q R x y ca cb qa rb =
    (((λ h. cc), (λ h. absurd (ground arith))), cb, (λ h. rb), (λ h. absurd (ground arith)))
chain-lem false y p q m n c d a b C Q R x ye ca cb qa rb =
    (((λ h. cc), (λ h. absurd (ground arith))), ca, (λ h. absurd (ground arith)), (λ h. qa))

module _ (limiter : RateLimiter) (digest : String → String) (t : String → ℕ) (r : Request)
    (b : Buckets) where
  -- A window of the request's key in that tier which has begun at `s` and counted `c`
  abbrev pub IsLive : String → ℕ → ℕ → Buckets → Type 0
  IsLive tier s c buckets = lookup (bucket_key_of digest r, tier) buckets ≡ some (s, c)

  -- A request to a compute path, in live windows of both tiers, is passed on exactly where it is
  -- within both limits. It is counted in the compute tier in any case, and in the general one only
  -- where the compute tier lets it through.
  pub middleware-compute :
      (m n s c u d : ℕ)
      → is_exempt r ≡ false
      → is_compute r ≡ true
      → lookup "compute" limiter.limits ≡ some (pos (suc m))
      → lookup "general" limiter.limits ≡ some (pos (suc n))
      → IsLive "compute" s c b
      → IsLive "general" u d b
      → ((tier : String) → is_over limiter s (t tier) ≡ false)
      → ((tier : String) → is_over limiter u (t tier) ≡ false)
      → let (response, after) = middleware limiter digest t r b in
        ((response ≡ passed_on) ↔ ((c < suc m) × (d < suc n)))
        × IsLive "compute" s (suc c) after
        × (c < suc m → IsLive "general" u (suc d) after)
        × (suc m ≤ c → IsLive "general" u d after)
  unfolding middleware check_tiers
  middleware-compute m n s c u d e k lc lg wc wg oc og =
      let key = bucket_key_of digest r in
      let first =
        check-own limiter (key, "compute") key "compute" (t "compute") b m s c refl lc wc
          (oc "compute") in
      let b1 = (check limiter key "compute" (t "compute") b).1 in
      let general1 =
        check-other limiter (key, "general") key "compute" (t "compute") b u d
          (λ same. tiers-ne same) wg (og "compute") in
      let second =
        check-own limiter (key, "general") key "general" (t "general") b1 n u d refl lg general1
          (og "general") in
      let compute2 =
        check-other limiter (key, "compute") key "general" (t "general") b1 s (suc c)
          (λ same. tiers-ne (sym same)) first.1 (oc "general") in
      rw (e, k)
        (chain-lem (check limiter key "compute" (t "compute") b).0.0
          (check limiter key "general" (t "general") b1).0.0
          (check limiter key "compute" (t "compute") b).0.1
          (check limiter key "general" (t "general") b1).0.1 m n c d b1
          (check limiter key "general" (t "general") b1).1 (IsLive "compute" s (suc c))
          (IsLive "general" u d) (IsLive "general" u (suc d)) first.0 second.0 first.1 compute2
          general1 second.1)
