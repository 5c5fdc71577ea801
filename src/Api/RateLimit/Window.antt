-- ===== src/Api/RateLimit/Window.antt =====
-- How many requests of one key the limiter of src/prooflens/api/ratelimit.py allows in a window.
use prooflens.Base.{
  ℕ, ◌-◌, suc, String, ◌≡◌, refl, sym, ap, ◌∙◌, subst, ◌≢◌, ◌⊎◌, inl, inr, Bool, true, false, not,
  ◌&&◌, List, [], ◌∷◌, Option, some, count, All, ltb, ℤ, pos, pos_part, lookup, string_eq, pair_eq,
  pair_beq, pair_beq_iff, lookup-insert_self, lookup-insert_ne, lookup-kept, or_else, min,
  if◌then◌else◌, Bool-cases, arith, length, leb_ℤ,
}
use prooflens.Api.RateLimit.{
  Buckets, RateLimiter, is_over, prune, pruned, current, retry_after, check_limited, check,
  prune_threshold,
}

-- A request as the limiter sees it
pub record Hit : Type 0 where
  pub key : String
  pub tier : String
  pub at : ℕ

allowed-lem : (b : Bool) (n : ℕ) → (if◌then◌else◌ {A = Bool × ℕ} b (false, n) (true, 0)).0 ≡ not b
allowed-lem true n = refl
allowed-lem false n = refl

true_ne : true ≢ false
true_ne e = cc

limit_on : (n : ℕ) → leb_ℤ (pos (suc n)) (pos 0) ≡ false
limit_on n = ground arith

if_cases :
    {A : Type 0} (b : Bool) (x : A) (n : ℕ) (f : ℕ → A)
    → ((if b then x else f n) ≡ x) ⊎ ((m : ℕ) × ((if b then x else f n) ≡ f m))
if_cases true x n f = inl refl
if_cases false x n f = inr (n, refl)

-- The request counts against this key and tier.
abbrev pub is_own : String × String → Hit → Bool
is_own k h = pair_beq (h.key, h.tier) k

module _ (limiter : RateLimiter) where
  -- A window that is not over survives the prune.
  pruned-kept :
      (t : ℕ) (k : String × String) (b : Buckets) (s c : ℕ)
      → lookup k b ≡ some (s, c)
      → is_over limiter s t ≡ false
      → lookup k (pruned limiter t b) ≡ some (s, c)
  unfolding pruned prune
  pruned-kept t k b s c h o = elim (Bool-cases (ltb prune_threshold (length b))) [
    | inl e ↦ rw e (lookup-kept (λ x. not (is_over limiter x.1.0 t)) k (s, c) b h (rw o))
    | inr e ↦ rw e h
  ]

  -- In a live window a request of the key is counted, and is allowed up to the limit.
  check_limited-own :
      (limit : ℕ) (k : String × String) (t : ℕ) (b : Buckets) (s c : ℕ)
      → lookup k b ≡ some (s, c)
      → is_over limiter s t ≡ false
      → ((check_limited limiter limit k t b).0.0 ≡ not (ltb limit (suc c)))
        × (lookup k (check_limited limiter limit k t b).1 ≡ some (s, suc c))
  unfolding check_limited
  check_limited-own limit k t b s c h o =
      let kept : current limiter t (lookup k (pruned limiter t b)) ≡ (s, c) =
        rw (pruned-kept t k b s c h o, o) in
      rw kept (
        allowed-lem (ltb limit (suc c)) (retry_after limiter s t),
        lookup-insert_self k (s, suc c) (pruned limiter t b),
      )

  -- A request of another key leaves a live window alone.
  check_limited-other :
      (limit : ℕ) (k j : String × String) (t : ℕ) (b : Buckets) (s c : ℕ)
      → j ≢ k
      → lookup k b ≡ some (s, c)
      → is_over limiter s t ≡ false
      → lookup k (check_limited limiter limit j t b).1 ≡ some (s, c)
  unfolding check_limited
  check_limited-other limit k j t b s c ne h o =
      lookup-insert_ne j k _ (pruned limiter t b) ne ∙ pruned-kept t k b s c h o

  -- How many of the requests in a row are allowed, of those with this key and tier.
  unfoldable pub allowed_of : String × String → List Hit → Buckets → ℕ
  allowed_of k [] b = 0
  allowed_of k (h ∷ hits) b =
      let r = check limiter h.key h.tier h.at b in
      let rest = allowed_of k hits r.1 in if is_own k h && r.0.0 then suc rest else rest

  -- `check` looks at the bucket only where the tier has a limit above 0.
  check-cases :
      (key tier : String) (t : ℕ) (b : Buckets)
      → (check limiter key tier t b ≡ ((true, 0), b))
        ⊎ ((n : ℕ) × (check limiter key tier t b ≡ check_limited limiter n (key, tier) t b))
  unfolding check
  check-cases key tier t b =
      let limit = or_else (lookup tier limiter.limits) (pos 0) in
      if_cases (leb_ℤ limit (pos 0)) ((true, 0), b) (pos_part limit)
        (λ n. check_limited limiter n (key, tier) t b)

  check-limit :
      (key tier : String) (t : ℕ) (b : Buckets) (n : ℕ)
      → lookup tier limiter.limits ≡ some (pos (suc n))
      → check limiter key tier t b ≡ check_limited limiter (suc n) (key, tier) t b
  unfolding check
  check-limit key tier t b n e =
      subst
        (λ (l : Option ℤ).
          (if leb_ℤ (or_else l (pos 0)) (pos 0)
            then ((true, 0), b)
            else check_limited limiter (pos_part (or_else l (pos 0))) (key, tier) t b)
          ≡ check_limited limiter (suc n) (key, tier) t b)
        (sym e) (rw (limit_on n))

  pub check-own :
      (k : String × String) (key tier : String) (t : ℕ) (b : Buckets) (n s c : ℕ)
      → (key, tier) ≡ k
      → lookup k.1 limiter.limits ≡ some (pos (suc n))
      → lookup k b ≡ some (s, c)
      → is_over limiter s t ≡ false
      → ((check limiter key tier t b).0.0 ≡ not (ltb (suc n) (suc c)))
        × (lookup k (check limiter key tier t b).1 ≡ some (s, suc c))
  check-own k key tier t b n s c p l w o =
      let e = check-limit key tier t b n (
        subst (λ (x : String × String). lookup x.1 limiter.limits ≡ some (pos (suc n))) (sym p)
          l) in
      let r =
        check_limited-own (suc n) (key, tier) t b s c
          (subst (λ x. lookup x b ≡ some (s, c)) (sym p) w) o in
      (
        ap (λ x. x.0.0) e ∙ r.0,
        subst (λ x. lookup x (check limiter key tier t b).1 ≡ some (s, suc c)) p (rw e r.1),
      )

  pub check-other :
      (k : String × String) (key tier : String) (t : ℕ) (b : Buckets) (s c : ℕ)
      → (key, tier) ≢ k
      → lookup k b ≡ some (s, c)
      → is_over limiter s t ≡ false
      → lookup k (check limiter key tier t b).1 ≡ some (s, c)
  check-other k key tier t b s c ne h o = elim (check-cases key tier t b) [
    | inl e ↦ rw e h
    | inr (n, e) ↦ rw e (check_limited-other n k (key, tier) t b s c ne h o)
  ]

  not_own : (h : Hit) (k : String × String) → is_own k h ≡ false → (h.key, h.tier) ≢ k
  not_own h k other same = true_ne (sym ((pair_beq_iff (h.key, h.tier) k).1 same) ∙ other)

  -- In a live window that has counted `c` requests of a key, of the requests that follow within it
  -- the limiter allows as many as the limit leaves, whatever other requests come in between.
  allowed_of-live :
      (key tier : String) (n s c : ℕ) (hits : List Hit) (b : Buckets)
      → lookup tier limiter.limits ≡ some (pos (suc n))
      → lookup (key, tier) b ≡ some (s, c)
      → All (λ h. is_over limiter s h.at ≡ false) hits
      → allowed_of (key, tier) hits b ≡ min (count (is_own (key, tier)) hits) (suc n - c)
  unfolding allowed_of
  allowed_of-live key tier n s c [] b l w a = omega arith
  allowed_of-live key tier n s c (h ∷ hits) b l w a = elim (Bool-cases (is_own (key, tier) h)) [
    | inl own ↦
        let r =
          check-own (key, tier) h.key h.tier h.at b n s c ((pair_beq_iff _ _).0 own) l w a.0 in
        let rest =
          allowed_of-live key tier n s (suc c) hits (check limiter h.key h.tier h.at b).1 l r.1
            a.1 in
        rw (own, r.0, rest) (ground arith)
    | inr other ↦ rw other (
        allowed_of-live key tier n s c hits (check limiter h.key h.tier h.at b).1 l
          (check-other (key, tier) h.key h.tier h.at b s c
            (λ same. not_own h (key, tier) other same) w a.0)
          a.1)
  ]

  -- The request opens a window of its key: the key has no live one.
  abbrev pub Opens : String → String → ℕ → Buckets → Type 0
  Opens key tier t b = current limiter t (lookup (key, tier) (pruned limiter t b)) ≡ (t, 0)

  check-Opens :
      (key tier : String) (t n : ℕ) (b : Buckets)
      → lookup tier limiter.limits ≡ some (pos (suc n))
      → Opens key tier t b
      → ((check limiter key tier t b).0.0 ≡ true)
        × (lookup (key, tier) (check limiter key tier t b).1 ≡ some (t, 1))
  unfolding check_limited
  check-Opens key tier t n b l o =
      rw (check-limit key tier t b n l, o)
        (
          allowed-lem (ltb (suc n) 1) (retry_after limiter t t) ∙ ground arith,
          lookup-insert_self (key, tier) (t, 1) (pruned limiter t b),
        )

  -- In a tier with a limit above 0, of a request that opens a window of its key and of those that
  -- follow within that window, the limiter allows as many of the key's requests as the limit says,
  -- and all of them where they are fewer, whatever requests of other keys and tiers come in
  -- between.
  pub allowed_of-window :
      (key tier : String) (t n : ℕ) (hits : List Hit) (b : Buckets)
      → lookup tier limiter.limits ≡ some (pos (suc n))
      → Opens key tier t b
      → All (λ h. is_over limiter t h.at ≡ false) hits
      → allowed_of (key, tier) (record { key = key; tier = tier; at = t } ∷ hits) b
        ≡ min (suc (count (is_own (key, tier)) hits)) (suc n)
  unfolding allowed_of
  allowed_of-window key tier t n hits b l o a =
      let r = check-Opens key tier t n b l o in
      let rest = allowed_of-live key tier n t 1 hits (check limiter key tier t b).1 l r.1 a in
      rw ((pair_beq_iff (key, tier) (key, tier)).1 refl, r.0, rest) (omega arith)
