-- ===== src/Api/DateRange/Bounds.antt =====
-- Which ranges `resolve_range` of src/prooflens/api/date_range.py gives.
use prooflens.Base.{
  ℕ, ◌+◌, ◌-◌, ◌≤◌, ◌<◌, String, ◌≡◌, refl, ◌∙◌, subst, ◌↔◌, ◌⊎◌, inl, inr, Bool, true, not, Option,
  none, some, or_else, is_none, arith, midnight, max_ordinal,
}
use prooflens.Api.DateRange.{
  overflow, Stamp, bound_day, default_days, max_span_days, checked_range, checked_range,
  default_start, resolve_days, resolve_range,
}

-- The first day is the one that was asked for, or it makes 30 days with the last.
abbrev pub IsStart : Option ℕ → ℕ → ℕ → Type 0
IsStart (some d) s e = s ≡ d
IsStart none s e = (1 ≤ s) × (s + 29 ≡ e)

-- The range [start, end) of the days from `s` to `e`, at most 400 of them and none after today
abbrev pub IsSpan : ℕ → ℕ → ℕ → ℕ × ℕ → Type 0
IsSpan today s e r =
    (r ≡ (midnight s, midnight (e + 1))) × (s ≤ e) × (e ≤ today) × (e < s + max_span_days)

abbrev pub IsRange : ℕ → Option ℕ → Option ℕ → ℕ × ℕ → Type 0
IsRange today sd ed r =
    (s : ℕ) × (e : ℕ) × IsStart sd s e × (e ≡ or_else ed today) × IsSpan today s e r

module _ (today : ℕ) (gs ge : Bool) (hi : today < max_ordinal) (r : ℕ × ℕ) where
  checked_range_iff :
      (s e : ℕ)
      → (e ≡ today) ⊎ (ge ≡ true)
      → (checked_range today gs ge s e ≡ inr r) ↔ IsSpan today s e r
  checked_range_iff s e g = ground arith

  default_start_iff :
      (e : ℕ)
      → (e ≡ today) ⊎ (ge ≡ true)
      → (default_start today gs ge e ≡ inr r)
        ↔ ((s : ℕ) × (1 ≤ s) × (s + 29 ≡ e) × IsSpan today s e r)
  default_start_iff e g = (
    λ h.
        let span = (checked_range_iff (e - 29) e g).0 (checked h) in
        (e - 29, ground arith, ground arith, span),
    λ (s, one, sum, span). found s one sum ((checked_range_iff s e g).1 span),
  )
    where
      checked : default_start today gs ge e ≡ inr r → checked_range today gs ge (e - 29) e ≡ inr r
      checked h = ground arith

      found :
          (s : ℕ)
          → 1 ≤ s
          → s + 29 ≡ e
          → checked_range today gs ge s e ≡ inr r
          → default_start today gs ge e ≡ inr r
      found s one sum h =
          let back : s ≡ e - 29 = omega arith in
          let h' = subst (λ k. checked_range today gs ge k e ≡ inr r) back h in ground arith

  IsSpan-at : (s s' e e' : ℕ) → s' ≡ s → e' ≡ e → IsSpan today s' e' r → IsSpan today s e r
  IsSpan-at s s' e e' p q span =
      subst (λ k. IsSpan today k e r) p (subst (λ k. IsSpan today s' k r) q span)

  given_start :
      (s e : ℕ)
      → (e ≡ today) ⊎ (ge ≡ true)
      → (checked_range today gs ge s e ≡ inr r)
        ↔ ((s' : ℕ) × (e' : ℕ) × (s' ≡ s) × (e' ≡ e) × IsSpan today s' e' r)
  given_start s e g = (
    λ h. (s, e, refl, refl, (checked_range_iff s e g).0 h),
    λ (s', e', p, q, span). (checked_range_iff s e g).1 (IsSpan-at s s' e e' p q span),
  )

  no_start :
      (e : ℕ)
      → (e ≡ today) ⊎ (ge ≡ true)
      → (default_start today gs ge e ≡ inr r)
        ↔ ((s' : ℕ) × (e' : ℕ) × ((1 ≤ s') × (s' + 29 ≡ e')) × (e' ≡ e) × IsSpan today s' e' r)
  no_start e g = (
    λ h. let (s, one, sum, span) = (default_start_iff e g).0 h in (s, e, (one, sum), refl, span),
    λ (s', e', start, q, span).
        (default_start_iff e g).1 (s', start.0, start.1 ∙ q, IsSpan-at s' s' e e' refl q span),
  )

  resolve_days_iff :
      (sd ed : Option ℕ)
      → (ed ≡ none) ⊎ (ge ≡ true)
      → (resolve_days today gs ge sd ed ≡ inr r) ↔ IsRange today sd ed r
  resolve_days_iff none none g = no_start today (inl refl)
  resolve_days_iff none (some e) g = no_start e (inr (given g))
    where
      given : {d : ℕ} → (some d ≡ none) ⊎ (ge ≡ true) → ge ≡ true
      given g = ground arith
  resolve_days_iff (some s) none g = given_start s today (inl refl)
  resolve_days_iff (some s) (some e) g = given_start s e (inr (given g))
    where
      given : {d : ℕ} → (some d ≡ none) ⊎ (ge ≡ true) → ge ≡ true
      given g = ground arith

  resolve_days-overflow :
      (sd ed : Option ℕ)
      → (ed ≡ none) ⊎ (ge ≡ true)
      → (resolve_days today gs ge sd ed ≡ inl overflow) ↔ ((sd ≡ none) × (or_else ed today ≤ 29))
  resolve_days-overflow none none g = ground arith
  resolve_days-overflow none (some e) g = ground arith
  resolve_days-overflow (some s) none g = ground arith
  resolve_days-overflow (some s) (some e) g = ground arith

-- A bound that is not given has no day.
end_given :
    (full : String → Option Stamp) (end_date : Option String) (ed : Option ℕ)
    → bound_day full end_date ≡ inr ed
    → (ed ≡ none) ⊎ (not (is_none end_date) ≡ true)
unfolding bound_day
end_given full none ed h = inl (ground arith)
end_given full (some v) ed h = inr refl

module _ (full : String → Option Stamp) (today : ℕ) (start_date end_date : Option String)
    (sd ed : Option ℕ) (lo : default_days ≤ today) (hi : today < max_ordinal)
    (ps : bound_day full start_date ≡ inr sd) (pe : bound_day full end_date ≡ inr ed) where
  -- On bounds that parse, `resolve_range` gives a range exactly where it is one: from the midnight
  -- of the first day to that after the last, with no day after today and at most 400 of them. The
  -- first day is the one asked for, or makes 30 days with the last; the last is the one asked for,
  -- or today. And the arithmetic overflows, which no endpoint handles, exactly where no first day
  -- is asked for and the last is among the first 29 of year 1.
  pub resolve_range-IsRange :
      ((r : ℕ × ℕ) → (resolve_range full today start_date end_date ≡ inr r) ↔ IsRange today sd ed r)
      × ((resolve_range full today start_date end_date ≡ inl overflow)
          ↔ ((sd ≡ none) × (or_else ed today ≤ 29)))
  unfolding resolve_range
  resolve_range-IsRange = (
    λ r. rw (ps, pe) (resolve_days_iff today _ _ hi r sd ed (end_given full end_date ed pe)),
    rw (ps, pe) (resolve_days-overflow today _ _ hi (0, 0) sd ed (end_given full end_date ed pe)),
  )
