-- ===== src/Service/Repo/Reviews.antt =====
-- One stored result of src/prooflens/service/repo.py: recorded, read back, reviewed, each within
-- its tenant.
use prooflens.Base.{
  ℕ, String, ◌≡◌, refl, sym, ap, ◌∙◌, ◌≢◌, inl, inr, Bool, true, false, ◌&&◌, List, [], ◌∷◌, Option,
  none, some, find, str_eq, eq_iff, ◌==◌, arith, if◌then◌else◌, Bool-cases, Option-cases, length,
  ◌+◌, length-append,
}
use prooflens.Service.Repo.{
  AuditEvent, ResultView, Results, is_result, get_result, reviewed, update_first, record_review,
}

none_ne : {A : Type 0} {a : A} → ◌≡◌ {A = Option A} none (some a) → ⊥
none_ne e = cc

some_eq : {A : Type 0} (a b : A) → ◌≡◌ {A = Option A} (some a) (some b) → a ≡ b
some_eq a b e = cc

and_false : (a : Bool) → (a && false) ≡ false
and_false a = ground arith

and_right : (a b : Bool) → (a && b) ≡ true → b ≡ true
and_right a b h = ground arith

module _ {R : Type 0} where
  tenants_apart :
      (i j : ℕ) (t u : String) (r : ResultView R)
      → t ≢ u
      → is_result i t r ≡ true
      → is_result j u r ≡ false
  tenants_apart i j t u r ne mine = elim (Bool-cases (str_eq r.tenant_id u)) [
    | inr no_match ↦ rw no_match (and_false (r.id == j))
    | inl also ↦ absurd (
        ne (
          sym ((eq_iff r.tenant_id t).0 (and_right (r.id == i) _ mine))
          ∙ (eq_iff r.tenant_id u).0 also))
  ]

  find-update_first :
      (p : ResultView R → Bool) (f : ResultView R → ResultView R) (rs : List (ResultView R))
      (v : ResultView R)
      → ((r : ResultView R) → p (f r) ≡ p r)
      → find p rs ≡ some v
      → find p (update_first p f rs) ≡ some (f v)
  find-update_first p f [] v k e = cc
  find-update_first p f (r ∷ rs) v k e = elim (Bool-cases (p r)) [
    | inl t ↦ rw (t, k r, t) (ap some (ap f (first t e)))
    | inr n ↦ rw (n, n) (find-update_first p f rs v k (rest n e))
  ]
    where
      first : p r ≡ true → find p (r ∷ rs) ≡ some v → r ≡ v
      first t e = ground arith

      rest : p r ≡ false → find p (r ∷ rs) ≡ some v → find p rs ≡ some v
      rest n e = ground arith

  -- An update of a result that another search does not look for
  find-update_other :
      (p q : ResultView R → Bool) (f : ResultView R → ResultView R) (rs : List (ResultView R))
      → ((r : ResultView R) → q (f r) ≡ q r)
      → ((r : ResultView R) → p r ≡ true → q r ≡ false)
      → find q (update_first p f rs) ≡ find q rs
  find-update_other p q f [] k apart = refl
  find-update_other p q f (r ∷ rs) k apart = elim (Bool-cases (p r)) [
    | inl t ↦ rw (t, k r, apart r t)
    | inr n ↦ rw n (ap (λ o. if q r then some r else o) (find-update_other p q f rs k apart))
  ]

  module _ (result_id : ℕ) (decision : String) (note : Option String) (reviewer : String) (now : ℕ)
      (tenant_id : String) (s : Results R) where
    abbrev after_review : List AuditEvent → Results R
    after_review log = record {
      results =
          update_first (is_result result_id tenant_id) (reviewed decision note reviewer now)
            s.results;
      audit_log = log;
    }

    read_own :
        (v : ResultView R) (log : List AuditEvent)
        → get_result result_id tenant_id s ≡ some v
        → get_result result_id tenant_id (after_review log)
          ≡ some (reviewed decision note reviewer now v)
    unfolding get_result
    read_own v log e =
        find-update_first (is_result result_id tenant_id) (reviewed decision note reviewer now)
          s.results v (λ r. refl) e

    read_other :
        (i : ℕ) (other : String) (log : List AuditEvent)
        → tenant_id ≢ other
        → get_result i other (after_review log) ≡ get_result i other s
    unfolding get_result
    read_other i other log ne =
        find-update_other (is_result result_id tenant_id) (is_result i other)
          (reviewed decision note reviewer now) s.results (λ r. refl)
          (λ r mine. tenants_apart result_id i tenant_id other r ne mine)

    -- A review of a result of the tenant is returned and is what a later read finds, and one audit
    -- event is written. A review of an id that the tenant does not have returns none and changes
    -- nothing. In both cases every result of another tenant reads as before.
    pub record_review-lem :
        let (answer, after) = record_review result_id decision note reviewer now tenant_id s in
        ((v : ResultView R)
          → get_result result_id tenant_id s ≡ some v
          → (answer ≡ some (reviewed decision note reviewer now v))
            × (get_result result_id tenant_id after ≡ answer)
            × (length after.audit_log ≡ length s.audit_log + 1))
        × (get_result result_id tenant_id s ≡ none → (answer ≡ none) × (after ≡ s))
        × ((i : ℕ) (other : String)
            → tenant_id ≢ other
            → get_result i other after ≡ get_result i other s)
    unfolding record_review
    record_review-lem = elim (Option-cases (get_result result_id tenant_id s)) [
      | inl e ↦
          rw (e, record_review) (λ v h. absurd (none_ne h), λ h. (refl, refl), λ i other ne. refl)
      | inr (v, e) ↦
          rw (e, record_review)
            (
              λ w same. (
                ap some (ap (reviewed decision note reviewer now) (some_eq v w same)),
                read_own v _ e,
                length-append s.audit_log _,
              ),
              λ h. absurd (none_ne (sym h)),
              λ i other ne. read_other i other _ ne,
            )
    ]
