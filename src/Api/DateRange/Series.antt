-- ===== src/Api/DateRange/Series.antt =====
-- The daily series of `fill_series` of src/prooflens/api/date_range.py, filled from the results
-- that api/scoring.py files under their days.
use mathlib.Core.List.{append-nil, append_assoc}
use prooflens.Base.{
  ℕ, zero, suc, ◌+◌, ◌-◌, ◌≤◌, ◌<◌, ◌/◌, String, ◌≡◌, refl, sym, ap, ◌∙◌, Bool, false, List, [],
  ◌∷◌, ◌++◌, map, filter, or_else, Dict, lookup, insert, string_eq, lookup-insert, str_eq, ◌==◌,
  eq_iff, All, isoformat, isoformat_inj, date_of, midnight, max_ordinal, leb, le→leb, Bool-cases,
  inl, inr, arith, if◌then◌else◌,
}
use prooflens.Engine.Number.{Float}
use prooflens.Service.Repo.{ResultView}
use prooflens.Api.DateRange.{DayPoint, day_key, by_day_from, point_of, fill_from, fill_series}

abbrev IsDate : ℕ → Type 0
IsDate d = (1 ≤ d) × (d ≤ max_ordinal)

abbrev pub is_on : {R : Type 0} → ℕ → ResultView R → Bool
is_on d r = date_of r.created_at == d

-- The days from `d`, `n` of them
abbrev pub days_from : ℕ → ℕ → List ℕ
days_from zero d = []
days_from (suc n) d = d ∷ days_from n (d + 1)

abbrev filed : {R : Type 0} → String → Dict String (List (ResultView R)) → List (ResultView R)
filed key by_day = or_else (lookup key by_day) []

filed-insert :
    {R : Type 0} (k j : String) (v : List (ResultView R)) (d : Dict String (List (ResultView R)))
    → filed k (insert j v d) ≡ (if str_eq j k then v else filed k d)
filed-insert k j v d = rw (lookup-insert j k v d) (ground arith)

-- What the loop files under a key is what was there and then the results of that key, in order.
filed-by_day_from :
    {R : Type 0} (k : String) (by_day : Dict String (List (ResultView R)))
    (items : List (ResultView R))
    → filed k (by_day_from by_day items)
      ≡ filed k by_day ++ filter (λ r. str_eq (day_key r) k) items
filed-by_day_from k by_day [] = sym (append-nil (filed k by_day))
filed-by_day_from k by_day (r ∷ items) =
    filed-by_day_from k (insert (day_key r) (filed (day_key r) by_day ++ r ∷ []) by_day) items
    ∙ ap (λ l. l ++ filter (λ x. str_eq (day_key x) k) items)
        (filed-insert k (day_key r) (filed (day_key r) by_day ++ r ∷ []) by_day)
    ∙ elim (Bool-cases (str_eq (day_key r) k)) [
      | inl same ↦ rw (same, (eq_iff (day_key r) k).0 same) (append_assoc _ (r ∷ []) _)
      | inr other ↦ rw other
    ]

same_day : (a b : ℕ) → IsDate a → IsDate b → str_eq (isoformat a) (isoformat b) ≡ (a == b)
same_day a b ha hb =
    ground (arith, eq_iff (isoformat a) (isoformat b), isoformat_inj a b, ap isoformat)

filter-day_key :
    {R : Type 0} (d : ℕ) (items : List (ResultView R))
    → IsDate d
    → All (λ (r : ResultView R). IsDate (date_of r.created_at)) items
    → filter (λ r. str_eq (day_key r) (isoformat d)) items ≡ filter (is_on d) items
filter-day_key d [] hd dates = refl
filter-day_key d (r ∷ items) hd dates =
    rw (same_day (date_of r.created_at) d dates.0 hd, filter-day_key d items hd dates.1)

-- The point of a day's results
abbrev pub point_on : (F : Float) → List (ResultView F.Carrier) → ℕ → DayPoint F.Carrier
point_on F items d = point_of F (isoformat d) (filter (is_on d) items)

module _ (F : Float) (items : List (ResultView F.Carrier))
    (dates : All (λ (r : ResultView F.Carrier). IsDate (date_of r.created_at)) items) where
  filed_on :
      (d : ℕ) → IsDate d → filed (isoformat d) (by_day_from [] items) ≡ filter (is_on d) items
  filed_on d h = filed-by_day_from (isoformat d) [] items ∙ filter-day_key d items h dates

  -- One round of fuel for each of the `n` days, and one to see the end
  fill_from-points :
      (n d last : ℕ)
      → 1 ≤ d
      → last ≤ max_ordinal
      → last + 1 ≡ d + n
      → fill_from F (suc n) (by_day_from [] items) d last ≡ map (point_on F items) (days_from n d)
  unfolding fill_from
  fill_from-points zero d last one hi e = rw (past d last e)
    where
      past : (d last : ℕ) → last + 1 ≡ d + 0 → leb d last ≡ false
      past d last e = ground arith
  fill_from-points (suc n) d last one hi e = rw (le→leb d last (omega arith)) (
      cons_eq (ap (point_of F (isoformat d)) (filed_on d (one, omega arith)))
        (fill_from-points n (d + 1) last (omega arith) hi (omega arith)))
    where
      cons_eq : {A : Type 0} {x y : A} {xs ys : List A} → x ≡ y → xs ≡ ys → x ∷ xs ≡ y ∷ ys
      cons_eq p q = cc

  -- The series has one point for each day from the first to the last, in order, and that point
  -- counts and averages exactly the results of that day. The results bear dates.
  pub fill_series-points :
      (first last : ℕ)
      → 1 ≤ first
      → first ≤ last
      → last < max_ordinal
      → fill_series F (by_day_from [] items) (midnight first) (midnight (last + 1))
        ≡ map (point_on F items) (days_from (last + 1 - first) first)
  unfolding fill_series
  fill_series-points first last one le hi =
      rw (date_of-midnight first, date_before last)
        (fill_from-points (last + 1 - first) first last one (omega arith) (omega arith))
    where
      date_of-midnight : (d : ℕ) → midnight d / 86400000000 ≡ d
      date_of-midnight d = omega arith

      date_before : (d : ℕ) → (midnight (d + 1) - 86400000000) / 86400000000 ≡ d
      date_before d = omega arith
