-- ===== src/Api/Results/Counts.antt =====
-- What the overview of src/prooflens/api/scoring.py counts: bands, reasons and the results of a
-- range.
use prooflens.Base.{
  ℕ, ◌+◌, ◌-◌, ◌≤◌, ◌≡◌, refl, ap, ◌∙◌, String, Bool, ◌⊎◌, inl, inr, List, [], ◌∷◌, Option, none,
  some, count, length, Dict, insert, string_eq, or_else, lookup, All, str_eq, Bool-cases, arith,
  midnight,
}
use prooflens.Engine.Verdicts.{Band, band_name, Reason, reason_value}
use prooflens.Service.Repo.{ResultView}
use prooflens.Service.Organisation.Counted.{total, total-one_more}
use prooflens.Api.DateRange.{
  RangeError, Stamp, checked_range, default_start, resolve_bounds, bound_day, resolve_range,
}
use prooflens.Api.Analytics.{has_band}
use prooflens.Api.Analytics.Summary.{count_reasons}
use prooflens.Api.Results.Overview.{
  TopReason, insert_count, sort_counts, reason_of, reason_named, and_named, all_named,
}

-- The band and the reason are of the fixed vocabulary, as those of a verdict are.
abbrev pub IsVocabulary : {R : Type 0} → ResultView R → Type 0
IsVocabulary r =
    ((b : Band) × (r.band ≡ band_name b)) × ((q : Reason) × (r.reason_code ≡ reason_value q))

module _ {R : Type 0} where
  abbrev in_bands : List (ResultView R) → ℕ
  in_bands items =
      count (has_band "Clear") items
      + count (has_band "Doubtful") items
      + count (has_band "Suspect") items
      + count (has_band "Unassessed") items

  -- Each result has one of the four bands.
  pub in_bands-length :
      (items : List (ResultView R)) → All IsVocabulary items → in_bands items ≡ length items
  in_bands-length [] h = refl
  in_bands-length (r ∷ items) h = by_band h.0.0.0 h.0.0.1 (in_bands-length items h.1)
    where
      by_band :
          (b : Band)
          → r.band ≡ band_name b
          → in_bands items ≡ length items
          → in_bands (r ∷ items) ≡ length (r ∷ items)
      by_band Band.clear e ih = rw e (omega (arith, ih))
      by_band Band.doubtful e ih = rw e (omega (arith, ih))
      by_band Band.suspect e ih = rw e (omega (arith, ih))
      by_band Band.unassessed e ih = rw e (omega (arith, ih))

-- The entries are counts of reasons.
abbrev pub IsReasonCount : String × ℕ → Type 0
IsReasonCount e = (q : Reason) × (e.0 ≡ reason_value q)

insert-IsReasonCount :
    (k : String) (n : ℕ) (d : Dict String ℕ)
    → IsReasonCount (k, n)
    → All IsReasonCount d
    → All IsReasonCount (insert k n d)
insert-IsReasonCount k n [] h hs = (h, tt)
insert-IsReasonCount k n ((j, w) ∷ d) h hs = elim (Bool-cases (str_eq j k)) [
  | inl same ↦ rw same (hs.0, hs.1)
  | inr differ ↦ rw differ (hs.0, insert-IsReasonCount k n d h hs.1)
]

module _ {R : Type 0} where
  pub count_reasons-IsReasonCount :
      (counts : Dict String ℕ) (items : List (ResultView R))
      → All IsReasonCount counts
      → All IsVocabulary items
      → All IsReasonCount (count_reasons counts items)
  unfolding count_reasons
  count_reasons-IsReasonCount counts [] h hs = h
  count_reasons-IsReasonCount counts (r ∷ items) h hs =
      count_reasons-IsReasonCount
        (insert r.reason_code (or_else (lookup r.reason_code counts) 0 + 1) counts) items
        (insert-IsReasonCount r.reason_code (or_else (lookup r.reason_code counts) 0 + 1) counts
          hs.0.1 h)
        hs.1

  pub total-count_reasons :
      (counts : Dict String ℕ) (items : List (ResultView R))
      → total (count_reasons counts items) ≡ total counts + length items
  unfolding count_reasons
  total-count_reasons counts [] = omega arith
  total-count_reasons counts (r ∷ items) = omega (
    arith,
    total-count_reasons (insert r.reason_code (or_else (lookup r.reason_code counts) 0 + 1) counts)
        items,
    total-one_more r.reason_code counts,
  )

module _ (before : String × ℕ → String × ℕ → Bool) where
  total-insert_count :
      (k : String) (n : ℕ) (es : List (String × ℕ))
      → total (insert_count before (k, n) es) ≡ n + total es
  total-insert_count k n [] = refl
  total-insert_count k n ((j, m) ∷ es) = ground (arith, total-insert_count k n es)

  pub total-sort_counts : (es : List (String × ℕ)) → total (sort_counts before es) ≡ total es
  unfolding sort_counts
  total-sort_counts [] = refl
  total-sort_counts ((k, n) ∷ es) =
      total-insert_count k n (sort_counts before es) ∙ ap (λ t. n + t) (total-sort_counts es)

  insert_count-IsReasonCount :
      (e : String × ℕ) (es : List (String × ℕ))
      → IsReasonCount e
      → All IsReasonCount es
      → All IsReasonCount (insert_count before e es)
  insert_count-IsReasonCount e [] h hs = (h, tt)
  insert_count-IsReasonCount e (f ∷ es) h hs = elim (Bool-cases (before f e)) [
    | inl first ↦ rw first (hs.0, insert_count-IsReasonCount e es h hs.1)
    | inr later ↦ rw later (h, hs)
  ]

  pub sort_counts-IsReasonCount :
      (es : List (String × ℕ)) → All IsReasonCount es → All IsReasonCount (sort_counts before es)
  unfolding sort_counts
  sort_counts-IsReasonCount [] h = tt
  sort_counts-IsReasonCount (e ∷ es) h =
      insert_count-IsReasonCount e (sort_counts before es) h.0 (sort_counts-IsReasonCount es h.1)

reason_of-value : (q : Reason) → reason_of (reason_value q) ≡ some q
unfolding reason_of
reason_of-value Reason.clear = refl
reason_of-value Reason.recycled = refl
reason_of-value Reason.screen_recapture = refl
reason_of-value Reason.designed_graphic = refl
reason_of-value Reason.no_people_or_irrelevant = refl
reason_of-value Reason.not_a_visit = refl
reason_of-value Reason.single_person = refl
reason_of-value Reason.no_visit_context = refl
reason_of-value Reason.too_blurred = refl
reason_of-value Reason.no_content_analysis = refl

-- `sum(t["count"] for t in top_reasons)`
abbrev pub named_total : List TopReason → ℕ
named_total [] = 0
named_total (t ∷ ts) = t.count + named_total ts

-- Counts of reasons all get their texts, and keep their sum.
pub all_named-total :
    (es : List (String × ℕ))
    → All IsReasonCount es
    → (ts : List TopReason) × (all_named es ≡ some ts) × (named_total ts ≡ total es)
unfolding all_named
all_named-total [] h = ([], refl, refl)
all_named-total ((k, n) ∷ es) h =
    let (ts, named, sum) = all_named-total es h.1 in
    let found = ap reason_of h.0.1 ∙ reason_of-value h.0.0 in
    (
      _ ∷ ts,
      ap (λ o. and_named (reason_named k n o) (all_named es)) found ∙ ap (and_named (some _)) named,
      ap (λ t. n + t) sum,
    )

-- A range opens at the midnight of its first day and closes at that after its last.
abbrev pub IsOpened : ℕ × ℕ → Type 0
IsOpened r = (s : ℕ) × (e : ℕ) × (r ≡ (midnight s, midnight (e + 1))) × (s ≤ e)

module _ (today : ℕ) (gs ge : Bool) (r : ℕ × ℕ) where
  checked_range-IsOpened : (s e : ℕ) → checked_range today gs ge s e ≡ inr r → IsOpened r
  checked_range-IsOpened s e h = (s, e, ground arith, ground arith)

  default_start-IsOpened : (e : ℕ) → default_start today gs ge e ≡ inr r → IsOpened r
  default_start-IsOpened e h = checked_range-IsOpened (e - 29) e (checked h)
    where
      checked : default_start today gs ge e ≡ inr r → checked_range today gs ge (e - 29) e ≡ inr r
      checked h = ground arith

  resolve_bounds-IsOpened :
      (sd ed : RangeError ⊎ Option ℕ) → resolve_bounds today gs ge sd ed ≡ inr r → IsOpened r
  resolve_bounds-IsOpened (inl e) ed h = ground arith
  resolve_bounds-IsOpened (inr s) (inl e) h = ground arith
  resolve_bounds-IsOpened (inr none) (inr none) h = default_start-IsOpened today h
  resolve_bounds-IsOpened (inr none) (inr (some e)) h = default_start-IsOpened e h
  resolve_bounds-IsOpened (inr (some s)) (inr none) h = checked_range-IsOpened s today h
  resolve_bounds-IsOpened (inr (some s)) (inr (some e)) h = checked_range-IsOpened s e h

pub resolve_range-IsOpened :
    (full : String → Option Stamp) (today : ℕ) (start_date end_date : Option String) (r : ℕ × ℕ)
    → resolve_range full today start_date end_date ≡ inr r
    → IsOpened r
unfolding resolve_range
resolve_range-IsOpened full today start_date end_date r h =
    resolve_bounds-IsOpened today _ _ r (bound_day full start_date) (bound_day full end_date) h
