-- ===== src/Service/Organisation/Counted.antt =====
-- `result_counts_by_rep` of src/prooflens/service/repo.py.
use prooflens.Base.{
  refl, ℕ, suc, ◌+◌, String, ◌≡◌, ap, ◌∙◌, ◌⊎◌, inl, inr, Bool, true, false, ◌&&◌, List, [], ◌∷◌,
  Option, none, some, leb, ltb, ◌≢◌, count, count_cong, nonempty, Dict, lookup, insert, string_eq,
  str_eq, or_else, lookup-insert, Bool-cases, eq_iff, arith, if◌then◌else◌,
}
use prooflens.Service.Repo.{ResultView, from_start, before_end}
use prooflens.Service.Hierarchy.{same_text}
use prooflens.Service.Organisation.{is_counted, one_more, counts_from, result_counts_by_rep}

abbrev pub total : Dict String ℕ → ℕ
total [] = 0
total ((k, n) ∷ d) = n + total d

abbrev pub is_of : {R : Type 0} → String → ResultView R → Bool
is_of rep r = str_eq (or_else r.rep_id "") rep

total-insert :
    (k : String) (v : ℕ) (d : Dict String ℕ)
    → total (insert k v d) + or_else (lookup k d) 0 ≡ total d + v
total-insert k v [] = omega arith
total-insert k v ((j, w) ∷ d) = elim (Bool-cases (str_eq j k)) [
  | inl same ↦ rw same (omega arith)
  | inr differ ↦ rw differ (omega (arith, total-insert k v d))
]

pub total-one_more : (k : String) (d : Dict String ℕ) → total (one_more k d) ≡ total d + 1
total-one_more k d = omega (arith, total-insert k (or_else (lookup k d) 0 + 1) d)

lookup-one_more :
    (k rep : String) (d : Dict String ℕ)
    → or_else (lookup rep (one_more k d)) 0
      ≡ or_else (lookup rep d) 0 + (if str_eq k rep then 1 else 0)
lookup-one_more k rep d =
    ap (λ found. or_else found 0) (lookup-insert k rep (or_else (lookup k d) 0 + 1) d)
    ∙ by_key (Bool-cases (str_eq k rep))
  where
    by_key :
        (str_eq k rep ≡ true) ⊎ (str_eq k rep ≡ false)
        → or_else (if str_eq k rep then some (or_else (lookup k d) 0 + 1) else lookup rep d) 0
          ≡ or_else (lookup rep d) 0 + (if str_eq k rep then 1 else 0)
    by_key (inl same) = rw same (ap (λ x. or_else (lookup x d) 0 + 1) ((eq_iff k rep).0 same))
    by_key (inr differ) = rw differ (omega arith)

one_step :
    (b : Bool) (x y n : ℕ) → x ≡ y + (if b then 1 else 0) → x + n ≡ y + (if b then suc n else n)
one_step true x y n h = omega arith
one_step false x y n h = omega arith

module _ {R : Type 0} (p : ResultView R → Bool) where
  lookup-counts_from :
      (rep : String) (counts : Dict String ℕ) (rs : List (ResultView R))
      → or_else (lookup rep (counts_from p counts rs)) 0
        ≡ or_else (lookup rep counts) 0 + count (λ r. p r && is_of rep r) rs
  unfolding counts_from
  lookup-counts_from rep counts [] = omega arith
  lookup-counts_from rep counts (r ∷ rs) = elim (Bool-cases (p r)) [
    | inl holds ↦
        let key = or_else r.rep_id "" in
        rw holds (
          lookup-counts_from rep (one_more key counts) rs
          ∙ one_step (str_eq key rep) _ _ _ (lookup-one_more key rep counts))
    | inr fails ↦ rw fails (lookup-counts_from rep counts rs)
  ]

  total-counts_from :
      (counts : Dict String ℕ) (rs : List (ResultView R))
      → total (counts_from p counts rs) ≡ total counts + count p rs
  unfolding counts_from
  total-counts_from counts [] = omega arith
  total-counts_from counts (r ∷ rs) = elim (Bool-cases (p r)) [
    | inl holds ↦ rw holds (
        omega (
          arith,
          total-counts_from (one_more (or_else r.rep_id "") counts) rs,
          total-one_more (or_else r.rep_id "") counts,
        ))
    | inr fails ↦ rw fails (total-counts_from counts rs)
  ]

-- A time of the half-open range
abbrev pub in_range : Option ℕ → Option ℕ → ℕ → Bool
in_range none none t = true
in_range (some s) none t = leb s t
in_range none (some e) t = ltb t e
in_range (some s) (some e) t = leb s t && ltb t e

abbrev names_rep : Option String → Bool
names_rep none = false
names_rep (some s) = nonempty s

in_range-bounds : (s e : Option ℕ) (t : ℕ) → (from_start s t && before_end e t) ≡ in_range s e t
in_range-bounds none none t = refl
in_range-bounds (some s) none t = ground arith
in_range-bounds none (some e) t = ground arith
in_range-bounds (some s) (some e) t = ground arith

names_rep-nonempty : (rep : Option String) → nonempty (or_else rep "") ≡ names_rep rep
names_rep-nonempty none = refl
names_rep-nonempty (some s) = refl

same_text-named :
    (rep : String) (o : Option String)
    → rep ≢ ""
    → (names_rep o && str_eq (or_else o "") rep) ≡ same_text o rep
same_text-named rep none ne = refl
same_text-named rep (some String.[]) ne = ground (arith, eq_iff "" rep)
same_text-named rep (some (String.◌∷◌ c s)) ne = refl

module _ {R : Type 0} (tenant_id : String) (start end : Option ℕ) where
  -- The tenant's result of the range names this representative, or some representative.
  abbrev pub is_hers : String → ResultView R → Bool
  is_hers rep r =
      str_eq r.tenant_id tenant_id && same_text r.rep_id rep && in_range start end r.created_at

  abbrev pub is_someones : ResultView R → Bool
  is_someones r =
      str_eq r.tenant_id tenant_id && names_rep r.rep_id && in_range start end r.created_at

  is_counted-is_someones : (r : ResultView R) → is_counted tenant_id start end r ≡ is_someones r
  is_counted-is_someones r =
      ground (arith, names_rep-nonempty r.rep_id, in_range-bounds start end r.created_at)

  is_counted-is_hers :
      (rep : String) (r : ResultView R)
      → rep ≢ ""
      → (is_counted tenant_id start end r && is_of rep r) ≡ is_hers rep r
  is_counted-is_hers rep r ne = ground (
    arith,
    same_text-named rep r.rep_id ne,
    names_rep-nonempty r.rep_id,
    in_range-bounds start end r.created_at,
  )

  -- The count of a representative, whose id is not empty, is the number of the tenant's results in
  -- the half-open range that name her, 0 where she has no entry; and the counts add up to the
  -- number of the tenant's results in the range that name a representative at all.
  pub result_counts_by_rep-count :
      (results : List (ResultView R)) (rep : String)
      → rep ≢ ""
      → let counts = result_counts_by_rep tenant_id start end results in
        (or_else (lookup rep counts) 0 ≡ count (is_hers rep) results)
        × (total counts ≡ count is_someones results)
  unfolding result_counts_by_rep
  result_counts_by_rep-count results rep ne = (
    lookup-counts_from (is_counted tenant_id start end) rep [] results
        ∙ omega arith
        ∙ count_cong _ (is_hers rep) (λ r. is_counted-is_hers rep r ne) results,
    total-counts_from (is_counted tenant_id start end) [] results
        ∙ omega arith
        ∙ count_cong _ is_someones is_counted-is_someones results,
  )
