-- ===== src/Api/Dse/Rows.antt =====
-- The rows of the organisation by agent, as src/prooflens/api/dse.py looks them up.
use prooflens.Base.{
  ◌≡◌, refl, sym, ap, ◌∙◌, String, Bool, true, false, not, ◌&&◌, ◌||◌, ◌⊎◌, inl, inr, List, [], ◌∷◌,
  Option, none, some, any, is_none, lookup, Dict, string_eq, str_eq, lookup-insert, eq_iff,
  Bool-cases, arith, if◌then◌else◌,
}
use prooflens.Service.Hierarchy.{HierarchyRow, same_text}
use prooflens.Api.Dse.{latest_rows_by_agent, with_newer, is_newer}
use prooflens.Api.Dse.Scorecard.{row_under}

-- The rows have one of this agent.
abbrev pub has_row : Option String → List HierarchyRow → Bool
has_row none rows = false
has_row (some k) rows = any (λ r. same_text r.agent_id k) rows

module _ (k : String) where
  abbrev missing : Dict String HierarchyRow → Bool
  missing d = is_none (lookup k d)

  missing-with_newer :
      (key : Option String) (row : HierarchyRow) (d : Dict String HierarchyRow)
      → missing (with_newer key row d) ≡ (missing d && not (same_text key k))
  missing-with_newer none row d = ground arith
  missing-with_newer (some key) row d = elim (Bool-cases (is_newer row (lookup key d))) [
    | inl newer ↦ rw newer (ap is_none (lookup-insert key k row d) ∙ by_key (str_eq key k))
    | inr older ↦ rw older (kept (lookup key d) refl older (Bool-cases (str_eq key k)))
  ]
    where
      by_key : (b : Bool) → is_none (if b then some row else lookup k d) ≡ (missing d && not b)
      by_key b = ground arith

      kept :
          (found : Option HierarchyRow)
          → lookup key d ≡ found
          → is_newer row found ≡ false
          → (str_eq key k ≡ true) ⊎ (str_eq key k ≡ false)
          → missing d ≡ (missing d && not (str_eq key k))
      kept none e older cases = ground arith
      kept (some cur) e older (inl same) =
          rw same
            (ap is_none (ap (λ x. lookup x d) (sym ((eq_iff key k).0 same)) ∙ e) ∙ and_not_true _)
        where
          and_not_true : (b : Bool) → false ≡ (b && false)
          and_not_true b = ground arith
      kept (some cur) e older (inr differ) = rw differ (ground arith)

  missing-latest :
      (rows : List HierarchyRow) (d : Dict String HierarchyRow)
      → missing (latest_rows_by_agent rows d) ≡ (missing d && not (has_row (some k) rows))
  unfolding latest_rows_by_agent
  missing-latest [] d = ground arith
  missing-latest (row ∷ rows) d =
      missing-latest rows (with_newer row.agent_id row d)
      ∙ ap (λ b. b && not (has_row (some k) rows)) (missing-with_newer row.agent_id row d)
      ∙ neither (missing d) (same_text row.agent_id k) (has_row (some k) rows)
    where
      neither : (a b c : Bool) → (a && not b && not c) ≡ (a && not (b || c))
      neither a b c = ground arith

pub row_under-latest :
    (norm_id : Option String) (rows : List HierarchyRow)
    → is_none (row_under (latest_rows_by_agent rows []) norm_id) ≡ not (has_row norm_id rows)
row_under-latest none rows = refl
row_under-latest (some k) rows = missing-latest k rows []
