-- ===== src/Service/Hierarchy/Effective.antt =====
-- Which row `resolve_node` of src/prooflens/service/hierarchy.py returns, and that later rows do
-- not change the past.
use prooflens.Base.{
  ℕ, ◌≤◌, String, ◌≡◌, refl, sym, subst, ◌∙◌, ◌≢◌, ◌⊎◌, inl, inr, true, List, [], ◌∷◌, Option, none,
  some, In, ltb, arith, Bool-cases,
}
use prooflens.Service.Ids.{Casing, normalize_id}
use prooflens.Service.Hierarchy.{
  HierarchyRow, is_agent, round, resolve_from, resolve_key, resolve_node,
}

some_eq : {A : Type 0} (a b : A) → ◌≡◌ {A = Option A} (some a) (some b) → a ≡ b
some_eq a b e = cc

none_ne : {A : Type 0} {a : A} → ◌≡◌ {A = Option A} none (some a) → ⊥
none_ne e = cc

module _ (C : Casing) where
  -- A row of the agent that had begun on that day
  abbrev pub IsCandidate : String → ℕ → HierarchyRow → Type 0
  IsCandidate key day r = (is_agent C key r ≡ true) × (r.valid_from ≤ day)

  resolve_from-ge_best :
      (key : String) (day : ℕ) (b m : HierarchyRow) (rows : List HierarchyRow)
      → resolve_from C key day (some b) rows ≡ some m
      → b.valid_from ≤ m.valid_from
  unfolding resolve_from
  resolve_from-ge_best key day b m [] e = ground arith
  resolve_from-ge_best key day b m (r ∷ rows) e =
      ground (arith, resolve_from-ge_best key day b m rows, resolve_from-ge_best key day r m rows)

  -- A candidate's round: the result is at least as new.
  round-le :
      (q : HierarchyRow) (best : Option HierarchyRow) (m : HierarchyRow) (rows : List HierarchyRow)
      (key : String) (day : ℕ)
      → IsCandidate key day q
      → resolve_from C key day (round C key day q best) rows ≡ some m
      → q.valid_from ≤ m.valid_from
  round-le q none m rows key day c e = ground (arith, resolve_from-ge_best key day q m rows)
  round-le q (some b) m rows key day c e =
      ground (arith, resolve_from-ge_best key day b m rows, resolve_from-ge_best key day q m rows)

  -- The result is at least as new as every candidate.
  resolve_from-newest :
      (key : String) (day : ℕ) (m r : HierarchyRow) (rows : List HierarchyRow)
      (best : Option HierarchyRow)
      → resolve_from C key day best rows ≡ some m
      → In r rows
      → IsCandidate key day r
      → r.valid_from ≤ m.valid_from
  unfolding resolve_from
  resolve_from-newest key day m r [] best e i c = absurd i
  resolve_from-newest key day m r (q ∷ rows) best e (inl same) c =
      subst (λ (x : HierarchyRow). x.valid_from ≤ m.valid_from) (sym same)
        (round-le q best m rows key day (subst (IsCandidate key day) same c) e)
  resolve_from-newest key day m r (q ∷ rows) best e (inr i) c =
      resolve_from-newest key day m r rows (round C key day q best) e i c

  -- What a round leaves is what was there, or the row, which is then a candidate.
  round-source :
      (q : HierarchyRow) (key : String) (day : ℕ) (best : Option HierarchyRow)
      → (round C key day q best ≡ best)
        ⊎ ((round C key day q best ≡ some q) × IsCandidate key day q)
  round-source q key day none = ground arith
  round-source q key day (some b) = ground arith

  -- The result is the one before the loop or a candidate.
  resolve_from-source :
      (key : String) (day : ℕ) (m : HierarchyRow) (rows : List HierarchyRow)
      (best : Option HierarchyRow)
      → resolve_from C key day best rows ≡ some m
      → (best ≡ some m) ⊎ (In m rows × IsCandidate key day m)
  unfolding resolve_from
  resolve_from-source key day m [] best e = inl e
  resolve_from-source key day m (q ∷ rows) best e =
      elim (resolve_from-source key day m rows (round C key day q best) e) [
        | inr (i, c) ↦ inr (inr i, c)
        | inl now ↦ elim (round-source q key day best) [
          | inl old ↦ inl (sym old ∙ now)
          | inr (made, c) ↦
              let same = some_eq q m (sym made ∙ now) in
              inr (inl (sym same), subst (IsCandidate key day) same c)
        ]
      ]

  round-candidate :
      (q : HierarchyRow) (key : String) (day : ℕ) (best : Option HierarchyRow)
      → IsCandidate key day q
      → (b : HierarchyRow) × (round C key day q best ≡ some b)
  round-candidate q key day none c = (q, ground arith)
  round-candidate q key day (some b) c = elim (Bool-cases (ltb b.valid_from q.valid_from)) [
    | inl t ↦ (q, ground arith)
    | inr f ↦ (b, ground arith)
  ]

  -- A loop that has a result keeps one.
  resolve_from-ne_none :
      (key : String) (day : ℕ) (rows : List HierarchyRow) (b : HierarchyRow)
      → resolve_from C key day (some b) rows ≢ none
  unfolding resolve_from
  resolve_from-ne_none key day [] b e = cc
  resolve_from-ne_none key day (q ∷ rows) b e =
      ground (arith, resolve_from-ne_none key day rows b, resolve_from-ne_none key day rows q)

  -- A candidate among the rows is not passed over.
  resolve_from-found :
      (key : String) (day : ℕ) (r : HierarchyRow) (rows : List HierarchyRow)
      (best : Option HierarchyRow)
      → In r rows
      → IsCandidate key day r
      → resolve_from C key day best rows ≢ none
  unfolding resolve_from
  resolve_from-found key day r [] best i c e = absurd i
  resolve_from-found key day r (q ∷ rows) best (inl same) c e =
      let (b, here) = round-candidate q key day best (subst (IsCandidate key day) same c) in
      resolve_from-ne_none key day rows b (subst (λ o. resolve_from C key day o rows ≡ none) here e)
  resolve_from-found key day r (q ∷ rows) best (inr i) c e =
      resolve_from-found key day r rows (round C key day q best) i c e

  module _ (rows : List HierarchyRow) (day : ℕ) where
    abbrev HasKey : Option String → HierarchyRow → Type 0
    HasKey o r = (key : String) × (o ≡ some key) × IsCandidate key day r

    resolve_key-IsInForce :
        (o : Option String)
        → ((m : HierarchyRow)
            → resolve_key C rows o day ≡ some m
            → In m rows
              × HasKey o m
              × ((r : HierarchyRow) → In r rows → HasKey o r → r.valid_from ≤ m.valid_from))
          × ((r : HierarchyRow) → In r rows → HasKey o r → resolve_key C rows o day ≢ none)
    resolve_key-IsInForce none = (λ m e. cc, λ r i h. absurd (none_ne h.1))
    resolve_key-IsInForce (some k) = (
      λ m e. elim (resolve_from-source k day m rows none e) [
        | inl no_row ↦ absurd (none_ne no_row)
        | inr (i, c) ↦ (
          i,
          (k, refl, c),
          λ r j h.
              resolve_from-newest k day m r rows none e j
                (subst (λ x. IsCandidate x day r) (sym (some_eq k h.0 h.1)) h.2),
        )
      ],
      λ r i h.
          resolve_from-found k day r rows none i
            (subst (λ x. IsCandidate x day r) (sym (some_eq k h.0 h.1)) h.2),
    )

  module _ (rows : List HierarchyRow) (agent_id : Option String) (day : ℕ) where
    -- The row is of this agent, whatever the case and the margins of the id, and had begun.
    abbrev pub IsInForce : HierarchyRow → Type 0
    IsInForce r = (key : String) × (normalize_id C agent_id ≡ some key) × IsCandidate key day r

    -- `resolve_node` returns a row of the agent that had begun on the day, at least as new as every
    -- other one of these, and returns none only where there is no such row.
    pub resolve_node-IsInForce :
        ((m : HierarchyRow)
          → resolve_node C rows agent_id day ≡ some m
          → In m rows
            × IsInForce m
            × ((r : HierarchyRow) → In r rows → IsInForce r → r.valid_from ≤ m.valid_from))
        × ((r : HierarchyRow) → In r rows → IsInForce r → resolve_node C rows agent_id day ≢ none)
    unfolding resolve_node
    resolve_node-IsInForce = resolve_key-IsInForce rows day (normalize_id C agent_id)
