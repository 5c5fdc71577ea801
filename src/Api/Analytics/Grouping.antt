-- ===== src/Api/Analytics/Grouping.antt =====
-- The results in the groups of `_groups` of src/prooflens/api/analytics.py.
use prooflens.Base.{
  subst, ℕ, ◌+◌, String, ◌≡◌, refl, sym, ap, ◌∙◌, ◌≢◌, List, [], ◌∷◌, Option, none, some, map,
  filter, length, In, In-map, All, All-In, All-In_intro, IsDistinctOn, string_eq, str_eq, arith,
}
use prooflens.Engine.Number.{Float}
use prooflens.Service.Ids.{Casing, normalize_id}
use prooflens.Service.Hierarchy.{HierarchyRow}
use prooflens.Service.Repo.{ResultView}
use prooflens.Api.Analytics.{GroupField, agent, node_field, tally}
use prooflens.Api.Analytics.Groups.{
  Entry, Entries, GroupKey, agent_key, key_of, join_all, sort_entries, GroupRow, group_row, groups,
}
use prooflens.Api.Analytics.Filed.{
  key, filed-join_all, join_all-IsDistinctOn, filed-In, sizes, sizes-join_all, sizes-sort_entries,
  In-sort_entries,
}
use prooflens.Api.Analytics.Keyed.{
  filter_cong, IsDistinctOn-map_to, HasEntry, join_all-HasEntry, sort_entries-IsDistinctOn,
}
use prooflens.Api.Analytics.Belonging.{
  IsCased, normalize_id-ne-unmapped, is_in_group, name_of, HasName, identity, agent_same,
  node_label_same, agent_keys, some_text,
}

-- `sum(g["total"] for g in groups)`
abbrev pub totals : {R : Type 0} → List (GroupRow R) → ℕ
totals [] = 0
totals (g ∷ gs) = g.counts.total + totals gs

module _ (F : Float) (C : Casing) (items : List (ResultView F.Carrier)) (rows : List HierarchyRow)
    (field : GroupField) where
  abbrev entries : Entries F.Carrier
  entries = join_all (key_of C rows field) items []

  -- The key of some result
  abbrev IsKey : GroupKey → Type 0
  IsKey g = (r : ResultView F.Carrier) × (g ≡ key_of C rows field r)

  totals-group_row :
      (total : ℕ) (es : Entries F.Carrier) → totals (map (group_row F total) es) ≡ sizes es
  unfolding tally
  totals-group_row total [] = refl
  totals-group_row total ((k, e) ∷ es) = ap (λ n. length e.items + n) (totals-group_row total es)

  entry-IsKey : (x : String × Entry F.Carrier) → In x entries → HasEntry IsKey x
  entry-IsKey x i =
      All-In (HasEntry IsKey) x entries
        (join_all-HasEntry IsKey (key_of C rows field) items [] (λ r. (r, refl)) tt) i

  named :
      (k : String) (e : Entry F.Carrier)
      → HasEntry IsKey (k, e)
      → (total : ℕ) → HasName C rows field (group_row F total (k, e))
  named k e (q, same) total = of_field field (ap (λ g. g.label) same) (ap (λ g. g.agent_id) same)
    where
      of_agent :
          (o : Option String)
          → e.label ≡ (agent_key C rows o).label
          → e.agent_id ≡ (agent_key C rows o).agent_id
          → e.label ≡ name_of C rows e.agent_id
      of_agent none sl sa = rw (sl, sa)
      of_agent (some rep) sl sa = rw (sl, sa)

      of_field :
          (f : GroupField)
          → e.label ≡ (key_of C rows f q).label
          → e.agent_id ≡ (key_of C rows f q).agent_id
          → HasName C rows f (group_row F total (k, e))
      of_field agent sl sa = of_agent (normalize_id C q.rep_id) sl sa
      of_field (node_field f) sl sa = sa

  identity_key :
      IsCased C
      → (x y : String × Entry F.Carrier) → HasEntry IsKey x
      → HasEntry IsKey y
      → (total : ℕ)
      → identity C rows field (group_row F total x) ≡ identity C rows field (group_row F total y)
      → x.0 ≡ y.0
  identity_key cased (k, e) (j, d) (q, a) (p, b) total same =
      of_field field (ap (λ g. g.key) a) (ap (λ g. g.label) a) (ap (λ g. g.agent_id) a)
        (ap (λ g. g.key) b) (ap (λ g. g.label) b) (ap (λ g. g.agent_id) b) same
    where
      of_field :
          (f : GroupField)
          → k ≡ (key_of C rows f q).key
          → e.label ≡ (key_of C rows f q).label
          → e.agent_id ≡ (key_of C rows f q).agent_id
          → j ≡ (key_of C rows f p).key
          → d.label ≡ (key_of C rows f p).label
          → d.agent_id ≡ (key_of C rows f p).agent_id
          → identity C rows f (group_row F total (k, e))
            ≡ identity C rows f (group_row F total (j, d))
          → k ≡ j
      of_field agent ak al aa bk bl ba same =
          ak
          ∙ agent_keys C rows (normalize_id C q.rep_id) (normalize_id C p.rep_id)
              (sym aa ∙ same ∙ ba)
          ∙ sym bk
      of_field (node_field f) ak al aa bk bl ba same =
          ak ∙ sym al ∙ some_text e.label d.label same ∙ bl ∙ sym bk

  key_same :
      IsCased C
      → (k : String) (e : Entry F.Carrier)
      → IsKey (record { key = k; label = e.label; agent_id = e.agent_id })
      → (total : ℕ) (r : ResultView F.Carrier)
      → str_eq (key_of C rows field r).key k ≡ is_in_group C rows field (group_row F total (k, e)) r
  key_same cased k e (q, same) total r =
      of_field field (ap (λ g. g.key) same) (ap (λ g. g.label) same) (ap (λ g. g.agent_id) same)
    where
      of_field :
          (f : GroupField)
          → k ≡ (key_of C rows f q).key
          → e.label ≡ (key_of C rows f q).label
          → e.agent_id ≡ (key_of C rows f q).agent_id
          → str_eq (key_of C rows f r).key k ≡ is_in_group C rows f (group_row F total (k, e)) r
      of_field agent sk sl sa =
          rw (sk, sa)
            (agent_same C rows (normalize_id C r.rep_id) (normalize_id C q.rep_id)
              (normalize_id-ne-unmapped C cased r.rep_id)
              (normalize_id-ne-unmapped C cased q.rep_id))
      of_field (node_field f) sk sl sa = rw (sk, sl) (node_label_same C rows f r q)

  -- The row counts and averages exactly the results that belong to it, and is named for them.
  abbrev pub IsGroup : GroupRow F.Carrier → Type 0
  IsGroup g =
      (g.counts ≡ tally F (filter (is_in_group C rows field g) items)) × HasName C rows field g

  group_row-IsGroup :
      IsCased C
      → (total : ℕ) (x : String × Entry F.Carrier) → In x (sort_entries entries)
      → IsGroup (group_row F total x)
  group_row-IsGroup cased total (k, e) i =
      let here = In-sort_entries (k, e) entries i in
      let from = entry-IsKey (k, e) here in
      (
        ap (tally F) (
            sym
              (filed-In k e entries (join_all-IsDistinctOn (key_of C rows field) items [] tt) here)
            ∙ filed-join_all (key_of C rows field) k items []
            ∙ filter_cong (λ r. str_eq (key_of C rows field r).key k)
                (is_in_group C rows field (group_row F total (k, e)))
                (key_same cased k e from total) items),
        named k e from total,
      )

  -- Let upper case change the text "Unmapped". Each row of the groups counts and averages exactly
  -- the results that belong to it: those of its agent id, or those whose agent had on its day a
  -- row of the organisation with its label, "Unmapped" for those without. It bears the display
  -- name of its agent id, or the node; no two rows share an agent id, or a node; and the totals of
  -- the rows add up to all results.
  pub groups-partition :
      ◌≢◌ {A = String} (C.upper "Unmapped") "Unmapped"
      → (totals (groups F C items rows field) ≡ length items)
        × All IsGroup (groups F C items rows field)
        × IsDistinctOn (identity C rows field) (groups F C items rows field)
  unfolding groups
  groups-partition cased = (
    totals-group_row (length items) (sort_entries entries)
        ∙ sizes-sort_entries entries
        ∙ omega (arith, sizes-join_all (key_of C rows field) items []),
    All-In_intro IsGroup (map (group_row F (length items)) (sort_entries entries)) (λ g i.
        let (x, m, e) = In-map (group_row F (length items)) g (sort_entries entries) i in
        subst IsGroup (sym e) (group_row-IsGroup cased (length items) x m)),
    IsDistinctOn-map_to key (identity C rows field) (group_row F (length items))
        (sort_entries entries)
        (λ x y i j same.
          identity_key cased x y (entry-IsKey x (In-sort_entries x entries i))
            (entry-IsKey y (In-sort_entries y entries j)) (length items) same)
        (sort_entries-IsDistinctOn entries
          (join_all-IsDistinctOn (key_of C rows field) items [] tt)),
  )
