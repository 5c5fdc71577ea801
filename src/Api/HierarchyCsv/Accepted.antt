-- ===== src/Api/HierarchyCsv/Accepted.antt =====
-- The uploads that src/prooflens/api/hierarchy_admin.py accepts, as
-- src/prooflens/service/hierarchy.py reads them.
use prooflens.Base.{
  ℕ, String, ◌≡◌, refl, sym, ap, ◌∙◌, ◌≢◌, subst, inr, true, List, [], ◌∷◌, Option, none, some, map,
  length, str_eq_refl, eq_iff, or_else, All, All-In, All-In_intro, In, IsDistinctOn,
  IsDistinctOn-eq, arith, string_eq,
}
use prooflens.Engine.Number.{Float}
use prooflens.Service.Ids.{Casing, normalize_id}
use prooflens.Service.Hierarchy.{HierarchyRow, is_agent, resolve_node}
use prooflens.Service.Hierarchy.Effective.{resolve_node-IsInForce}
use prooflens.Service.Repo.{ResultView}
use prooflens.Service.Organisation.{
  Organisation, kept_row, replace_hierarchy, get_hierarchy_rows, hierarchy_status,
}
use prooflens.Service.Organisation.Uploaded.{replace_hierarchy-get}
use prooflens.Api.HierarchyCsv.{Key, key_of_row, parse_csv, store_upload, upload_hierarchy}
use prooflens.Api.HierarchyCsv.Parsed.{IsNormal, data_records, some_inj, parse_csv-IsParsed}

module _ (C : Casing) where
  All-kept : (rows : List HierarchyRow) → All (IsNormal C) rows → map (kept_row C) rows ≡ rows
  All-kept [] h = refl
  All-kept (r ∷ rows) h =
      ap (λ x. x ∷ map (kept_row C) rows) h.0.3 ∙ ap (λ l. r ∷ l) (All-kept rows h.1)

  get_hierarchy_rows-replace :
      (tid upload_id : String) (rows : List HierarchyRow) (org : Organisation)
      → All (IsNormal C) rows
      → get_hierarchy_rows tid (replace_hierarchy C tid rows upload_id org) ≡ rows
  get_hierarchy_rows-replace tid upload_id rows org normal =
      replace_hierarchy-get C tid upload_id rows org ∙ All-kept rows normal

  own_agent :
      (r : HierarchyRow) (agent : String)
      → normalize_id C r.agent_id ≡ some agent
      → is_agent C agent r ≡ true
  unfolding is_agent
  own_agent r agent n = rw n (str_eq_refl agent)

  agent-own :
      (r : HierarchyRow) (agent key : String)
      → normalize_id C r.agent_id ≡ some agent
      → is_agent C key r ≡ true
      → agent ≡ key
  unfolding is_agent
  agent-own r agent key n h = (eq_iff agent key).0 (rw n at h)

  normal_id : (r : HierarchyRow) (n : IsNormal C r) → normalize_id C r.agent_id ≡ some n.0
  normal_id r (agent, same, n, k) = ap (normalize_id C) same ∙ n

  same_row :
      (rows : List HierarchyRow) (m r : HierarchyRow)
      → IsDistinctOn key_of_row rows
      → In m rows
      → In r rows
      → m.agent_id ≡ r.agent_id
      → m.valid_from ≡ r.valid_from
      → m ≡ r
  same_row rows m r distinct j i agents days =
      IsDistinctOn-eq key_of_row m r rows distinct j i
        (pair_path (ap (λ a. or_else a "") agents) days)
    where
      pair_path : {a b : String} {x y : ℕ} → a ≡ b → x ≡ y → ◌≡◌ {A = Key} (a, x) (b, y)
      pair_path p q = cc

  -- A row is in force for its agent on the day that it begins.
  in_force_at_first :
      (rows : List HierarchyRow) (r : HierarchyRow)
      → All (IsNormal C) rows
      → IsDistinctOn key_of_row rows
      → In r rows
      → resolve_node C rows r.agent_id r.valid_from ≡ some r
  in_force_at_first rows r normal distinct i =
      by_answer (resolve_node C rows r.agent_id r.valid_from) refl
    where
      by_answer :
          (answer : Option HierarchyRow)
          → resolve_node C rows r.agent_id r.valid_from ≡ answer
          → resolve_node C rows r.agent_id r.valid_from ≡ some r
      by_answer none e =
          let n = All-In (IsNormal C) r rows normal i in
          let id = normal_id r n in
          absurd (
            (resolve_node-IsInForce C rows r.agent_id r.valid_from).1 r i
              (n.0, id, (own_agent r n.0 id, omega arith)) e)
      by_answer (some m) e =
          let n = All-In (IsNormal C) r rows normal i in
          let id = normal_id r n in
          let (j, (key, nk, (of_key, begun)), newest) =
            (resolve_node-IsInForce C rows r.agent_id r.valid_from).0 m e in
          let k = All-In (IsNormal C) m rows normal j in
          let older = newest r i (n.0, id, (own_agent r n.0 id, omega arith)) in
          let keys = agent-own m k.0 key (normal_id m k) of_key in
          let mine = some_inj (sym nk ∙ id) in
          e
          ∙ ap some (
              same_row rows m r distinct j i (k.1 ∙ ap some (keys ∙ mine) ∙ sym n.1)
                (omega (arith, begun, older)))

  module _ (F : Float) (lower : String → String) (other : String → Option ℕ) (today : ℕ) where
    -- An upload that `_parse_csv` accepts has as many rows as the file has lines that are not blank
    -- after its header, at least one, and no two of one agent and day. It is stored for the tenant
    -- and read back as it is, and each of its rows is in force for its agent on the day that it
    -- begins.
    pub upload_hierarchy-in_force :
        (lines : List (List String)) (rows : List HierarchyRow) (tid upload_id : String) (now : ℕ)
        (org : Organisation) (results : List (ResultView F.Carrier))
        → parse_csv C lower other today lines ≡ inr rows
        → (org' : Organisation) × (upload_hierarchy C lower other today F upload_id now org results
              (some tid)
              lines
            ≡ inr ((length rows, hierarchy_status F C tid now org' results), org'))
          × (rows ≢ [])
          × (length rows ≡ length (data_records lower lines))
          × IsDistinctOn key_of_row rows
          × (get_hierarchy_rows tid org' ≡ rows)
          × All
              (λ r. resolve_node C (get_hierarchy_rows tid org') r.agent_id r.valid_from ≡ some r)
              rows
    unfolding upload_hierarchy
    upload_hierarchy-in_force lines rows tid upload_id now org results h =
        let (filled, (normal, fresh, distinct, same)) =
          parse_csv-IsParsed C lower other today lines rows h in
        let org' = replace_hierarchy C tid rows upload_id org in
        let back = get_hierarchy_rows-replace tid upload_id rows org normal in
        (
          org',
          ap (store_upload C lower other today F upload_id now org results (some tid)) h,
          filled,
          same,
          distinct,
          back,
          All-In_intro
              (λ r. resolve_node C (get_hierarchy_rows tid org') r.agent_id r.valid_from ≡ some r)
              rows
              (λ r i.
                subst (λ l. resolve_node C l r.agent_id r.valid_from ≡ some r) (sym back)
                  (in_force_at_first rows r normal distinct i)),
        )
