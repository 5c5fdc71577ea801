-- ===== src/Service/Organisation/Uploaded.antt =====
-- An upload of the organisation, as it is read back, in src/prooflens/service/repo.py.
use prooflens.Base.{
  ℕ, String, ◌≡◌, refl, ap, ◌∙◌, ◌≢◌, inl, inr, List, [], ◌∷◌, Option, none, some, map, string_eq,
  or_else, lookup-insert_self, lookup-insert_ne, Bool-cases, ltb, not, ◌||◌,
}
use prooflens.Service.Ids.{Casing, normalize_id, normalize_id_idem}
use prooflens.Service.Hierarchy.{
  HierarchyRow, NodeField, same_text, field_is, is_agent, better, round, resolve_from, resolve_key,
  resolve_node, node_match,
}
use prooflens.Service.Organisation.{
  Organisation, kept_row, stored_as, replace_hierarchy, get_hierarchy_rows,
}

module _ (C : Casing) where
  abbrev kept : Option HierarchyRow → Option HierarchyRow
  kept none = none
  kept (some r) = some (kept_row C r)

  read_back :
      (upload_id : String) (rows : List HierarchyRow)
      → map (λ s. s.row) (map (stored_as C upload_id) rows) ≡ map (kept_row C) rows
  read_back upload_id [] = refl
  read_back upload_id (r ∷ rows) = ap (λ l. kept_row C r ∷ l) (read_back upload_id rows)

  is_agent-kept_row :
      (key : String) (r : HierarchyRow) → is_agent C key (kept_row C r) ≡ is_agent C key r
  unfolding is_agent
  is_agent-kept_row key r = ap (λ a. same_text a key) (normalize_id_idem C r.agent_id)

  better-kept :
      (r : HierarchyRow) (best : Option HierarchyRow)
      → better C (kept_row C r) (kept best) ≡ kept (better C r best)
  better-kept r none = refl
  better-kept r (some best) = elim (Bool-cases (ltb best.valid_from r.valid_from)) [
    | inl newer ↦ rw newer
    | inr older ↦ rw older
  ]

  round-kept :
      (key : String) (day : ℕ) (r : HierarchyRow) (best : Option HierarchyRow)
      → round C key day (kept_row C r) (kept best) ≡ kept (round C key day r best)
  round-kept key day r best = elim (Bool-cases (not (is_agent C key r) || ltb day r.valid_from)) [
    | inl skipped ↦ rw (is_agent-kept_row key r, skipped)
    | inr taken ↦ rw (is_agent-kept_row key r, taken, better-kept r best)
  ]

  resolve_from-kept :
      (key : String) (day : ℕ) (best : Option HierarchyRow) (rows : List HierarchyRow)
      → resolve_from C key day (kept best) (map (kept_row C) rows)
        ≡ kept (resolve_from C key day best rows)
  unfolding resolve_from
  resolve_from-kept key day best [] = refl
  resolve_from-kept key day best (r ∷ rows) =
      ap (λ b. resolve_from C key day b (map (kept_row C) rows)) (round-kept key day r best)
      ∙ resolve_from-kept key day (round C key day r best) rows

  field_is-kept :
      (dim : NodeField) (node : String) (found : Option HierarchyRow)
      → field_is C dim node (kept found) ≡ field_is C dim node found
  field_is-kept dim node none = refl
  field_is-kept NodeField.sm_field node (some r) = refl
  field_is-kept NodeField.rsm_field node (some r) = refl
  field_is-kept NodeField.srsm_field node (some r) = refl
  field_is-kept NodeField.zonal_head_field node (some r) = refl
  field_is-kept NodeField.branch_field node (some r) = refl
  field_is-kept NodeField.city_field node (some r) = refl

  resolve_key-kept :
      (rows : List HierarchyRow) (key : Option String) (day : ℕ)
      → resolve_key C (map (kept_row C) rows) key day ≡ kept (resolve_key C rows key day)
  resolve_key-kept rows none day = refl
  resolve_key-kept rows (some key) day = resolve_from-kept key day none rows

  node_match-kept :
      (rows : List HierarchyRow) (rep : Option String) (day : ℕ) (dim : NodeField) (node : String)
      → node_match C (map (kept_row C) rows) rep day dim node ≡ node_match C rows rep day dim node
  unfolding node_match resolve_node
  node_match-kept rows rep day dim node =
      ap (field_is C dim node) (resolve_key-kept rows (normalize_id C rep) day)
      ∙ field_is-kept dim node (resolve_key C rows (normalize_id C rep) day)

  pub replace_hierarchy-get :
      (tenant_id upload_id : String) (rows : List HierarchyRow) (org : Organisation)
      → get_hierarchy_rows tenant_id (replace_hierarchy C tenant_id rows upload_id org)
        ≡ map (kept_row C) rows
  unfolding replace_hierarchy get_hierarchy_rows
  replace_hierarchy-get tenant_id upload_id rows org =
      ap (λ found. map (λ s. s.row) (or_else found []))
        (lookup-insert_self tenant_id (map (stored_as C upload_id) rows) org)
      ∙ read_back upload_id rows

  -- After an upload the rows that are read back decide for every representative, day and node as
  -- the rows that were uploaded do, although their ids are kept normalized; the rows of another
  -- tenant are unchanged, and a second upload leaves nothing of the first.
  pub replace_hierarchy-node_match :
      (tenant_id upload_id : String) (rows : List HierarchyRow) (org : Organisation)
      (other : String)
      → tenant_id ≢ other
      → let org' = replace_hierarchy C tenant_id rows upload_id org in
        ((rep : Option String) (day : ℕ) (dim : NodeField) (node : String)
          → node_match C (get_hierarchy_rows tenant_id org') rep day dim node
            ≡ node_match C rows rep day dim node)
        × (get_hierarchy_rows other org' ≡ get_hierarchy_rows other org)
        × ((more : List HierarchyRow) (next_upload : String)
            → get_hierarchy_rows tenant_id (replace_hierarchy C tenant_id more next_upload org')
              ≡ map (kept_row C) more)
  unfolding replace_hierarchy get_hierarchy_rows
  replace_hierarchy-node_match tenant_id upload_id rows org other ne = (
    λ rep day dim node.
        ap (λ l. node_match C l rep day dim node)
          (replace_hierarchy-get tenant_id upload_id rows org)
        ∙ node_match-kept rows rep day dim node,
    ap (λ found. map (λ s. s.row) (or_else found []))
        (lookup-insert_ne tenant_id other (map (stored_as C upload_id) rows) org ne),
    λ more next_upload. replace_hierarchy-get tenant_id next_upload more _,
  )
