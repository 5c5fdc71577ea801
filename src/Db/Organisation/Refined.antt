-- ===== src/Db/Organisation/Refined.antt =====
-- An upload in src/prooflens/db/repo.py beside one in src/prooflens/service/repo.py.
use mathlib.Core.List.{map-append}
use prooflens.Base.{
  String, ◌≡◌, refl, ap, ◌∙◌, sym, subst, ◌⊎◌, inl, inr, true, false, not, List, [], ◌∷◌, ◌++◌,
  some, none, any, false, map, filter, str_eq, lookup, string_eq, or_else, lookup-insert,
  Bool-cases, eq_iff, arith, filter-append, str_eq_refl, if◌then◌else◌,
}
use prooflens.Service.Ids.{Casing}
use prooflens.Service.Hierarchy.{HierarchyRow}
use prooflens.Service.Organisation.{
  StoredRow, Organisation, stored_as, stored_rows, replace_hierarchy,
}
use prooflens.Db.Organisation.{
  OrgRow, rows_of_tenant, stored_of, org_row, is_org_row_storable, replaced, pg_replace_hierarchy,
}

-- Every tenant has the same rows, in the same order, in the table and in the repository in memory.
abbrev pub Agrees : List OrgRow → Organisation → Type 0
Agrees table org = (tid : String) → stored_of tid table ≡ stored_rows tid org

abbrev deleted : List OrgRow → String → List OrgRow
deleted table tid = filter (λ h. not (str_eq h.tenant_id tid)) table

none_left : (tid : String) (table : List OrgRow) → rows_of_tenant tid (deleted table tid) ≡ []
none_left tid [] = refl
none_left tid (h ∷ table) = elim (Bool-cases (str_eq h.tenant_id tid)) [
  | inl own ↦ rw own (none_left tid table)
  | inr other ↦ rw (other, other) (none_left tid table)
]

others_left :
    (tid other : String) (table : List OrgRow)
    → str_eq tid other ≡ false
    → rows_of_tenant other (deleted table tid) ≡ rows_of_tenant other table
others_left tid other [] ne = refl
others_left tid other (h ∷ table) ne =
    ground (arith, eq_iff h.tenant_id tid, ap (λ x. str_eq x other), others_left tid other table ne)

module _ (C : Casing) (upload_id tid : String) where
  all_own :
      (rows : List HierarchyRow)
      → stored_of tid (map (org_row C tid upload_id) rows) ≡ map (stored_as C upload_id) rows
  all_own [] = refl
  all_own (r ∷ rows) = rw (str_eq_refl tid) (ap (λ l. stored_as C upload_id r ∷ l) (all_own rows))

  none_other :
      (other : String) (rows : List HierarchyRow)
      → str_eq tid other ≡ false
      → rows_of_tenant other (map (org_row C tid upload_id) rows) ≡ []
  none_other other [] ne = refl
  none_other other (r ∷ rows) ne = rw ne (none_other other rows ne)

pub replaced-Agrees :
    (C : Casing) (tid upload_id : String) (rows : List HierarchyRow) (table : List OrgRow)
    (org : Organisation)
    → Agrees table org
    → Agrees
        (replaced tid (map (org_row C tid upload_id) rows) table)
        (replace_hierarchy C tid rows upload_id org)
unfolding replace_hierarchy
replaced-Agrees C tid upload_id rows table org agrees other =
    ap (map (λ h. h.stored)) (
      filter-append (λ h. str_eq h.tenant_id other) (deleted table tid)
        (map (org_row C tid upload_id) rows))
    ∙ by_tenant (Bool-cases (str_eq tid other))
    ∙ ap (λ found. or_else found [])
        (sym (lookup-insert tid other (map (stored_as C upload_id) rows) org))
  where
    by_tenant :
        (str_eq tid other ≡ true) ⊎ (str_eq tid other ≡ false)
        → map
            (λ h. h.stored)
            (rows_of_tenant other (deleted table tid)
              ++ rows_of_tenant other (map (org_row C tid upload_id) rows))
          ≡ or_else
              (if str_eq tid other
                then some (map (stored_as C upload_id) rows)
                else lookup other org)
              []
    by_tenant (inl same) = rw same (
        subst
          (λ t.
            map (λ h. h.stored)
              (rows_of_tenant t (deleted table tid)
                ++ rows_of_tenant t (map (org_row C tid upload_id) rows))
            ≡ map (stored_as C upload_id) rows)
          ((eq_iff tid other).0 same)
          (ap
              (λ l.
                map (λ h. h.stored) (l ++ rows_of_tenant tid (map (org_row C tid upload_id) rows)))
              (none_left tid table)
            ∙ all_own C upload_id tid rows))
    by_tenant (inr differ) = rw differ (
        map-append (λ h. h.stored) (rows_of_tenant other (deleted table tid)) _
        ∙ ap
            (λ l.
              map (λ h. h.stored) (rows_of_tenant other (deleted table tid))
              ++ map (λ h. h.stored) l)
            (none_other C upload_id tid other rows differ)
        ∙ ap (λ l. map (λ h. h.stored) l ++ []) (others_left tid other table differ)
        ∙ append_nil (stored_of other table)
        ∙ agrees other)
      where
        append_nil : (l : List StoredRow) → l ++ [] ≡ l
        append_nil [] = refl
        append_nil (x ∷ l) = ap (λ k. x ∷ k) (append_nil l)

-- Where every tenant has the same rows in Postgres and in memory, and the columns take the rows of
-- an upload, the same holds after it for any tenant: hers are the rows of the upload, and those of
-- the others stay.
pub pg_replace_hierarchy-refines :
    (C : Casing) (tid upload_id : String) (rows : List HierarchyRow) (table : List OrgRow)
    (org : Organisation)
    → any (λ h. not (is_org_row_storable h)) (map (org_row C tid upload_id) rows) ≡ false
    → Agrees table org
    → (table' : List OrgRow) × (pg_replace_hierarchy C tid rows upload_id table ≡ some table')
      × Agrees table' (replace_hierarchy C tid rows upload_id org)
unfolding pg_replace_hierarchy
pg_replace_hierarchy-refines C tid upload_id rows table org fit agrees = (
  replaced tid (map (org_row C tid upload_id) rows) table,
  ap (λ b. if b then none else some (replaced tid (map (org_row C tid upload_id) rows) table)) fit,
  replaced-Agrees C tid upload_id rows table org agrees,
)
