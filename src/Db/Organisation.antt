-- ===== src/Db/Organisation.antt =====
-- The organisation, its statistics, the tenants and the keys of PostgresRepo in
-- src/prooflens/db/repo.py. A table is a list of its rows; `uuid.UUID` of an id that the repository
-- made is left out.
pub mod Refined
mod Tests
use prooflens.Base.{
  ℕ, ◌+◌, ◌*◌, String, Bool, true, false, not, ◌&&◌, List, [], ◌∷◌, ◌++◌, Option, none, some, map,
  filter, find, count, any, leb, str_eq, Dict, ◌==◌, is_none, day_length, if◌then◌else◌,
}
use prooflens.Engine.Number.{Float}
use prooflens.Service.Ids.{Casing, normalize_id}
use prooflens.Service.Hierarchy.{HierarchyRow, same_text}
use prooflens.Service.Repo.{from_start, before_end}
use prooflens.Service.Organisation.{StoredRow, HierarchyStatus, stored_as, add_new, status_of}
use prooflens.Db.Columns.{fits, fits_or_null, fits_not_null}
use prooflens.Db.Repo.{ResultRow}

-- A row of hierarchy
pub record OrgRow : Type 0 where
  pub tenant_id : String
  pub stored : StoredRow

-- `query(Hierarchy).filter(Hierarchy.tenant_id == tid).all()`
abbrev pub rows_of_tenant : String → List OrgRow → List OrgRow
rows_of_tenant tid table = filter (λ h. str_eq h.tenant_id tid) table

abbrev pub stored_of : String → List OrgRow → List StoredRow
stored_of tid table = map (λ h. h.stored) (rows_of_tenant tid table)

abbrev pub org_row : Casing → String → String → HierarchyRow → OrgRow
org_row C tid upload_id r = record { tenant_id = tid; stored = stored_as C upload_id r }

-- The columns take the row: agent_id is NOT NULL.
abbrev pub is_org_row_storable : OrgRow → Bool
is_org_row_storable h =
    let r = h.stored.row in
    fits_not_null 200 r.agent_id
    && fits_or_null 200 r.agent_name
    && fits_or_null 200 r.sm
    && fits_or_null 200 r.rsm
    && fits_or_null 200 r.srsm
    && fits_or_null 200 r.zonal_head
    && fits_or_null 200 r.branch
    && fits_or_null 200 r.city
    && fits 64 h.stored.upload_id

abbrev pub replaced : String → List OrgRow → List OrgRow → List OrgRow
replaced tid added table = filter (λ h. not (str_eq h.tenant_id tid)) table ++ added

-- `replace_hierarchy`: none is the error of the database where a row does not fit.
unfoldable pub pg_replace_hierarchy :
    Casing → String → List HierarchyRow → String → List OrgRow → Option (List OrgRow)
pg_replace_hierarchy C tid rows upload_id table =
    let added = map (org_row C tid upload_id) rows in
    if any (λ h. not (is_org_row_storable h)) added then none else some (replaced tid added table)

-- `get_hierarchy_rows`
unfoldable pub pg_hierarchy_rows : String → List OrgRow → List HierarchyRow
pg_hierarchy_rows tid table = map (λ s. s.row) (stored_of tid table)

module _ {R : Type 0} where
  -- The rows that `result_counts_by_rep` counts
  abbrev pub is_row_counted : String → Option ℕ → Option ℕ → ResultRow R → Bool
  is_row_counted tid start end r =
      str_eq r.tenant_id tid
      && not (is_none r.rep_id)
      && from_start start r.created_at
      && before_end end r.created_at

  -- `GROUP BY rep_id`: each representative once, with the number of her rows
  unfoldable pub reps_of : List String → List (ResultRow R) → List String
  reps_of reps [] = reps
  reps_of reps (r ∷ rows) = reps_of (add_new r.rep_id reps) rows

  abbrev pub group_of : List (ResultRow R) → String → String × ℕ
  group_of rows rep = (rep, count (λ r. same_text r.rep_id rep) rows)

  -- `result_counts_by_rep`
  unfoldable pub pg_result_counts_by_rep :
      String → Option ℕ → Option ℕ → List (ResultRow R) → Dict String ℕ
  pg_result_counts_by_rep tid start end table =
      let rows = filter (is_row_counted tid start end) table in
      map (group_of rows) (reps_of [] rows)

  -- The normalized representatives of `hierarchy_status`
  abbrev pub is_row_recent : String → ℕ → ResultRow R → Bool
  is_row_recent tid now r =
      str_eq r.tenant_id tid && not (is_none r.rep_id) && leb now (r.created_at + 90 * day_length)

  unfoldable pub pg_recent_reps : Casing → List String → List (ResultRow R) → List String
  pg_recent_reps C ids [] = ids
  pg_recent_reps C ids (r ∷ rows) = pg_recent_reps C (add_new (normalize_id C r.rep_id) ids) rows

module _ (F : Float) (C : Casing) where
  -- `hierarchy_status`
  unfoldable pub pg_hierarchy_status :
      String → ℕ → List OrgRow → List (ResultRow F.Carrier) → HierarchyStatus F.Carrier
  pg_hierarchy_status tid now org table =
      status_of F C (pg_recent_reps C [] (filter (is_row_recent tid now) table)) (stored_of tid org)

-- A row of tenants with its view, and one of api_keys
pub record TenantRow (T : Type 0) : Type 0 where
  pub id : String
  pub slug : String
  pub active : Bool
  pub view : T

pub record KeyRow : Type 0 where
  pub id : ℕ
  pub tenant_id : String
  pub key_hash : String
  pub revoked_at : Option ℕ

abbrev pub live_key : String → KeyRow → Bool
live_key key_hash row = str_eq row.key_hash key_hash && is_none row.revoked_at

module _ {T : Type 0} where
  abbrev pub view_or_none : Option (TenantRow T) → Option T
  view_or_none none = none
  view_or_none (some t) = some t.view

  -- `get_tenant_by_slug`, which passes over tenants that are not active
  unfoldable pub pg_tenant_by_slug : String → List (TenantRow T) → Option T
  pg_tenant_by_slug slug tenants = view_or_none (find (λ t. str_eq t.slug slug && t.active) tenants)

  -- `get_tenant`
  unfoldable pub pg_tenant : String → List (TenantRow T) → Option T
  pg_tenant tid tenants = view_or_none (find (λ t. str_eq t.id tid) tenants)

  abbrev pub active_owner : Option KeyRow → List (TenantRow T) → Option T
  active_owner none tenants = none
  active_owner (some row) tenants =
      view_or_none (find (λ t. str_eq t.id row.tenant_id && t.active) tenants)

  -- `tenant_for_api_key`
  unfoldable pub pg_tenant_for_api_key : String → List KeyRow → List (TenantRow T) → Option T
  pg_tenant_for_api_key key_hash keys tenants = active_owner (find (live_key key_hash) keys) tenants

-- `record_api_key` under a fresh id, and `revoke_api_key`
unfoldable pub pg_record_api_key : ℕ → String → String → List KeyRow → List KeyRow
pg_record_api_key key_id tid key_hash keys =
    keys ++ record { id = key_id; tenant_id = tid; key_hash = key_hash; revoked_at = none } ∷ []

unfoldable pub pg_revoke_api_key : ℕ → ℕ → List KeyRow → List KeyRow
pg_revoke_api_key key_id now [] = []
pg_revoke_api_key key_id now (row ∷ keys) =
    if row.id == key_id
    then record row { revoked_at = some now } ∷ keys
    else row ∷ pg_revoke_api_key key_id now keys
