-- ===== src/Db/Organisation/Tests.antt =====
-- The organisation and the keys of src/prooflens/db/repo.py on small tables.
use prooflens.Base.{
  String, ◌≡◌, refl, true, false, List, [], ◌∷◌, none, some, map, strip, lstrip, rstrip,
  is_space_code,
}
use prooflens.Service.Ids.{normalize_id}
use prooflens.Service.Hierarchy.{HierarchyRow}
use prooflens.Service.Organisation.{Organisation, replace_hierarchy}
use prooflens.Service.Processor.Samples.{plain}
use prooflens.Db.Organisation.{
  OrgRow, org_row, replaced, TenantRow, KeyRow, pg_replace_hierarchy, pg_tenant_for_api_key,
  pg_record_api_key, pg_revoke_api_key,
}
use prooflens.Db.Organisation.Refined.{Agrees, replaced-Agrees, pg_replace_hierarchy-refines}

abbrev agent_row : String → HierarchyRow
agent_row id = record {
  agent_id = some id;
  agent_name = none;
  sm = some "M1";
  rsm = none;
  srsm = none;
  zonal_head = none;
  branch = none;
  city = none;
  valid_from = 10;
}

abbrev table : List OrgRow
table = replaced "birch" (map (org_row plain "birch" "u1") (agent_row "B2" ∷ [])) []

abbrev org : Organisation
org = replace_hierarchy plain "birch" (agent_row "B2" ∷ []) "u1" []

agreed : Agrees table org
agreed = replaced-Agrees plain "birch" "u1" (agent_row "B2" ∷ []) [] [] (λ tid. refl)

pg_replace_hierarchy-refines_example :
    (table' : List OrgRow) × (pg_replace_hierarchy plain "acme" (agent_row " a7" ∷ []) "u2" table
      ≡ some table')
    × Agrees table' (replace_hierarchy plain "acme" (agent_row " a7" ∷ []) "u2" org)
unfolding normalize_id strip lstrip rstrip is_space_code
pg_replace_hierarchy-refines_example =
    pg_replace_hierarchy-refines plain "acme" "u2" (agent_row " a7" ∷ []) table org refl agreed

-- A row without an agent's id does not fit.
blank_agent : pg_replace_hierarchy plain "acme" (agent_row " " ∷ []) "u2" table ≡ none
unfolding pg_replace_hierarchy normalize_id strip lstrip rstrip is_space_code
blank_agent = refl

abbrev tenants : List (TenantRow String)
tenants =
    record { id = "t1"; slug = "acme"; active = true; view = "acme" }
    ∷ record { id = "t2"; slug = "birch"; active = false; view = "birch" }
    ∷ []

abbrev keys : List KeyRow
keys = pg_record_api_key 2 "t2" "h2" (pg_record_api_key 1 "t1" "h1" [])

-- A key is accepted while it is not revoked and its tenant is active.
accepted : pg_tenant_for_api_key "h1" keys tenants ≡ some "acme"
unfolding pg_tenant_for_api_key pg_record_api_key
accepted = refl

inactive : pg_tenant_for_api_key "h2" keys tenants ≡ none
unfolding pg_tenant_for_api_key pg_record_api_key
inactive = refl

revoked : pg_tenant_for_api_key "h1" (pg_revoke_api_key 1 50 keys) tenants ≡ none
unfolding pg_tenant_for_api_key pg_record_api_key pg_revoke_api_key
revoked = refl
