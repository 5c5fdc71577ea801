-- ===== src/Service/Tenants.antt =====
-- The tenants of InMemoryRepo in src/prooflens/service/repo.py. A tenant that is added again under
-- another slug is still found under the old one.
use prooflens.Base.{String, List, [], ◌∷◌, Option, Dict, lookup, insert, string_eq}
use prooflens.Service.Processor.{TenantView}

pub record Tenants (R : Type 0) : Type 0 where
  pub by_id : Dict String (TenantView R)
  pub by_slug : Dict String (TenantView R)

module _ {R : Type 0} where
  -- `add_tenant`
  unfoldable pub add_tenant : TenantView R → Tenants R → Tenants R
  add_tenant t s = record { by_id = insert t.id t s.by_id; by_slug = insert t.slug t s.by_slug }

  -- The comprehensions of `__init__`
  unfoldable pub tenants_from : Tenants R → List (TenantView R) → Tenants R
  tenants_from s [] = s
  tenants_from s (t ∷ ts) = tenants_from (add_tenant t s) ts

  abbrev pub get_tenant : String → Tenants R → Option (TenantView R)
  get_tenant tenant_id s = lookup tenant_id s.by_id

  abbrev pub get_tenant_by_slug : String → Tenants R → Option (TenantView R)
  get_tenant_by_slug slug s = lookup slug s.by_slug
