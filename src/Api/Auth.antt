-- ===== src/Api/Auth.antt =====
-- src/prooflens/api/auth.py: `require_tenant`, over the key store of service/repo.py.
pub mod Minted
mod Tests
use prooflens.Base.{
  String, Bool, Option, none, some, ◌⊎◌, inl, inr, Dict, lookup, string_eq, nonempty, strip,
  text_drop, lower_starts_with, if◌then◌else◌,
}
use prooflens.Service.Keys.{Keys, tenant_for_api_key}

-- The details of the 401 answers
pub data Unauthorized : Type 0 where
  missing_bearer_token invalid_api_key : Unauthorized

module _ {T : Type 0} (sha256 : String → String) (tenants : Dict String T) (keys : Keys) where
  abbrev pub owner_or_invalid : Option T → Unauthorized ⊎ T
  owner_or_invalid none = inl invalid_api_key
  owner_or_invalid (some tenant) = inr tenant

  abbrev pub owner_of : String → Unauthorized ⊎ T
  owner_of raw =
      if nonempty raw
      then owner_or_invalid (tenant_for_api_key tenants (sha256 raw) keys)
      else inl missing_bearer_token

  unfoldable pub require_tenant : Option String → Unauthorized ⊎ T
  require_tenant none = inl missing_bearer_token
  require_tenant (some authorization) =
      if lower_starts_with authorization "bearer "
      then owner_of (strip (text_drop 7 authorization))
      else inl missing_bearer_token
