-- ===== src/Service/Keys.antt =====
-- The API keys of InMemoryRepo in src/prooflens/service/repo.py, by the hash of the key.
pub mod Access
use prooflens.Base.{
  ℕ, ◌+◌, ◌/◌, suc, String, Bool, true, false, not, ◌&&◌, List, [], ◌∷◌, ◌++◌, Option, none, some,
  map, filter, find, length, take, drop, reverse, ltb, leb, ◌==◌, str_eq, Dict, lookup, insert,
  string_eq, or_else, is_none, nonempty, if◌then◌else◌,
}
use prooflens.Engine.Verdicts.{band_name, reason_value}
use prooflens.Engine.Types.{CheckOutcome, Verdict}
use prooflens.Service.Ids.{Casing, normalize_id}
use prooflens.Service.Hierarchy.{HierarchyRow, NodeField, node_match, same_text}

pub record ApiKey : Type 0 where
  pub id : ℕ
  pub tenant_id : String
  pub revoked : Bool

abbrev pub Keys : Type 0
Keys = Dict String ApiKey

-- `record_api_key`
unfoldable pub record_api_key : ℕ → String → String → Keys → Keys
record_api_key key_id tenant_id key_hash keys =
    insert key_hash (record { id = key_id; tenant_id = tenant_id; revoked = false }) keys

abbrev pub live_tenant {ℓ} : {T : Type ℓ} → Dict String T → Option ApiKey → Option T
live_tenant tenants none = none
live_tenant tenants (some rec) = if rec.revoked then none else lookup rec.tenant_id tenants

-- `tenant_for_api_key`
unfoldable pub tenant_for_api_key {ℓ} : {T : Type ℓ} → Dict String T → String → Keys → Option T
tenant_for_api_key tenants key_hash keys = live_tenant tenants (lookup key_hash keys)

-- `revoke_api_key`
unfoldable pub revoke_api_key : ℕ → Keys → Keys
revoke_api_key key_id [] = []
revoke_api_key key_id ((h, rec) ∷ keys) =
    (h, if rec.id == key_id then record rec { revoked = true } else rec)
    ∷ revoke_api_key key_id keys
