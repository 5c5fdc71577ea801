-- ===== src/Api/Auth/Tests.antt =====
-- Keys that src/prooflens/service/api_keys.py mints, as src/prooflens/api/auth.py accepts them.
use prooflens.Base.{
  String, ◌≡◌, refl, ap, true, false, str_eq, ◌≢◌, [], ◌∷◌, some, inl, inr, Dict, string_eq, rstrip,
  is_space_code, lower_starts_with,
}
use prooflens.Service.Keys.{Keys, tenant_for_api_key, revoke_api_key, record_api_key}
use prooflens.Service.ApiKeys.{Minted, mint_key, generate_key}
use prooflens.Api.Auth.{invalid_api_key, missing_bearer_token, require_tenant}
use prooflens.Api.Auth.Minted.{bearer, require_tenant-mint_key}

-- A tenant is its slug; a digest is the text itself.
abbrev by_slug : Dict String String
by_slug = ("acme", "acme") ∷ ("birch", "birch") ∷ []

abbrev same : String → String
same s = s

abbrev first_key : Keys
first_key = record_api_key 1 "birch" (generate_key "b0") []

unknown_slug : mint_key same same by_slug 2 "t0" "cedar" first_key ≡ inl "unknown tenant cedar"
unfolding mint_key
unknown_slug = refl

no_scheme : require_tenant same by_slug first_key (some "pl_b0") ≡ inl missing_bearer_token
unfolding require_tenant lower_starts_with
no_scheme = refl

different : "pl_b0" ≢ generate_key "t0"
unfolding generate_key
different h = absurd (true_ne_false (ap (str_eq "pl_b0") h))
  where
    true_ne_false : true ≡ false → ⊥
    true_ne_false e = cc

require_tenant-mint_key_example :
    (m : Minted) × (mint_key same same by_slug 2 "t0" "acme" first_key ≡ inr m)
    × (require_tenant same by_slug m.keys (some (bearer m.raw)) ≡ inr "acme")
    × (require_tenant same by_slug (revoke_api_key 2 m.keys) (some (bearer m.raw))
        ≡ inl invalid_api_key)
    × (tenant_for_api_key by_slug "pl_b0" m.keys ≡ tenant_for_api_key by_slug "pl_b0" first_key)
unfolding rstrip is_space_code
require_tenant-mint_key_example =
    require_tenant-mint_key same same by_slug by_slug 2 "t0" "acme" first_key "acme" refl refl refl
      "pl_b0" different
