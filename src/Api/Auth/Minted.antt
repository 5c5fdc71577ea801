-- ===== src/Api/Auth/Minted.antt =====
-- A key of src/prooflens/service/api_keys.py, as src/prooflens/api/auth.py accepts it.
use prooflens.Base.{
  ℕ, String, ◌≡◌, refl, ap, ◌∙◌, ◌≢◌, false, sym, insert, rstrip_cons, some, inl, inr, Dict, lookup,
  string_eq, strip, lstrip, rstrip, is_space_code, lower_starts_with, lookup-insert_self,
  lookup-insert_ne,
}
use prooflens.Service.Keys.{
  ApiKey, Keys, live_tenant, record_api_key, tenant_for_api_key, revoke_api_key,
}
use prooflens.Service.Keys.Access.{tenant_for_api_key-revoke_api_key}
use prooflens.Service.ApiKeys.{Minted, generate_key, key_prefix, mint_key}
use prooflens.Api.Auth.{owner_of, invalid_api_key, owner_or_invalid, require_tenant}

-- The header `Authorization: Bearer <raw>`
abbrev pub bearer : String → String
bearer raw = String.◌∷◌ "B" (
    String.◌∷◌ "e"
      (String.◌∷◌ "a" (String.◌∷◌ "r" (String.◌∷◌ "e" (String.◌∷◌ "r" (String.◌∷◌ " " raw))))))

strip-generate_key :
    (token : String) → rstrip token ≡ token → strip (generate_key token) ≡ generate_key token
unfolding strip lstrip rstrip generate_key is_space_code
strip-generate_key token h =
    ap (λ s. rstrip_cons "p" (rstrip_cons "l" (rstrip_cons "_" s))) h ∙ kept token
  where
    kept : (s : String) → rstrip_cons "p" (rstrip_cons "l" (rstrip_cons "_" s)) ≡ generate_key s
    kept String.[] = refl
    kept (String.◌∷◌ c s) = refl

module _ {T : Type 0} (id_of : T → String) (sha256 : String → String)
    (tenants : Dict String T) where
  require_tenant-bearer :
      (token : String) (keys : Keys)
      → rstrip token ≡ token
      → require_tenant sha256 tenants keys (some (bearer (generate_key token)))
        ≡ owner_or_invalid sha256 tenants keys
            (tenant_for_api_key tenants (sha256 (generate_key token)) keys)
  unfolding require_tenant lower_starts_with
  require_tenant-bearer token keys h =
      ap (owner_of sha256 tenants keys) (strip-generate_key token h) ∙ unfold generate_key in refl

  -- A key that is minted for a slug's tenant authenticates as that tenant in a bearer header, until
  -- it is revoked, when the answer is an invalid key. Minting it changes no other key. The token
  -- has no whitespace at its end.
  pub require_tenant-mint_key :
      (by_slug : Dict String T) (key_id : ℕ) (token slug : String) (keys : Keys) (tenant : T)
      → lookup slug by_slug ≡ some tenant
      → lookup (id_of tenant) tenants ≡ some tenant
      → rstrip token ≡ token
      → (other : String) → other ≢ sha256 (generate_key token)
      → (m : Minted) × (mint_key id_of sha256 by_slug key_id token slug keys ≡ inr m)
        × (require_tenant sha256 tenants m.keys (some (bearer m.raw)) ≡ inr tenant)
        × (require_tenant sha256 tenants (revoke_api_key key_id m.keys) (some (bearer m.raw))
            ≡ inl invalid_api_key)
        × (tenant_for_api_key tenants other m.keys ≡ tenant_for_api_key tenants other keys)
  unfolding mint_key tenant_for_api_key record_api_key
  require_tenant-mint_key by_slug key_id token slug keys tenant known active clean other ne =
      let raw = generate_key token in
      let mine : ApiKey = record { id = key_id; tenant_id = id_of tenant; revoked = false } in
      let now = insert (sha256 raw) mine keys in
      let found = lookup-insert_self (sha256 raw) mine keys in
      (
        record { raw = raw; prefix = key_prefix raw; keys = now },
        rw known,
        require_tenant-bearer token now clean
            ∙ ap (owner_or_invalid sha256 tenants now) (ap (live_tenant tenants) found ∙ active),
        require_tenant-bearer token (revoke_api_key key_id now) clean
            ∙ ap (owner_or_invalid sha256 tenants (revoke_api_key key_id now)) (
                (tenant_for_api_key-revoke_api_key tenants key_id (sha256 raw) now).0 mine found
                  refl),
        ap (live_tenant tenants) (lookup-insert_ne (sha256 raw) other mine keys (λ e. ne (sym e))),
      )
