-- ===== src/Service/Keys/Access.antt =====
-- The API keys of src/prooflens/service/repo.py: who a key speaks for, before and after it is
-- revoked.
use prooflens.Base.{
  ℕ, String, ◌≡◌, refl, ap, ◌∙◌, ◌≢◌, inl, inr, true, false, [], ◌∷◌, Option, none, some, Dict,
  lookup, string_eq, str_eq, ◌==◌, ==_iff, arith, if◌then◌else◌, Bool-cases, Option-cases,
}
use prooflens.Service.Keys.{ApiKey, Keys, live_tenant, tenant_for_api_key, revoke_api_key}

-- What revoking the id does to a record
abbrev revoked_if : ℕ → Option ApiKey → Option ApiKey
revoked_if key_id none = none
revoked_if key_id (some rec) =
    some (if rec.id == key_id then record rec { revoked = true } else rec)

lookup-revoke_api_key :
    (key_id : ℕ) (h : String) (keys : Keys)
    → lookup h (revoke_api_key key_id keys) ≡ revoked_if key_id (lookup h keys)
unfolding revoke_api_key
lookup-revoke_api_key key_id h [] = refl
lookup-revoke_api_key key_id h ((j, rec) ∷ keys) = elim (Bool-cases (str_eq j h)) [
  | inl e ↦ rw e
  | inr e ↦ rw e (lookup-revoke_api_key key_id h keys)
]

ne_test : (a b : ℕ) → a ≢ b → (a == b) ≡ false
ne_test a b h = ground arith

module _ {T : Type 0} (tenants : Dict String T) (key_id : ℕ) (h : String) (keys : Keys) where
  unrevoked :
      ((rec : ApiKey) → lookup h keys ≡ some rec → rec.id ≢ key_id)
      → live_tenant tenants (revoked_if key_id (lookup h keys))
        ≡ live_tenant tenants (lookup h keys)
  unrevoked other = elim (Option-cases (lookup h keys)) [
    | inl n ↦ rw n
    | inr (rec, e) ↦ rw (e, ne_test rec.id key_id (other rec e))
  ]

  -- A key with the revoked id speaks for no tenant any more, and any other key, known or not, for
  -- whom it did.
  pub tenant_for_api_key-revoke_api_key :
      ((rec : ApiKey)
        → lookup h keys ≡ some rec
        → rec.id ≡ key_id
        → tenant_for_api_key tenants h (revoke_api_key key_id keys) ≡ none)
      × (((rec : ApiKey) → lookup h keys ≡ some rec → rec.id ≢ key_id)
          → tenant_for_api_key tenants h (revoke_api_key key_id keys)
            ≡ tenant_for_api_key tenants h keys)
  unfolding tenant_for_api_key
  tenant_for_api_key-revoke_api_key = (
    λ rec e same. rw (lookup-revoke_api_key key_id h keys, e, (==_iff rec.id key_id).1 same),
    λ other. ap (live_tenant tenants) (lookup-revoke_api_key key_id h keys) ∙ unrevoked other,
  )
