-- ===== src/Service/ApiKeys.antt =====
-- src/prooflens/service/api_keys.py: keys are minted for a tenant and stored by their hash. The
-- random token and SHA-256 are arguments.
use prooflens.Base.{
  ℕ, String, Option, none, some, ◌⊎◌, inl, inr, Dict, lookup, string_eq, text_append, text_take,
}
use prooflens.Service.Keys.{Keys, record_api_key}

-- KEY_PREFIX + token
unfoldable pub generate_key : String → String
generate_key token = String.◌∷◌ "p" (String.◌∷◌ "l" (String.◌∷◌ "_" token))

abbrev pub prefix_display_len : ℕ
prefix_display_len = 12

unfoldable pub key_prefix : String → String
key_prefix raw = text_take prefix_display_len raw

-- A new key: the raw text that is shown once, what is kept of it for display, and the stored keys
pub record Minted : Type 0 where
  pub raw : String
  pub prefix : String
  pub keys : Keys

module _ {T : Type 0} (id_of : T → String) (sha256 : String → String) where
  abbrev pub mint_for : ℕ → String → Keys → Option T → String → String ⊎ Minted
  mint_for key_id token keys none slug = inl (text_append "unknown tenant " slug)
  mint_for key_id token keys (some tenant) slug = inr (record {
    raw = generate_key token;
    prefix = key_prefix (generate_key token);
    keys = record_api_key key_id (id_of tenant) (sha256 (generate_key token)) keys;
  })

  -- `mint_key` under the next id: ValueError for an unknown slug
  unfoldable pub mint_key : Dict String T → ℕ → String → String → Keys → String ⊎ Minted
  mint_key by_slug key_id token slug keys = mint_for key_id token keys (lookup slug by_slug) slug
