-- ===== src/Secrets/Names.antt =====
-- The environment variables of portal_mcp_server/secrets_store.py.
use portal_mcp_server.Base.{
  ℕ, ◌≡◌, ◌≢◌, refl, Text, true, ◌||◌, [], ◌∷◌, map, all, arith, Bool-cases, inl, inr,
}
use portal_mcp_server.Safety.{is_env_key, is_letter, is_digit}
use portal_mcp_server.Secrets.{env_char, env_var_name, starts_with_digit}

env_char_valid : (c : ℕ) → (is_letter (env_char c) || is_digit (env_char c)) ≡ true
env_char_valid c = ground arith

map-env_char_valid : (s : Text) → all (λ d. is_letter d || is_digit d) (map env_char s) ≡ true
map-env_char_valid [] = refl
map-env_char_valid (c ∷ s) = ground (arith, env_char_valid c, map-env_char_valid s)

-- Every name but the empty one gives the name of an environment variable.
pub env_var_name-is_env_key : (name : Text) → name ≢ [] → is_env_key (env_var_name name) ≡ true
unfolding env_var_name
env_var_name-is_env_key [] h = absurd (h refl)
env_var_name-is_env_key (c ∷ s) h = elim (Bool-cases (starts_with_digit (map env_char (c ∷ s)))) [
  | inl digit ↦ rw digit (map-env_char_valid (c ∷ s))
  | inr other ↦ rw other (ground (arith, env_char_valid c, map-env_char_valid s, other))
]
