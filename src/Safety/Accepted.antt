-- ===== src/Safety/Accepted.antt =====
-- What the validators of portal_mcp_server/safety.py let through.
use portal_mcp_server.Base.{
  ℕ, ◌≡◌, ◌≢◌, ◌≤◌, subst, Text, text_eq, text_has_eq, Bool, true, false, not, ◌&&◌, Option, none,
  some, [], ◌∷◌, ok, any, All, is_empty, nat_beq, arith, >>=-eq-ok, fail_if-eq-ok, ◌⊎◌, inl, inr,
  Bool-cases,
}
use portal_mcp_server.Base.Dicts.{Dict, insert}
use portal_mcp_server.Safety.{
  check_chars, validate_remote_path, is_env_key, validate_env_key, collect_env, validate_env_dict,
}

-- No control character but the tab, and no delete character.
abbrev pub Printable : ℕ → Type 0
Printable c = ((32 ≤ c) ⊎ (c ≡ 9)) × (c ≢ 127)

check_chars-Printable : (s : Text) → check_chars s ≡ ok tt → All Printable s
unfolding check_chars
check_chars-Printable [] h = tt
check_chars-Printable (c ∷ cs) h = ground (arith, check_chars-Printable cs)

-- A path that is accepted is returned unchanged; it has no control character but tabs, and it is
-- empty only where that is allowed.
pub validate_remote_path-Printable :
    (allow_empty : Bool) (path out : Text)
    → validate_remote_path allow_empty path ≡ ok out
    → (out ≡ path) × All Printable path × ((path ≢ []) ⊎ (allow_empty ≡ true))
unfolding validate_remote_path
validate_remote_path-Printable allow_empty path out h =
    let (full, h1) = fail_if-eq-ok (is_empty path && not allow_empty) _ _ h in
    let (nul, h2) = fail_if-eq-ok (any (λ c. nat_beq c 0) path) _ _ h1 in
    let (passed, chars, same) = >>=-eq-ok (check_chars path) (λ passed. ok path) h2 in
    (cc same, check_chars-Printable path chars, some_or path full)
  where
    some_or : (s : Text) → (is_empty s && not allow_empty) ≡ false → (s ≢ []) ⊎ (allow_empty ≡ true)
    some_or [] e = inr (ground (arith, e))
    some_or (c ∷ cs) e = inl (λ k. cc)

-- An environment's keys are names, and its values have no NUL.
abbrev pub CleanEnv : Dict Text Text → Type 0
CleanEnv = All (λ (k, v). (is_env_key k ≡ true) × (any (λ c. nat_beq c 0) v ≡ false))

CleanEnv-insert :
    (k v : Text) (d : Dict Text Text)
    → is_env_key k ≡ true
    → any (λ c. nat_beq c 0) v ≡ false
    → CleanEnv d
    → CleanEnv (insert k v d)
unfolding insert
CleanEnv-insert k v [] key value h = ((key, value), tt)
CleanEnv-insert k v ((j, w) ∷ d) key value (e, h) = elim (Bool-cases (text_eq j k)) [
  | inl s ↦ rw s ((e.0, value), h)
  | inr s ↦ rw s (e, CleanEnv-insert k v d key value h)
]

collect_env-CleanEnv :
    (env : Dict Text (Option Text)) (acc out : Dict Text Text)
    → CleanEnv acc
    → collect_env env acc ≡ ok out
    → CleanEnv out
unfolding collect_env validate_env_key
collect_env-CleanEnv [] acc out clean h = let e : acc ≡ out = cc in subst CleanEnv e clean
collect_env-CleanEnv ((k, none) ∷ env) acc out clean h = elim (Bool-cases (is_env_key k)) [
  | inl e ↦ collect_env-CleanEnv env acc out clean (rw (collect_env, validate_env_key, e) at h)
  | inr e ↦ cc (rw (collect_env, validate_env_key, e) at h)
]
collect_env-CleanEnv ((k, some v) ∷ env) acc out clean h = elim (Bool-cases (is_env_key k)) [
  | inr e ↦ cc (rw (collect_env, validate_env_key, e) at h)
  | inl e ↦
      let (value, rest) =
        fail_if-eq-ok (any (λ c. nat_beq c 0) v) _ _ (rw (collect_env, validate_env_key, e) at h) in
      collect_env-CleanEnv env (insert k v acc) out (CleanEnv-insert k v acc e value clean) rest
]

-- An environment that is accepted has only names as keys and no value with a NUL.
pub validate_env_dict-CleanEnv :
    (env : Option (Dict Text (Option Text))) (out : Dict Text Text)
    → validate_env_dict env ≡ ok out
    → CleanEnv out
unfolding validate_env_dict
validate_env_dict-CleanEnv none out h = let e : [] ≡ out = cc in subst CleanEnv e tt
validate_env_dict-CleanEnv (some env) out h = collect_env-CleanEnv env [] out tt h
