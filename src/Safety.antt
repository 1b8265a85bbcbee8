-- ===== src/Safety.antt =====
-- The validators of portal_mcp_server/safety.py, on values of the type that they want.
pub mod Accepted
pub mod Quote
use portal_mcp_server.Base.{
  ℕ, ℤ, pos, negsuc, Text, codes, text_has_eq, ◌==◌, Bool, true, false, not, ◌&&◌, ◌||◌, Option,
  none, some, List, [], ◌∷◌, ◌++◌, Result, ok, err, ◌>>=◌, ◌>>◌, fail_if, any, all, is_empty, leb,
  ltb, nat_beq, strip, if◌then◌else◌,
}
use portal_mcp_server.Base.Dicts.{Dict, insert}

-- The reasons of a `ValueError`.
pub data Invalid : Type 0 where
  empty_path has_nul has_delete bad_env_key env_value_nul bad_name : Invalid
  has_control : ℕ → Invalid
  bad_pid : Invalid

-- `normalize_host_name`
abbrev pub normalize_host_name : Text → Text
normalize_host_name = strip

-- The loop over the characters of a path.
unfoldable pub check_chars : Text → Result Invalid (Unit {0})
check_chars [] = ok tt
check_chars (c ∷ cs) =
    fail_if (ltb c 32 && not (nat_beq c 9)) (has_control c)
    >> (fail_if (nat_beq c 127) has_delete >> check_chars cs)

-- `validate_remote_path`
unfoldable pub validate_remote_path : Bool → Text → Result Invalid Text
validate_remote_path allow_empty path =
    fail_if (is_empty path && not allow_empty) empty_path
    >> (fail_if (any (λ c. nat_beq c 0) path) has_nul >> (check_chars path >>= λ passed. ok path))

abbrev pub is_letter : ℕ → Bool
is_letter c = leb b'a' c && leb c b'z' || leb b'A' c && leb c b'Z' || nat_beq c b'_'

abbrev pub is_digit : ℕ → Bool
is_digit c = leb b'0' c && leb c b'9'

-- `_ENV_KEY_RE.fullmatch`
abbrev pub is_env_key : Text → Bool
is_env_key [] = false
is_env_key (c ∷ cs) = is_letter c && all (λ d. is_letter d || is_digit d) cs

-- `validate_env_key`
unfoldable pub validate_env_key : Text → Result Invalid Text
validate_env_key key = if is_env_key key then ok key else err bad_env_key

-- The loop of `validate_env_dict`; a value is what `str` gives, or `none`.
unfoldable pub collect_env :
    Dict Text (Option Text) → Dict Text Text → Result Invalid (Dict Text Text)
collect_env [] out = ok out
collect_env ((k, v) ∷ env) out = validate_env_key k >>= λ key. elim v [
  | none ↦ collect_env env out
  | some s ↦ fail_if (any (λ c. nat_beq c 0) s) env_value_nul >> collect_env env (insert k s out)
]

-- `validate_env_dict`
unfoldable pub validate_env_dict :
    Option (Dict Text (Option Text)) → Result Invalid (Dict Text Text)
validate_env_dict none = ok []
validate_env_dict (some env) = collect_env env []

-- `validate_tmux_name`
unfoldable pub validate_tmux_name : Text → Result Invalid Text
validate_tmux_name name =
    if not (is_empty name) && all (λ c. is_letter c || is_digit c || nat_beq c b'-') name
    then ok name
    else err bad_name

-- `validate_pid`
unfoldable pub validate_pid : ℤ → Result Invalid ℕ
validate_pid (negsuc n) = err bad_pid
validate_pid (pos n) = if nat_beq n 0 || ltb 4194304 n then err bad_pid else ok n
