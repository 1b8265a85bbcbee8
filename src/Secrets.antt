-- ===== src/Secrets.antt =====
-- portal_mcp_server/secrets_store.py: how secrets are named, kept, found, and masked in what the agent
-- gets to see.
pub mod Redact
pub mod Names
pub mod Stdin
use portal_mcp_server.Base.{
  ℕ, ℤ, pos, negsuc, text_eq, ◌+◌, ◌-◌, Text, text_has_eq, ◌==◌, codes, Bool, true, false, not,
  ◌&&◌, ◌||◌, Option, none, some, List, [], ◌∷◌, ◌++◌, length, any, is_empty, keep_if, leb, ltb,
  nat_beq, zero, suc, map, if◌then◌else◌, Result, ok, err,
}
use portal_mcp_server.Base.Dicts.{Dict, lookup, insert, erase}

abbrev pub starts_with : Text → Text → Bool
starts_with [] s = true
starts_with (a ∷ v) [] = false
starts_with (a ∷ v) (c ∷ s) = let rest = starts_with v s in if nat_beq a c then rest else false

-- `v in text`
abbrev pub occurs : Text → Text → Bool
occurs v [] = starts_with v []
occurs v (c ∷ s) = let rest = occurs v s in if starts_with v (c ∷ s) then true else rest

abbrev pub mask : Text
mask = codes "***"

-- `text.replace(v, "***")` for a `v` that is not empty; so many characters at the head are part of an
-- occurrence that is already replaced.
unfoldable pub replace_from : Text → ℕ → Text → Text
replace_from v skip [] = []
replace_from v (suc skip) (c ∷ s) = replace_from v skip s
replace_from v zero (c ∷ s) =
    let hit = starts_with v (c ∷ s) in
    let rest = replace_from v (if hit then length v - 1 else 0) s in
    if hit then mask ++ rest else c ∷ rest

abbrev pub replace : Text → Text → Text
replace v s = replace_from v 0 s

-- `{v for v in values if v}`, without the order of a set.
abbrev pub distinct : List Text → List Text
distinct [] = []
distinct (v ∷ vs) =
    let rest = distinct vs in if is_empty v || any (λ w. w == v) vs then rest else v ∷ rest

abbrev pub insert_longest : Text → List Text → List Text
insert_longest v [] = v ∷ []
insert_longest v (w ∷ ws) =
    let rest = insert_longest v ws in if ltb (length v) (length w) then w ∷ rest else v ∷ w ∷ ws

-- `sorted(…, key=len, reverse=True)`
abbrev pub longest_first : List Text → List Text
longest_first [] = []
longest_first (v ∷ vs) = insert_longest v (longest_first vs)

abbrev pub replace_all : List Text → Text → Text
replace_all [] s = s
replace_all (v ∷ vs) s = replace_all vs (replace v s)

-- `redact`
unfoldable pub redact : Text → List Text → Text
redact text values =
    if is_empty text then text else replace_all (longest_first (distinct values)) text

abbrev is_upper_or_digit : ℕ → Bool
is_upper_or_digit c = leb b'0' c && leb c b'9' || leb b'A' c && leb c b'Z'

-- One character of `re.sub(r"[^A-Za-z0-9_]", "_", name).upper()`.
abbrev pub env_char : ℕ → ℕ
env_char c = if leb b'a' c && leb c b'z' then c - 32 else if is_upper_or_digit c then c else b'_'

abbrev starts_with_digit : Text → Bool
starts_with_digit [] = false
starts_with_digit (c ∷ s) = leb b'0' c && leb c b'9'

-- `env_var_name`
unfoldable pub env_var_name : Text → Text
env_var_name name = let ev = map env_char name in if starts_with_digit ev then b'_' ∷ ev else ev

-- A cache of the program's own process, which `secrets_store`, `sudo_creds`, `ssh_creds` and
-- `passphrase_creds` each have: the value and its expiry.
abbrev pub LocalCache : Type 0
LocalCache = Dict Text (Text × ℕ)

-- `cache_secret`, `cache_sudo_password`, `cache_ssh_password`, `cache_passphrase`
abbrev pub cache_value : Text → Text → ℕ → ℕ → LocalCache → LocalCache
cache_value name value ttl now cache = insert name (value, now + ttl) cache

-- `_get_cached`
unfoldable pub get_cached : Text → ℕ → LocalCache → LocalCache × Option Text
get_cached name now cache = elim (lookup name cache) [
  | none ↦ (cache, none)
  | some (value, expiry) ↦ if leb expiry now then (erase name cache, none) else (cache, some value)
]

-- `clear_secret`, `clear_sudo_password`, `clear_ssh_password`, `clear_passphrase`
abbrev pub clear_cached : Option Text → LocalCache → LocalCache
clear_cached none cache = []
clear_cached (some name) cache = erase name cache

-- `resolve_secret`, with what the credential agent answers, the command that secrets.yaml gives, and
-- what becomes of it.
unfoldable pub resolve_secret :
    {E : Type 0}
    → Text
    → ℕ
    → LocalCache
    → Option Text
    → Option Text
    → (Text → Result E Text)
    → LocalCache × Result E (Option Text)
resolve_secret name now cache agent command run =
    let (cache', cached) = get_cached name now cache in
    (
      cache',
      elim cached [
        | some value ↦ ok (some value)
        | none ↦ elim agent [
          | some value ↦ ok (some value)
          | none ↦ elim command [
            | none ↦ ok none
            | some c ↦
                if is_empty c
                then ok none
                else elim (run c) [ ok value ↦ ok (some value) | err e ↦ err e ]
          ]
        ]
      ],
    )

-- `resolve_sudo_password`: a command that fails gives no password.
unfoldable pub resolve_sudo_password :
    {E : Type 0}
    → Text
    → ℕ
    → LocalCache
    → Option Text
    → Result E (Option Text)
    → LocalCache × Option Text
resolve_sudo_password host now cache agent command =
    let (cache', cached) = get_cached host now cache in
    (
      cache',
      elim cached [
        | some value ↦ some value
        | none ↦ elim agent [
          | some value ↦ some value
          | none ↦ elim command [ ok value ↦ value | err e ↦ none ]
        ]
      ],
    )

-- How the command for a secret runs: it takes too long, or it exits with a code and this output.
pub data CommandRun : Type 0 where
  expired : CommandRun
  exited : ℤ → List ℕ → CommandRun

pub data SecretError : Type 0 where
  took_too_long not_utf8 empty_output : SecretError
  exited_with : ℤ → SecretError

-- One line end less, `\r\n` or `\n`.
unfoldable pub strip_newline : Text → Text
strip_newline [] = []
strip_newline (c ∷ s) =
    let rest = strip_newline s in
    if nat_beq c 13 && text_eq s (10 ∷ []) || nat_beq c 10 && is_empty s then [] else c ∷ rest

-- The secret in a decoded output.
abbrev pub secret_in : Option Text → Result SecretError Text
secret_in none = err not_utf8
secret_in (some text) =
    if is_empty (strip_newline text) then err empty_output else ok (strip_newline text)

-- `_exec_secret_command` of portal_mcp_server/connection_manager.py; `decode` is Python's strict UTF-8
-- decoder.
unfoldable pub exec_secret_command : (List ℕ → Option Text) → CommandRun → Result SecretError Text
exec_secret_command decode expired = err took_too_long
exec_secret_command decode (exited (pos zero) stdout) = secret_in (decode stdout)
exec_secret_command decode (exited (pos (suc n)) stdout) = err (exited_with (pos (suc n)))
exec_secret_command decode (exited (negsuc n) stdout) = err (exited_with (negsuc n))
