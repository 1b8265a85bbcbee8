-- ===== src/Session/Marker.antt =====
-- The marker at the end of a command's output, OSC133_D of portal_mcp_server/session_manager.py, and the
-- prompts of INTERACTIVE_PROMPT_RE.
use portal_mcp_server.Base.{
  ℕ, ◌+◌, ◌-◌, ◌*◌, codes, Bool, true, false, ◌&&◌, ◌||◌, Option, none, some, List, [], ◌∷◌, drop,
  leb, nat_beq, if◌then◌else◌,
}
use portal_mcp_server.Secrets.{starts_with}

-- How far `\x1b\]133;D(?:;(\d+))?\x07` has matched: what is left of the fixed part, the semicolon, or
-- digits with this value.
pub data Matching : Type 0 where
  fixed : List ℕ → Matching
  semicolon : Matching
  digits : ℕ → Matching

-- What the next byte does.
pub data Move : Type 0 where
  fails : Move
  goes : Matching → Move
  matches : Option ℕ → Move

abbrev is_digit : ℕ → Bool
is_digit c = leb b'0' c && leb c b'9'

unfoldable pub advance : Matching → ℕ → Move
advance (fixed (p ∷ ps)) c = if nat_beq c p then goes (fixed ps) else fails
advance (fixed []) c =
    if nat_beq c 7 then matches none else if nat_beq c b';' then goes semicolon else fails
advance semicolon c = if is_digit c then goes (digits (c - 48)) else fails
advance (digits n) c =
    if is_digit c
    then goes (digits (n * 10 + (c - 48)))
    else if nat_beq c 7
    then matches (some n)
    else fails

abbrev pub lengthen : Option (Option ℕ × ℕ) → Option (Option ℕ × ℕ)
lengthen none = none
lengthen (some (code, len)) = some (code, len + 1)

-- The match that begins at the head of the bytes: the exit code and the length.
unfoldable pub match_from : Matching → List ℕ → Option (Option ℕ × ℕ)
match_from m [] = none
match_from m (c ∷ s) = elim (advance m c) [
  | fails ↦ none
  | goes m' ↦ lengthen (match_from m' s)
  | matches code ↦ some (code, 1)
]

-- `\x1b]133;D`
abbrev pub marker_start : Matching
marker_start = fixed (27 ∷ codes "]133;D")

-- Where the first match begins, and its exit code.
abbrev pub shift : ℕ → Option (ℕ × Option ℕ) → Option (ℕ × Option ℕ)
shift k none = none
shift k (some (i, code)) = some (k + i, code)

unfoldable pub search_done : List ℕ → Option (ℕ × Option ℕ)
search_done [] = none
search_done (c ∷ s) =
    let rest = search_done s in
    elim (match_from marker_start (c ∷ s)) [
      | some (code, len) ↦ some (0, code)
      | none ↦ shift 1 rest
    ]

-- `OSC133_D.search(buf, scan_from)`
abbrev pub search_done_from : ℕ → List ℕ → Option (ℕ × Option ℕ)
search_done_from from buf = shift from (search_done (drop from buf))

-- `[^\n]*(?:password for |的密码)`
unfoldable pub asks_password : List ℕ → Bool
asks_password [] = false
asks_password (c ∷ s) =
    let later = asks_password s in
    if starts_with (codes "password for ") (c ∷ s)
      || starts_with (231 ∷ 154 ∷ 132 ∷ 229 ∷ 175 ∷ 134 ∷ 231 ∷ 160 ∷ 129 ∷ []) (c ∷ s)
    then true
    else if nat_beq c 10
    then false
    else later

-- INTERACTIVE_PROMPT_RE at the head of the bytes.
abbrev prompt_at : List ℕ → Bool
prompt_at s =
    starts_with (codes "[sudo]") s && asks_password (drop 6 s)
    || starts_with (codes "Password:") s
    || starts_with (codes "Enter passphrase for ") s
    || starts_with (codes "Are you sure you want to continue connecting") s

unfoldable pub shows_prompt : List ℕ → Bool
shows_prompt [] = false
shows_prompt (c ∷ s) = let rest = shows_prompt s in if prompt_at (c ∷ s) then true else rest
