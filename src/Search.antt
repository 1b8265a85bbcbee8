-- ===== src/Search.antt =====
-- portal_mcp_server/remote_search.py: what becomes of the lines that rg, grep and find print. The lines
-- of the output are an argument; digits are those of ASCII.
pub mod Paging
pub mod Rows
use portal_mcp_server.Base.{
  ℕ, ◌+◌, ◌-◌, ◌*◌, Text, text_eq, text_has_eq, ◌==◌, codes, strip, Bool, true, false, not, ◌&&◌,
  ◌||◌, Option, none, some, List, [], ◌∷◌, ◌++◌, length, take, drop, reverse, map, keep_if,
  is_empty, leb, ltb, nat_beq, if◌then◌else◌,
}
use portal_mcp_server.Secrets.{starts_with}

-- `base.rstrip("/")`
abbrev strip_slashes : Text → Text
strip_slashes [] = []
strip_slashes (c ∷ s) =
    let rest = strip_slashes s in if nat_beq c b'/' && is_empty rest then [] else c ∷ rest

-- `_relativize`
unfoldable pub relativize : Text → Text → Text
relativize file_path base =
    let prefix = strip_slashes base ++ b'/' ∷ [] in
    if not (text_eq prefix (codes "/")) && starts_with prefix file_path
    then drop (length prefix) file_path
    else if starts_with (codes "./") file_path
    then drop 2 file_path
    else file_path

-- What every mode returns of its rows.
pub record Page {ℓ} (A : Type ℓ) : Type ℓ where
  pub rows : List A
  pub total : ℕ
  pub truncated : Bool

-- `xs[offset:offset + head_limit] if head_limit else xs[offset:]`
abbrev pub page_rows {ℓ} : {A : Type ℓ} → List A → ℕ → ℕ → List A
page_rows xs offset head_limit =
    if nat_beq head_limit 0 then drop offset xs else take head_limit (drop offset xs)

unfoldable pub page {ℓ} : {A : Type ℓ} → List A → ℕ → ℕ → Page A
page xs offset head_limit = record {
  rows = page_rows xs offset head_limit;
  total = length xs;
  truncated = ltb (offset + length (page_rows xs offset head_limit)) (length xs);
}

-- The rows of `files_with_matches`; rg prints the newest file last.
unfoldable pub found_files : Bool → Text → List Text → List Text
found_files rg base lines =
    let files =
      map (λ ln. relativize (strip ln) base) (keep_if (λ ln. not (is_empty (strip ln))) lines) in
    if rg then reverse files else files

abbrev pub is_digit : ℕ → Bool
is_digit c = leb b'0' c && leb c b'9'

abbrev pub read_digits : ℕ → Text → Option ℕ
read_digits n [] = some n
read_digits n (c ∷ s) = if is_digit c then read_digits (n * 10 + (c - 48)) s else none

-- `int(s)` on digits between blanks; no sign and no underscore is read.
unfoldable pub read_int : Text → Option ℕ
read_int s = elim (strip s) [ [] ↦ none | c ∷ ds ↦ read_digits 0 (c ∷ ds) ]

-- What stands before and after the first colon.
abbrev pub push_head : ℕ → Option (Text × Text) → Option (Text × Text)
push_head c none = none
push_head c (some (a, b)) = some (c ∷ a, b)

unfoldable pub split_colon : Text → Option (Text × Text)
split_colon [] = none
split_colon (c ∷ s) =
    let rest = split_colon s in if nat_beq c b':' then some ([], s) else push_head c rest

-- The same for the last colon, `ln.rfind(":")`.
unfoldable pub rsplit_colon : Text → Option (Text × Text)
rsplit_colon [] = none
rsplit_colon (c ∷ s) = elim (rsplit_colon s) [
  | some (a, b) ↦ some (c ∷ a, b)
  | none ↦ if nat_beq c b':' then some ([], s) else none
]

-- The rows of `count`; grep also prints the files without a match.
unfoldable pub counted_files : Bool → Text → List Text → List (Text × ℕ)
counted_files rg base [] = []
counted_files rg base (ln ∷ lines) =
    let rest = counted_files rg base lines in
    elim (rsplit_colon ln) [
      | none ↦ rest
      | some (file, count) ↦ elim (read_int count) [
        | none ↦ rest
        | some n ↦ if rg || ltb 0 n then (relativize file base, n) ∷ rest else rest
      ]
    ]

-- A row of `content`.
pub record ContentRow : Type 0 where
  pub file : Text
  pub line : ℕ
  pub text : Text
  pub is_context : Bool

-- `\d+-` at the head, with the number and what follows; so many digits are read with this value.
unfoldable pub number_dash : Bool → ℕ → Text → Option (ℕ × Text)
number_dash some_read n [] = none
number_dash some_read n (c ∷ s) =
    let more = number_dash true (n * 10 + (c - 48)) s in
    if is_digit c then more else if some_read && nat_beq c b'-' then some (n, s) else none

abbrev push_file : ℕ → Option (Text × ℕ × Text) → Option (Text × ℕ × Text)
push_file c none = none
push_file c (some (file, n, text)) = some (c ∷ file, n, text)

abbrev dash_row : Option (ℕ × Text) → Option (Text × ℕ × Text) → Option (Text × ℕ × Text)
dash_row none later = later
dash_row (some (n, text)) later = some ([], n, text)

-- _GREP_CONTEXT_RE
unfoldable pub context_row : Text → Option (Text × ℕ × Text)
context_row [] = none
context_row (c ∷ s) =
    let later = push_file c (context_row s) in
    if nat_beq c b'-' then dash_row (number_dash false 0 s) later else later

-- `ln.split(":", 2)` where it has three parts, and the second is a number.
unfoldable pub match_row : Text → Option (Text × ℕ × Text)
match_row ln = elim (split_colon ln) [
  | none ↦ none
  | some (file, rest) ↦ elim (split_colon rest) [
    | none ↦ none
    | some (number, text) ↦ elim (read_int number) [ none ↦ none | some n ↦ some (file, n, text) ]
  ]
]

-- The body of the loop over grep's lines.
unfoldable pub read_row : Bool → Text → Text → Option ContentRow
read_row want_context base ln = if text_eq ln (codes "--") then none else elim (match_row ln) [
  | some (file, n, text) ↦
      some (record { file = relativize file base; line = n; text = text; is_context = false })
  | none ↦ elim (if want_context then context_row ln else none) [
    | none ↦ none
    | some (file, n, text) ↦
        some (record { file = relativize file base; line = n; text = text; is_context = true })
  ]
]

unfoldable pub read_rows : Bool → Text → List Text → List ContentRow
read_rows want_context base [] = []
read_rows want_context base (ln ∷ lines) =
    let rest = read_rows want_context base lines in
    elim (read_row want_context base ln) [ none ↦ rest | some row ↦ row ∷ rest ]

-- `remote_glob` on the lines; GLOB_HARD_CAP is 100.
unfoldable pub glob_page : Bool → List Text → Page Text
glob_page rg lines =
    let files =
      map (λ ln. let s = strip ln in if starts_with (codes "./") s then drop 2 s else s)
        (keep_if (λ ln. not (is_empty (strip ln))) lines) in
    let ordered = if rg then reverse files else files in
    record { rows = take 100 ordered; total = length ordered; truncated = ltb 100 (length ordered) }
