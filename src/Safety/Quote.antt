-- ===== src/Safety/Quote.antt =====
-- `quote_shell` and `build_cwd_prefix` of portal_mcp_server/safety.py, and the words that a POSIX shell
-- reads in what they make.
use portal_mcp_server.Base.{
  ℕ, ◌≡◌, ◌≢◌, refl, ap, ◌∙◌, inl, inr, Text, codes, Bool, true, false, ◌||◌, Option, none, some,
  [], ◌∷◌, ◌++◌, append_assoc, Result, ok, ◌>>=◌, >>=-eq-ok, fail_if-eq-ok, fail_if, ◌>>◌, all, any,
  is_empty, nat_beq, arith, if◌then◌else◌, Bool-cases,
}
use portal_mcp_server.Safety.{Invalid, has_nul, is_letter, is_digit, validate_remote_path}

abbrev pub quote_mark : ℕ
quote_mark = 39

-- The characters that `shlex.quote` leaves bare: `[A-Za-z0-9_@%+=:,./-]`.
abbrev pub is_safe : ℕ → Bool
is_safe c =
    is_letter c
    || is_digit c
    || nat_beq c b'@'
    || nat_beq c b'%'
    || nat_beq c b'+'
    || nat_beq c b'='
    || nat_beq c b':'
    || nat_beq c b','
    || nat_beq c b'.'
    || nat_beq c b'/'
    || nat_beq c b'-'

-- `s.replace("'", "'\"'\"'")`
unfoldable pub escape_quotes : Text → Text
escape_quotes [] = []
escape_quotes (c ∷ s) =
    let rest = escape_quotes s in
    if nat_beq c quote_mark then 39 ∷ 34 ∷ 39 ∷ 34 ∷ 39 ∷ rest else c ∷ rest

-- `shlex.quote`
unfoldable pub shlex_quote : Text → Text
shlex_quote s =
    if is_empty s
    then quote_mark ∷ quote_mark ∷ []
    else if all is_safe s
    then s
    else quote_mark ∷ (escape_quotes s ++ quote_mark ∷ [])

-- `quote_shell`
unfoldable pub quote_shell : Text → Result Invalid Text
quote_shell value = fail_if (any (λ c. nat_beq c 0) value) has_nul >> ok (shlex_quote value)

-- `build_cwd_prefix`; `none` and the empty text are both no directory.
unfoldable pub build_cwd_prefix : Option Text → Text → Result Invalid Text
build_cwd_prefix none command = ok command
build_cwd_prefix (some cwd) command =
    if is_empty cwd
    then ok command
    else validate_remote_path false cwd >>= λ path.
        quote_shell cwd >>= λ quoted. ok (codes "cd " ++ (quoted ++ (codes " && " ++ command)))

-- How the shell reads a character: bare, or between single or double quotes.
pub data Mode : Type 0 where
  bare single double : Mode

-- The characters that end a bare word.
abbrev pub ends_word : ℕ → Bool
ends_word c =
    nat_beq c 32
    || nat_beq c 9
    || nat_beq c 10
    || nat_beq c b'&'
    || nat_beq c b';'
    || nat_beq c b'|'
    || nat_beq c b'<'
    || nat_beq c b'>'
    || nat_beq c b'('
    || nat_beq c b')'

abbrev pub push_char : ℕ → Option (Text × Text) → Option (Text × Text)
push_char c none = none
push_char c (some (word, rest)) = some (c ∷ word, rest)

-- A word of the shell and what follows it. `none` stands for a quote that is not closed and for all that
-- the shell expands: a bare character that is neither safe nor an end, and `$`, a backquote or a
-- backslash between double quotes.
unfoldable pub read_word : Mode → Text → Option (Text × Text)
read_word bare [] = some ([], [])
read_word single [] = none
read_word double [] = none
read_word bare (c ∷ s) =
    let open_single = read_word single s in
    let open_double = read_word double s in
    let more = read_word bare s in
    if nat_beq c quote_mark
    then open_single
    else if nat_beq c 34
    then open_double
    else if is_safe c
    then push_char c more
    else if ends_word c
    then some ([], c ∷ s)
    else none
read_word single (c ∷ s) =
    let close = read_word bare s in
    let more = read_word single s in if nat_beq c quote_mark then close else push_char c more
read_word double (c ∷ s) =
    let close = read_word bare s in
    let more = read_word double s in
    if nat_beq c 34
    then close
    else if nat_beq c b'$' || nat_beq c 96 || nat_beq c 92
    then none
    else push_char c more

-- The text is empty or begins with the end of a word.
abbrev pub EndsWord : Text → Type 0
EndsWord [] = Unit {0}
EndsWord (c ∷ s) = ends_word c ≡ true

read_word-end : (rest : Text) → EndsWord rest → read_word bare rest ≡ some ([], rest)
unfolding read_word
read_word-end [] h = refl
read_word-end (c ∷ s) h = ground (arith, h)

read_word-safe :
    (s rest : Text)
    → all is_safe s ≡ true
    → EndsWord rest
    → read_word bare (s ++ rest) ≡ some (s, rest)
unfolding read_word
read_word-safe [] rest h e = read_word-end rest e
read_word-safe (c ∷ s) rest h e = elim (Bool-cases (is_safe c)) [
  | inl safe ↦ ground (arith, safe, h, read_word-safe s rest)
  | inr other ↦ ground (arith, other, h)
]

abbrev word_of : ℕ → Text → Text → Option (Text × Text)
word_of c s rest = some (c ∷ s, rest)

read_word-escape_quotes :
    (s rest : Text)
    → EndsWord rest
    → read_word single (escape_quotes s ++ quote_mark ∷ rest) ≡ some (s, rest)
unfolding read_word escape_quotes
read_word-escape_quotes [] rest e = read_word-end rest e
read_word-escape_quotes (c ∷ s) rest e =
    let ih = read_word-escape_quotes s rest e in
    elim (Bool-cases (nat_beq c quote_mark)) [
      | inl hit ↦
          let same : quote_mark ≡ c = ground (arith, hit) in
          rw hit (ap (push_char quote_mark) ih ∙ ap (λ d. word_of d s rest) same)
      | inr miss ↦ rw (miss, miss) (ap (push_char c) ih)
    ]

-- A quoted text is read back by the shell as this text, as one word that ends where the quotation does,
-- whatever follows it, if that ends a word.
pub read_word-shlex_quote :
    (s rest : Text) → EndsWord rest → read_word bare (shlex_quote s ++ rest) ≡ some (s, rest)
unfolding shlex_quote read_word
read_word-shlex_quote [] rest e = read_word-end rest e
read_word-shlex_quote (c ∷ s) rest e = elim (Bool-cases (all is_safe (c ∷ s))) [
  | inl safe ↦ rw safe (read_word-safe (c ∷ s) rest safe e)
  | inr other ↦ rw other (
      ap (read_word single) (append_assoc (escape_quotes (c ∷ s)) (quote_mark ∷ []) rest)
      ∙ read_word-escape_quotes (c ∷ s) rest e)
]

-- Where a directory is given and accepted, the command is `cd`, a blank, the directory as the shell
-- reads it, in one word, and then `&&` and the command as it was given.
pub build_cwd_prefix-reads :
    (cwd command out : Text)
    → cwd ≢ []
    → build_cwd_prefix (some cwd) command ≡ ok out
    → (quoted : Text) × (out ≡ codes "cd " ++ (quoted ++ (codes " && " ++ command)))
      × (read_word bare (quoted ++ (codes " && " ++ command)) ≡ some (cwd, codes " && " ++ command))
unfolding build_cwd_prefix quote_shell
build_cwd_prefix-reads [] command out given h = absurd (given refl)
build_cwd_prefix-reads (c ∷ cwd) command out given h =
    let (path, p, h1) = >>=-eq-ok (validate_remote_path false (c ∷ cwd)) _ h in
    let (quoted, q, h2) = >>=-eq-ok (quote_shell (c ∷ cwd)) _ h1 in
    let (clean, made) = fail_if-eq-ok (any (λ d. nat_beq d 0) (c ∷ cwd)) has_nul _ q in
    (
      shlex_quote (c ∷ cwd),
      cc (h2, made),
      read_word-shlex_quote (c ∷ cwd) (codes " && " ++ command) refl,
    )
