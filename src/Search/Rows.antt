-- ===== src/Search/Rows.antt =====
-- The rows that portal_mcp_server/remote_search.py reads from what grep prints.
use portal_mcp_server.Base.{
  ℕ, ◌≡◌, refl, ap, inl, inr, Text, text_eq, codes, Bool, true, false, not, some, [], ◌∷◌, ◌++◌,
  all, nat_beq, arith, Bool-cases,
}
use portal_mcp_server.Search.{relativize, read_int, push_head, split_colon, match_row, read_row}

-- No colon.
abbrev pub ColonFree : Text → Type 0
ColonFree s = all (λ c. not (nat_beq c b':')) s ≡ true

split_colon-append : (a b : Text) → ColonFree a → split_colon (a ++ b':' ∷ b) ≡ some (a, b)
unfolding split_colon
split_colon-append [] b free = refl
split_colon-append (c ∷ a) b free = elim (Bool-cases (nat_beq c b':')) [
  | inl hit ↦ cc (rw hit at free)
  | inr miss ↦ rw miss (ap (push_head c) (split_colon-append a b (rw miss at free)))
]

match_row-append :
    (file number text : Text) (n : ℕ)
    → ColonFree file
    → ColonFree number
    → read_int number ≡ some n
    → match_row (file ++ b':' ∷ (number ++ b':' ∷ text)) ≡ some (file, n, text)
unfolding match_row
match_row-append file number text n free free' h =
    rw
      (
        match_row,
        split_colon-append file (number ++ b':' ∷ text) free,
        split_colon-append number text free',
        h,
      )
      refl

not_separator :
    (file rest : Text) → ColonFree file → text_eq (file ++ b':' ∷ rest) (codes "--") ≡ false
unfolding text_eq
not_separator [] rest free = refl
not_separator (c ∷ []) rest free = ground arith
not_separator (c ∷ d ∷ []) rest free = ground arith
not_separator (c ∷ d ∷ e ∷ file) rest free = ground arith

-- A line that grep prints for a match, `file:number:text`, is read as this file, relative to the base,
-- this number and this text, whatever the text is, if the file name has no colon.
pub read_row-match :
    (want_context : Bool) (base file number text : Text) (n : ℕ)
    → ColonFree file
    → ColonFree number
    → read_int number ≡ some n
    → read_row want_context base (file ++ b':' ∷ (number ++ b':' ∷ text))
      ≡ some (record { file = relativize file base; line = n; text = text; is_context = false })
unfolding read_row
read_row-match want_context base file number text n free free' h =
    rw
      (
        read_row,
        not_separator file (number ++ b':' ∷ text) free,
        match_row-append file number text n free free' h,
      )
      refl
