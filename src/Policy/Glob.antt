-- ===== src/Policy/Glob.antt =====
-- `fnmatch.fnmatch`, as portal_mcp_server/security.py uses it: shell patterns over whole texts, on a
-- system whose paths keep their case.
use portal_mcp_server.Base.{
  ℕ, zero, suc, ◌+◌, Text, Bool, true, false, not, ◌&&◌, ◌||◌, Option, none, some, List, [], ◌∷◌,
  length, any, is_empty, leb, nat_beq, if◌then◌else◌,
}

-- One part of a pattern: `*`, `?`, `[…]` or `[!…]` with its ranges, or a character.
pub data Piece : Type 0 where
  star : Piece
  one : Piece
  among : Bool → List (ℕ × ℕ) → Piece
  literal : ℕ → Piece

-- The characters up to the next `]`, if there is one.
abbrev up_to_bracket : Text → Option Text
up_to_bracket [] = none
up_to_bracket (c ∷ cs) =
    let rest = up_to_bracket cs in
    if nat_beq c b']' then some [] else elim rest [ none ↦ none | some body ↦ some (c ∷ body) ]

-- The body of a set: a `]` that comes first belongs to it.
abbrev set_body : Text → Option Text
set_body [] = none
set_body (c ∷ cs) = elim (up_to_bracket cs) [ none ↦ none | some body ↦ some (c ∷ body) ]

-- The ranges of a set's body; a character by itself is a range.
abbrev ranges : Text → List (ℕ × ℕ)
ranges [] = []
ranges (a ∷ []) = (a, a) ∷ []
ranges (a ∷ b ∷ []) = (a, a) ∷ (b, b) ∷ []
ranges (a ∷ b ∷ c ∷ cs) =
    let far = ranges cs in
    let near = ranges (b ∷ c ∷ cs) in if nat_beq b b'-' then (a, c) ∷ far else (a, a) ∷ near

-- What follows a `[`: the set, and how many characters it takes.
abbrev read_set : Text → Option (Piece × ℕ)
read_set [] = none
read_set (c ∷ cs) =
    if nat_beq c b'!'
    then elim (set_body cs) [
      | none ↦ none
      | some body ↦ some (among false (ranges body), length body + 2)
    ]
    else elim (set_body (c ∷ cs)) [
      | none ↦ none
      | some body ↦ some (among true (ranges body), length body + 1)
    ]

-- The parts of a pattern; so many characters at its head are already read.
unfoldable pub pieces : ℕ → Text → List Piece
pieces skip [] = []
pieces (suc skip) (c ∷ cs) = pieces skip cs
pieces zero (c ∷ cs) =
    if nat_beq c b'*'
    then star ∷ pieces 0 cs
    else if nat_beq c b'?'
    then one ∷ pieces 0 cs
    else if nat_beq c b'['
    then elim (read_set cs) [
      | none ↦ literal c ∷ pieces 0 cs
      | some (piece, taken) ↦ piece ∷ pieces taken cs
    ]
    else literal c ∷ pieces 0 cs

abbrev fits : Piece → ℕ → Bool
fits star c = true
fits one c = true
fits (among wanted rs) c =
    let found = any (λ (a, b). leb a c && leb c b) rs in if wanted then found else not found
fits (literal a) c = nat_beq a c

-- Some end of the text passes.
abbrev any_end : (Text → Bool) → Text → Bool
any_end p [] = p []
any_end p (c ∷ cs) = p (c ∷ cs) || any_end p cs

unfoldable pub glob : List Piece → Text → Bool
glob [] s = is_empty s
glob (star ∷ ps) s = any_end (glob ps) s
glob (p ∷ ps) [] = false
glob (p ∷ ps) (c ∷ cs) = fits p c && glob ps cs

unfoldable pub fnmatch : Text → Text → Bool
fnmatch s pattern = glob (pieces 0 pattern) s
