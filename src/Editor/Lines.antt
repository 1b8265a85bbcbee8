-- ===== src/Editor/Lines.antt =====
-- How portal_mcp_server/remote_text_editor.py cuts a file into lines. A text is a list of code
-- points; a line feed is 10.
pub mod Count
use portal_mcp_server.Base.{
  ℕ, Text, Bool, true, false, List, [], ◌∷◌, ◌++◌, ◌||◌, ◌&&◌, ◌≡◌, refl, ap, ◌∙◌, arith, leb,
  nat_beq, join, is_empty, if◌then◌else◌,
}

-- A character is put in front of the first piece.
abbrev attach : ℕ → List Text → List Text
attach c [] = (c ∷ []) ∷ []
attach c (p ∷ ps) = (c ∷ p) ∷ ps

-- `text.split("\n")`
unfoldable pub split_lf : Text → List Text
split_lf [] = [] ∷ []
split_lf (c ∷ cs) = if nat_beq c 10 then [] ∷ split_lf cs else attach c (split_lf cs)

-- The last two statements of `_split_keepends_lf`: all parts but the last get their line feed
-- back, and the last is kept if it is not empty.
unfoldable pub keep_ends : List Text → List Text
keep_ends [] = []
keep_ends (p ∷ []) = if is_empty p then [] else p ∷ []
keep_ends (p ∷ q ∷ ps) = (p ++ 10 ∷ []) ∷ keep_ends (q ∷ ps)

-- `_split_keepends_lf`
unfoldable pub split_keepends_lf : Text → List Text
unfolding split_lf keep_ends
split_keepends_lf text = if is_empty text then [] else keep_ends (split_lf text)

-- The characters at which `str.splitlines` breaks.
abbrev is_break : ℕ → Bool
is_break c =
    leb 10 c && leb c 13
    || leb 28 c && leb c 30
    || nat_beq c 133
    || nat_beq c 8232
    || nat_beq c 8233

abbrev starts_lf : Text → Bool
starts_lf [] = false
starts_lf (c ∷ cs) = nat_beq c 10

-- `text.splitlines(keepends=True)`; a carriage return keeps the line feed that follows it.
unfoldable pub splitlines : Text → List Text
splitlines [] = []
splitlines (c ∷ cs) =
    let rest = splitlines cs in
    if is_break c
    then (if nat_beq c 13 && starts_lf cs then attach c rest else (c ∷ []) ∷ rest)
    else attach c rest

join-attach : (c : ℕ) (ps : List Text) → join (attach c ps) ≡ c ∷ join ps
join-attach c [] = refl
join-attach c (p ∷ ps) = refl

-- Cutting a text into lines loses nothing.
pub join-splitlines : (text : Text) → join (splitlines text) ≡ text
unfolding splitlines
join-splitlines [] = refl
join-splitlines (c ∷ cs) = ground (arith, join-attach c (splitlines cs), join-splitlines cs)

join-keep_ends-attach :
    (c : ℕ) (ps : List Text) → join (keep_ends (attach c ps)) ≡ c ∷ join (keep_ends ps)
unfolding keep_ends
join-keep_ends-attach c [] = refl
join-keep_ends-attach c ([] ∷ []) = refl
join-keep_ends-attach c ((d ∷ p) ∷ []) = refl
join-keep_ends-attach c (p ∷ q ∷ ps) = refl

split_lf-cons : (text : Text) → (p : Text) × (ps : List Text) × (split_lf text ≡ p ∷ ps)
unfolding split_lf
split_lf-cons [] = ([], [], refl)
split_lf-cons (c ∷ cs) = first (nat_beq c 10) (split_lf-cons cs)
  where
    first :
        (b : Bool)
        → (p : Text) × (ps : List Text) × (split_lf cs ≡ p ∷ ps)
        → (p : Text) × (ps : List Text) × ((if b then [] ∷ split_lf cs else attach c (split_lf cs))
            ≡ p ∷ ps)
    first true r = ([], split_lf cs, refl)
    first false (p, ps, e) = (c ∷ p, ps, ap (attach c) e)

join-keep_ends-break :
    (ps : List Text) (q : Text) (qs : List Text)
    → ps ≡ q ∷ qs
    → join (keep_ends ([] ∷ ps)) ≡ 10 ∷ join (keep_ends ps)
unfolding keep_ends
join-keep_ends-break ps q qs e = rw e refl

join-split_lf : (text : Text) → join (keep_ends (split_lf text)) ≡ text
unfolding split_lf keep_ends
join-split_lf [] = refl
join-split_lf (c ∷ cs) =
    let (q, qs, e) = split_lf-cons cs in
    ground (
      arith,
      join-keep_ends-attach c (split_lf cs),
      join-keep_ends-break (split_lf cs) q qs e,
      join-split_lf cs,
    )

-- Joined again, the lines of a file are the file.
pub join-split_keepends_lf : (text : Text) → join (split_keepends_lf text) ≡ text
unfolding split_keepends_lf
join-split_keepends_lf [] = refl
join-split_keepends_lf (c ∷ cs) = join-split_lf (c ∷ cs)
