-- ===== src/Editor/Lines/Count.antt =====
-- How many lines `_split_keepends_lf` finds.
use portal_mcp_server.Base.{
  ℕ, ◌+◌, ◌≤◌, max, ◌≡◌, refl, Text, Bool, false, not, List, [], ◌∷◌, length, nat_beq, arith,
  if◌then◌else◌, suc,
}
use portal_mcp_server.Editor.Lines.{attach, split_lf, keep_ends, split_keepends_lf, split_lf-cons}

-- What `wc -l` counts.
abbrev pub count_lf : Text → ℕ
count_lf [] = 0
count_lf (c ∷ cs) = if nat_beq c 10 then suc (count_lf cs) else count_lf cs

-- The text does not end with a line feed.
abbrev pub open_ended : Text → Bool
open_ended [] = false
open_ended (c ∷ []) = not (nat_beq c 10)
open_ended (c ∷ d ∷ cs) = open_ended (d ∷ cs)

abbrev pub lines_by_wc : Text → ℕ
lines_by_wc text = count_lf text + (if open_ended text then 1 else 0)

lines_by_wc_pos : (c : ℕ) (cs : Text) → 1 ≤ lines_by_wc (c ∷ cs)
lines_by_wc_pos c [] = ground arith
lines_by_wc_pos c (d ∷ cs) = ground (arith, lines_by_wc_pos d cs)

length-keep_ends-attach :
    (c : ℕ) (ps : List Text) → length (keep_ends (attach c ps)) ≡ max 1 (length (keep_ends ps))
unfolding keep_ends
length-keep_ends-attach c [] = refl
length-keep_ends-attach c ([] ∷ []) = refl
length-keep_ends-attach c ((d ∷ p) ∷ []) = refl
length-keep_ends-attach c (p ∷ q ∷ ps) = omega arith

length-keep_ends-break :
    (text : Text)
    → length (keep_ends ([] ∷ split_lf text)) ≡ suc (length (keep_ends (split_lf text)))
unfolding keep_ends
length-keep_ends-break text = let (p, ps, e) = split_lf-cons text in rw e

length-split_lf : (text : Text) → length (keep_ends (split_lf text)) ≡ lines_by_wc text
unfolding split_lf keep_ends
length-split_lf [] = refl
length-split_lf (c ∷ []) = ground arith
length-split_lf (c ∷ d ∷ cs) = ground (
  arith,
  length-keep_ends-break (d ∷ cs),
  length-keep_ends-attach c (split_lf (d ∷ cs)),
  length-split_lf (d ∷ cs),
  lines_by_wc_pos d cs,
)

-- The lines of a file are as many as its line feeds, and one more if it does not end with one: the
-- numbers that `grep` and `wc -l` use.
pub length-split_keepends_lf : (text : Text) → length (split_keepends_lf text) ≡ lines_by_wc text
unfolding split_keepends_lf
length-split_keepends_lf [] = refl
length-split_keepends_lf (c ∷ cs) = length-split_lf (c ∷ cs)
