-- ===== src/Editor/Patch/Order.antt =====
-- The sort of the patches, and what the overlap check of neighbours says of all of them.
use portal_mcp_server.Base.{
  ℕ, ◌≤◌, max, ◌≡◌, List, [], ◌∷◌, ok, arith, ltb, ltb→lt, Bool-cases, inl, inr,
}
use mathlib.Core.List.{Perm}
use mathlib.Core.List.Perm
use portal_mcp_server.Editor.Patch.{
  Patch, insert_desc, sort_desc, check_overlap, end_unclamped, start_index,
}

-- Starts fall along the list, beginning at most at `b`.
abbrev pub Descending : ℕ → List Patch → Type 0
Descending b [] = Unit {0}
Descending b (p ∷ ps) = (p.start ≤ b) × Descending p.start ps

Descending-mono : {a b : ℕ} (ps : List Patch) → a ≤ b → Descending a ps → Descending b ps
Descending-mono [] h d = tt
Descending-mono (p ∷ ps) h d = (omega arith, d.1)

insert_desc-Descending :
    (b : ℕ) (p : Patch) (ps : List Patch)
    → p.start ≤ b
    → Descending b ps
    → Descending b (insert_desc p ps)
unfolding insert_desc
insert_desc-Descending b p [] h d = (h, tt)
insert_desc-Descending b p (q ∷ qs) h d = elim (Bool-cases (ltb p.start q.start)) [
  | inl e ↦
      rw e (d.0, insert_desc-Descending q.start p qs (omega (arith, ltb→lt p.start q.start e)) d.1)
  | inr e ↦ rw e (ground arith)
]

abbrev pub top_start : List Patch → ℕ
top_start [] = 0
top_start (p ∷ ps) = max p.start (top_start ps)

-- In the sorted list the starts fall.
pub sort_desc-Descending : (ps : List Patch) → Descending (top_start ps) (sort_desc ps)
unfolding sort_desc
sort_desc-Descending [] = tt
sort_desc-Descending (p ∷ ps) =
    insert_desc-Descending (max p.start (top_start ps)) p (sort_desc ps) (omega arith)
      (Descending-mono (sort_desc ps) (omega arith) (sort_desc-Descending ps))

insert_desc-perm : (p : Patch) (ps : List Patch) → Perm (insert_desc p ps) (p ∷ ps)
unfolding insert_desc
insert_desc-perm p [] = Perm.refl (p ∷ [])
insert_desc-perm p (q ∷ qs) = elim (Bool-cases (ltb p.start q.start)) [
  | inl e ↦ rw e (Perm.trans (Perm.cons q (insert_desc-perm p qs)) (Perm.swap p q qs))
  | inr e ↦ rw e (Perm.refl (p ∷ q ∷ qs))
]

pub sort_desc-perm : (ps : List Patch) → Perm (sort_desc ps) ps
unfolding sort_desc
sort_desc-perm [] = Perm.refl []
sort_desc-perm (p ∷ ps) =
    Perm.trans (insert_desc-perm p (sort_desc ps)) (Perm.cons p (sort_desc-perm ps))

-- Each patch ends before the one above it starts.
abbrev pub Separate : ℕ → List Patch → Type 0
Separate total [] = Unit {0}
Separate total (p ∷ []) = Unit {0}
Separate total (p ∷ q ∷ ps) = (end_unclamped total q ≤ start_index p) × Separate total (q ∷ ps)

pub check_overlap-Separate :
    (total : ℕ) (ps : List Patch) → check_overlap total ps ≡ ok tt → Separate total ps
unfolding check_overlap
check_overlap-Separate total [] h = tt
check_overlap-Separate total (p ∷ []) h = tt
check_overlap-Separate total (p ∷ q ∷ ps) h = ground (arith, check_overlap-Separate total (q ∷ ps))
