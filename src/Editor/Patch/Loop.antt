-- ===== src/Editor/Patch/Loop.antt =====
-- What the loop of `remote_patch` over the sorted patches computes.
use portal_mcp_server.Base.{
  ℕ, ◌≤◌, max, ◌≡◌, Bool, true, ◌⊎◌, List, [], ◌∷◌, ◌++◌, map, append-nil, append_assoc, Text,
  text_eq_iff, ok, join, length, All, arith,
}
use portal_mcp_server.Editor.Lines.{splitlines}
use portal_mcp_server.Editor.Patch.{
  Patch, Warning, hash_eq, check_range, apply_patches, normalize, start_index, end_index,
  end_unclamped, slice, splice,
}
use portal_mcp_server.Editor.Patch.Weave.{Edit, splice_all, Below}
use portal_mcp_server.Editor.Patch.Order.{Descending, Separate}

-- The text that a patch replaces.
abbrev pub existing_of : List Text → Patch → Text
existing_of lines p = join (slice (start_index p) (end_index (length lines) p) lines)

module _ (auto_newline : Bool) (lines : List Text) where
  -- What a patch means: which of the lines it replaces, and by what.
  abbrev pub edit_of : Patch → Edit
  edit_of p = record {
    from = start_index p;
    upto = max (start_index p) (end_index (length lines) p);
    lines = splitlines (normalize auto_newline p (existing_of lines p)).0;
  }

  abbrev pub warnings_of : List Patch → List Warning
  warnings_of [] = []
  warnings_of (p ∷ ps) = (normalize auto_newline p (existing_of lines p)).1 ++ warnings_of ps

-- The patch starts in the file, and its range still has the hash that came with it.
abbrev pub Intact : (Text → Text) → List Text → Patch → Type 0
Intact sha lines p =
    (start_index p ≤ length lines)
    × ((p.range_hash ≡ []) ⊎ (sha (existing_of lines p) ≡ p.range_hash))

hash_eq-true : (a b : Text) → hash_eq a b ≡ ok true → a ≡ b
unfolding hash_eq
hash_eq-true a b h = ground (arith, text_eq_iff a b)

pub check_range-ok :
    (sha : Text → Text) (p : Patch) (existing : Text)
    → check_range sha p existing ≡ ok tt
    → (p.range_hash ≡ []) ⊎ (sha existing ≡ p.range_hash)
unfolding check_range hash_eq
check_range-ok sha p existing h = ground (arith, text_eq_iff (sha existing) p.range_hash)

module _ (sha : Text → Text) (auto_newline : Bool) (lines : List Text) where
  abbrev Applied : List Patch → List Text → List Warning → List Text → List Warning → Type 0
  Applied ps new_lines warnings out warned =
      (out ≡ splice_all (map (edit_of auto_newline lines) ps) new_lines)
      × (warned ≡ warnings ++ warnings_of auto_newline lines ps)
      × All (Intact sha lines) ps

  pub apply_patches-ok :
      (ps : List Patch) (new_lines : List Text) (warnings : List Warning) (out : List Text)
      (warned : List Warning)
      → apply_patches sha auto_newline lines ps new_lines warnings ≡ ok (out, warned)
      → Applied ps new_lines warnings out warned
  unfolding apply_patches
  apply_patches-ok [] new_lines warnings out warned h =
      (ground arith, ground (arith, append-nil warnings), tt)
  apply_patches-ok (p ∷ ps) new_lines warnings out warned h =
      let n = normalize auto_newline p (existing_of lines p) in
      ground (
        arith,
        check_range-ok sha p (existing_of lines p),
        append_assoc warnings n.1 (warnings_of auto_newline lines ps),
        apply_patches-ok ps
            (splice (start_index p) (end_index (length lines) p) (splitlines n.0) new_lines)
            (warnings ++ n.1) out warned,
      )

end_index-le : (lines : List Text) (p : Patch) → end_index (length lines) p ≤ length lines
end_index-le lines p = ground arith

end_index-le-end_unclamped : (total : ℕ) (p : Patch) → end_index total p ≤ end_unclamped total p
end_index-le-end_unclamped total p = ground arith

-- Patches that pass the overlap check, sorted, are edits that lie below one another.
edits-Below :
    (auto_newline : Bool) (lines : List Text) (bound : ℕ) (p : Patch) (ps : List Patch)
    → max (start_index p) (end_index (length lines) p) ≤ bound
    → Descending p.start ps
    → Separate (length lines) (p ∷ ps)
    → Below bound (map (edit_of auto_newline lines) (p ∷ ps))
edits-Below auto_newline lines bound p [] h d s = (omega arith, h, tt)
edits-Below auto_newline lines bound p (q ∷ ps) h d s =
    let le : max (start_index q) (end_index (length lines) q) ≤ start_index p =
      omega (arith, end_index-le-end_unclamped (length lines) q) in
    (omega arith, h, edits-Below auto_newline lines (start_index p) q ps le d.1 s.1)

pub sorted_edits-Below :
    (sha : Text → Text) (auto_newline : Bool) (lines : List Text) (bound : ℕ) (ps : List Patch)
    → Descending bound ps
    → Separate (length lines) ps
    → All (Intact sha lines) ps
    → Below (length lines) (map (edit_of auto_newline lines) ps)
sorted_edits-Below sha auto_newline lines bound [] d s i = tt
sorted_edits-Below sha auto_newline lines bound (p ∷ ps) d s i =
    let le : max (start_index p) (end_index (length lines) p) ≤ length lines =
      omega (arith, end_index-le lines p, i.0.0) in
    edits-Below auto_newline lines (length lines) p ps le d.1 s
