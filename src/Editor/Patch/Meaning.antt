-- ===== src/Editor/Patch/Meaning.antt =====
-- What `remote_patch` writes, and when it refuses to.
use portal_mcp_server.Base.{
  ◌≡◌, ap, ◌∙◌, Bool, true, not, List, [], map, reverse, Text, text_eq_iff, ok, >>=-eq-ok,
  fail_if-eq-ok, join, length, is_empty, All, arith,
}
use portal_mcp_server.Editor.Lines.{split_keepends_lf}
use portal_mcp_server.Editor.Patch.{
  Patch, Fields, Warning, hash_eq, parse_patches, sort_desc, check_overlap, apply_patches,
  plan_patch, file_changed, empty_patches,
}
use portal_mcp_server.Editor.Patch.Weave.{Below, weave, splice_all-weave}
use portal_mcp_server.Editor.Patch.Order.{sort_desc-Descending, check_overlap-Separate, top_start}
use portal_mcp_server.Editor.Patch.Loop.{
  edit_of, warnings_of, Intact, apply_patches-ok, sorted_edits-Below,
}

hash_eq-true : (a b : Text) → hash_eq a b ≡ ok true → a ≡ b
unfolding hash_eq
hash_eq-true a b h = ground (arith, text_eq_iff a b)

-- A plan that succeeds, taken apart.
record Planned (sha : Text → Text) (full file_hash : Text) (raws : List Fields)
    (auto_newline : Bool) (out : Text) (warned : List Warning) : Type 0 where
  fresh : hash_eq (sha full) file_hash ≡ ok true
  parsed : List Patch
  parsed_lem : parse_patches raws ≡ ok parsed
  apart : check_overlap (length (split_keepends_lf full)) (sort_desc parsed) ≡ ok tt
  new_lines : List Text
  applied :
      apply_patches sha auto_newline
        (split_keepends_lf full)
        (sort_desc parsed)
        (split_keepends_lf full)
        []
      ≡ ok (new_lines, warned)
  joined : out ≡ join new_lines

plan_patch-Planned :
    (sha : Text → Text) (full file_hash : Text) (raws : List Fields) (auto_newline : Bool)
    (out : Text) (warned : List Warning)
    → plan_patch sha full file_hash raws auto_newline ≡ ok (out, warned)
    → Planned sha full file_hash raws auto_newline out warned
unfolding plan_patch
plan_patch-Planned sha full file_hash raws auto_newline out warned h =
    let lines = split_keepends_lf full in
    let (_, h₁) = fail_if-eq-ok (is_empty raws) empty_patches _ h in
    let (same, e₂, h₂) = >>=-eq-ok (hash_eq (sha full) file_hash) _ h₁ in
    let (e₃, h₃) = fail_if-eq-ok (not same) (file_changed (sha full) full) _ h₂ in
    let (parsed, e₄, h₄) = >>=-eq-ok (parse_patches raws) _ h₃ in
    let (u, e₅, h₅) = >>=-eq-ok (check_overlap (length lines) (sort_desc parsed)) _ h₄ in
    let (r, e₆, h₆) =
      >>=-eq-ok (apply_patches sha auto_newline lines (sort_desc parsed) lines []) _ h₅ in
    record {
      fresh = ground (arith, e₂, e₃);
      parsed = parsed;
      parsed_lem = e₄;
      apart = e₅;
      new_lines = r.0;
      applied = cc (e₆, h₆);
      joined = cc (h₆);
    }

-- The text `out` is the file's with the ranges of the patches replaced: the caller's file hash is the
-- file's, the sorted patches lie apart and are intact, and `out` is the single pass over the lines,
-- from the top, that replaces each range by its contents.
abbrev pub Means : (Text → Text) → Text → Text → List Fields → Bool → Text → List Warning → Type 0
Means sha full file_hash raws auto_newline out warned =
    let lines = split_keepends_lf full in
    (sha full ≡ file_hash)
    × ((parsed : List Patch) × (parse_patches raws ≡ ok parsed)
        × (let sorted = sort_desc parsed in
            let edits = map (edit_of auto_newline lines) sorted in
            Below (length lines) edits
            × All (Intact sha lines) sorted
            × (warned ≡ warnings_of auto_newline lines sorted)
            × (out ≡ join (weave 0 (reverse edits) lines))))

-- A plan is made only against the file whose hash the caller has, with patches whose ranges lie
-- apart and have the hashes that the caller gave. The text to write is then the single pass over the
-- lines of the file, from the top, that replaces each range by its contents.
pub plan_patch_lem :
    (sha : Text → Text) (full file_hash : Text) (raws : List Fields) (auto_newline : Bool)
    (out : Text) (warned : List Warning)
    → plan_patch sha full file_hash raws auto_newline ≡ ok (out, warned)
    → Means sha full file_hash raws auto_newline out warned
plan_patch_lem sha full file_hash raws auto_newline out warned h =
    let lines = split_keepends_lf full in
    let plan = plan_patch-Planned sha full file_hash raws auto_newline out warned h in
    let sorted = sort_desc plan.parsed in
    let (built, warnings, intact) =
      apply_patches-ok sha auto_newline lines sorted lines [] plan.new_lines warned plan.applied in
    let below =
      sorted_edits-Below sha auto_newline lines (top_start plan.parsed) sorted
        (sort_desc-Descending plan.parsed) (check_overlap-Separate (length lines) sorted plan.apart)
        intact in
    (
      hash_eq-true (sha full) file_hash plan.fresh,
      (
        plan.parsed,
        plan.parsed_lem,
        (
          below,
          intact,
          warnings,
          plan.joined
              ∙ ap join (built ∙ splice_all-weave _ lines (length lines) below (omega arith)),
        ),
      ),
    )
