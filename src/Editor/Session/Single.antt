-- ===== src/Editor/Session/Single.antt =====
-- A call of `remote_patch` with one patch whose hashes are right.
use portal_mcp_server.Base.{
  ℕ, ◌+◌, ◌-◌, ◌≤◌, ◌<◌, min, max, ◌≡◌, refl, ap, ◌∙◌, Text, Bool, false, List, [], ◌∷◌, ◌++◌,
  Bool-cases, inl, inr, ok, arith, join, take, drop, length, some, pos, ltb, join-append,
  append_assoc, is_empty,
}
use portal_mcp_server.Editor.Lines.{split_keepends_lf, splitlines, join-splitlines}
use portal_mcp_server.Editor.Patch.{
  Patch, Fields, Warning, plan_patch, parse_patch, parse_patches, sort_desc, insert_desc,
  check_overlap, check_range, apply_patches, normalize,
}
use portal_mcp_server.Editor.Session.Laws.{IsAscii, hash_eq_refl}

check_range-same :
    (sha : Text → Text) (p : Patch) (existing : Text)
    → p.range_hash ≡ sha existing
    → IsAscii (sha existing)
    → check_range sha p existing ≡ ok tt
unfolding check_range
check_range-same sha p existing h ascii = elim (Bool-cases (is_empty p.range_hash)) [
  | inl e ↦ rw (e, check_range)
  | inr e ↦ rw (e, check_range, h, hash_eq_refl (sha existing) ascii)
]

module _ (sha : Text → Text) (ascii : (t : Text) → IsAscii (sha t)) (full contents : Text) (s c : ℕ)
    (auto_newline : Bool) (range : s < c) (inside : c ≤ length (split_keepends_lf full)) where
  abbrev lines : List Text
  lines = split_keepends_lf full

  abbrev shown : Text
  shown = join (take (c - s) (drop s lines))

  abbrev pub fields : Fields
  fields = record {
    start = some (pos (s + 1));
    end = some (some (pos c));
    contents = some contents;
    range_hash = sha shown;
  }

  abbrev pub as_patch : Patch
  as_patch = record {
    start = s + 1;
    end = some (pos c);
    contents = contents;
    range_hash = sha shown;
  }

  abbrev put : Text × List Warning
  put = normalize auto_newline as_patch shown

  parsed : parse_patches (fields ∷ []) ≡ ok (as_patch ∷ [])
  unfolding parse_patches parse_patch
  parsed = let e : ltb (s + 1) 1 ≡ false = ground arith in rw e

  applied :
      apply_patches sha auto_newline lines (as_patch ∷ []) lines []
      ≡ ok (take s lines ++ splitlines put.0 ++ drop c lines, put.1)
  unfolding apply_patches
  applied =
      let e : s + 1 - 1 ≡ s = omega arith in
      let m : min (length lines) c ≡ c = omega arith in
      let x : max s c ≡ c = omega arith in
      let b : ltb (length lines) s ≡ false = ground arith in
      rw (e, m, b, check_range-same sha as_patch shown refl (ascii shown), x)

  -- The planned text is the file with the lines `s + 1` to `c` replaced.
  pub plan_patch-single :
      plan_patch sha full (sha full) (fields ∷ []) auto_newline
      ≡ ok (join (take s lines) ++ (put.0 ++ join (drop c lines)), put.1)
  unfolding plan_patch sort_desc insert_desc check_overlap
  plan_patch-single =
      rw (hash_eq_refl (sha full) (ascii full), parsed, applied)
        (ap (λ t. ok (t, put.1))
          (join-append (take s lines ++ splitlines put.0) (drop c lines)
            ∙ rw (
              join-append (take s lines) (splitlines put.0),
              join-splitlines put.0,
              append_assoc (join (take s lines)) put.0 (join (drop c lines)),
            )))
