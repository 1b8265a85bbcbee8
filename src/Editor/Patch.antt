-- ===== src/Editor/Patch.antt =====
-- `remote_patch` of portal_mcp_server/remote_text_editor.py, up to the new text of the file.
-- SHA-256 and the conversions of the caller's JSON values are parameters: `sha` stands for
-- `_sha256`, and `Fields` says what `int(…)` and `str(…)` give.
pub mod Order
pub mod Weave
pub mod Loop
pub mod Meaning
use portal_mcp_server.Base.{
  ℕ, ◌-◌, ℤ, pos, negsuc, pos_part, Text, text_eq, Bool, true, false, not, ◌&&◌, Option, none, some,
  List, [], ◌∷◌, ◌++◌, Result, ok, err, ◌>>=◌, ◌>>◌, fail_if, take, drop, length, join, is_empty,
  all, ltb, leb, nat_beq, max, min, if◌then◌else◌,
}
use portal_mcp_server.Editor.Lines.{splitlines, split_keepends_lf}

-- `Patch`. Only patches with `start >= 1` are built below, so the start is a natural number.
pub record Patch : Type 0 where
  pub start : ℕ
  pub end : Option ℤ
  pub contents : Text
  pub range_hash : Text

-- The ways in which `remote_patch` reports that it has not written, and the failed check behind
-- the write. `not_ascii` is the exception that `_hash_eq` raises.
pub data PatchError : Type 0 where
  empty_patches : PatchError
  not_ascii : PatchError
  file_changed : Text → Text → PatchError
  invalid_patch : PatchError
  bad_start : ℤ → PatchError
  overlapping : Patch → Patch → PatchError
  beyond_end : ℕ → ℕ → PatchError
  range_changed : Patch → Text → Text → PatchError
  verify_failed : Text → Text → PatchError

-- A warning about a missing line feed: the patch, and whether it was appended.
abbrev pub Warning : Type 0
Warning = Patch × Bool

-- What a raw patch gives under its four keys: `none` where the key is missing or the conversion
-- raises. The end is `some none` where it is missing or `None`; a missing hash is the empty text.
pub record Fields : Type 0 where
  pub start : Option ℤ
  pub end : Option (Option ℤ)
  pub contents : Option Text
  pub range_hash : Text

-- `_hash_eq`: both texts are encoded as ASCII, which may raise.
unfoldable pub hash_eq : Text → Text → Result PatchError Bool
unfolding text_eq
hash_eq a b =
    if all (λ c. ltb c 128) a && all (λ c. ltb c 128) b then ok (text_eq a b) else err not_ascii

-- Step 2 for one raw patch.
unfoldable pub parse_patch : Fields → Result PatchError Patch
parse_patch r = elim r.start [
  | none ↦ err invalid_patch
  | some start ↦ elim r.end [
    | none ↦ err invalid_patch
    | some end ↦ elim r.contents [
      | none ↦ err invalid_patch
      | some contents ↦
          if ltb (pos_part start) 1
          then err (bad_start start)
          else ok (record {
            start = pos_part start;
            end = end;
            contents = contents;
            range_hash = r.range_hash;
          })
    ]
  ]
]

unfoldable pub parse_patches : List Fields → Result PatchError (List Patch)
unfolding parse_patch
parse_patches [] = ok []
parse_patches (r ∷ rs) = parse_patch r >>= λ p. parse_patches rs >>= λ ps. ok (p ∷ ps)

-- Step 3: `parsed.sort(key=lambda p: p.start, reverse=True)`, a stable sort.
unfoldable pub insert_desc : Patch → List Patch → List Patch
insert_desc p [] = p ∷ []
insert_desc p (q ∷ qs) = if ltb p.start q.start then q ∷ insert_desc p qs else p ∷ q ∷ qs

unfoldable pub sort_desc : List Patch → List Patch
unfolding insert_desc
sort_desc [] = []
sort_desc (p ∷ ps) = insert_desc p (sort_desc ps)

-- `total if lower.end is None else max(0, lower.end)`
abbrev pub end_unclamped : ℕ → Patch → ℕ
end_unclamped total p = elim p.end [ none ↦ total | some e ↦ pos_part e ]

-- Step 4: each patch in turn is compared with the one below it.
unfoldable pub check_overlap : ℕ → List Patch → Result PatchError (Unit {0})
check_overlap total [] = ok tt
check_overlap total (upper ∷ []) = ok tt
check_overlap total (upper ∷ lower ∷ ps) =
    fail_if (ltb (upper.start - 1) (end_unclamped total lower)) (overlapping lower upper)
    >> check_overlap total (lower ∷ ps)

abbrev pub start_index : Patch → ℕ
start_index p = p.start - 1

-- `total if p.end is None else max(0, min(total, p.end))`
abbrev pub end_index : ℕ → Patch → ℕ
end_index total p = elim p.end [ none ↦ total | some e ↦ min total (pos_part e) ]

-- `xs[s:e]`
abbrev pub slice : ℕ → ℕ → List Text → List Text
slice s e xs = take (e - s) (drop s xs)

-- `xs[s:e] = new`: a range that ends before it starts is empty.
abbrev pub splice : ℕ → ℕ → List Text → List Text → List Text
splice s e new xs = take s xs ++ new ++ drop (max s e) xs

-- `text.endswith("\n")`
unfoldable pub ends_lf : Text → Bool
ends_lf [] = false
ends_lf (c ∷ []) = nat_beq c 10
ends_lf (c ∷ d ∷ cs) = ends_lf (d ∷ cs)

unfoldable pub needs_newline : Text → Text → Bool
unfolding ends_lf
needs_newline contents existing =
    not (is_empty contents) && not (ends_lf contents) && ends_lf existing

-- The contents that go into the file, and the warning.
unfoldable pub normalize : Bool → Patch → Text → Text × List Warning
unfolding needs_newline
normalize auto_newline p existing =
    if needs_newline p.contents existing
    then (if auto_newline then p.contents ++ 10 ∷ [] else p.contents, (p, auto_newline) ∷ [])
    else (p.contents, [])

module _ (sha : Text → Text) where
  -- `p.range_hash != "" and not _hash_eq(…)`
  unfoldable pub check_range : Patch → Text → Result PatchError (Unit {0})
  unfolding hash_eq
  check_range p existing =
      if is_empty p.range_hash
      then ok tt
      else hash_eq (sha existing) p.range_hash >>= λ same.
          fail_if (not same) (range_changed p (sha existing) existing)

  -- Step 5: the loop over the sorted patches. Ranges are read off the lines as they were.
  unfoldable pub apply_patches :
      Bool
      → List Text
      → List Patch
      → List Text
      → List Warning
      → Result PatchError (List Text × List Warning)
  unfolding check_range normalize splitlines
  apply_patches auto_newline lines [] new_lines warnings = ok (new_lines, warnings)
  apply_patches auto_newline lines (p ∷ ps) new_lines warnings =
      let total = length lines in
      let s = start_index p in
      let e = end_index total p in
      let existing = join (slice s e lines) in
      let (contents, warned) = normalize auto_newline p existing in
      fail_if (ltb total s) (beyond_end p.start total)
      >> check_range p existing
      >> apply_patches auto_newline lines ps (splice s e (splitlines contents) new_lines)
          (warnings ++ warned)

  -- Steps 1 to 5: the text to write and the warnings, or the reason why nothing is written.
  unfoldable pub plan_patch :
      Text → Text → List Fields → Bool → Result PatchError (Text × List Warning)
  plan_patch full file_hash patches auto_newline =
      fail_if (is_empty patches) empty_patches
      >> (hash_eq (sha full) file_hash >>= λ same.
          fail_if (not same) (file_changed (sha full) full)
          >> (let lines = split_keepends_lf full in
              parse_patches patches >>= λ parsed.
              check_overlap (length lines) (sort_desc parsed)
              >> (apply_patches auto_newline lines (sort_desc parsed) lines [] >>= λ r.
                  ok (join r.0, r.1))))
