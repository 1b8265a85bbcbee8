-- ===== src/Tests/EditorRuns.antt =====
-- portal_mcp_server/remote_text_editor.py on a file of three lines. A sum of the characters stands
-- for SHA-256.
use portal_mcp_server.Base.{
  ℕ, ◌+◌, ◌%◌, ◌≡◌, refl, ap, Text, codes, true, false, List, [], ◌∷◌, none, some, pos, ok, arith,
  length, join, text_eq, text_has_eq,
}
use portal_mcp_server.Editor.Lines.{
  join-split_keepends_lf, split_lf, keep_ends, split_keepends_lf, splitlines,
}
use portal_mcp_server.Editor.Read.{Caps, remote_read, page_cut, fill, requested_end, line_limit}
use portal_mcp_server.Editor.Read.Walk.{walk, walk_lem, remote_read_stuck}
use portal_mcp_server.Editor.Patch.{
  Fields, Warning, hash_eq, plan_patch, parse_patch, parse_patches, sort_desc, insert_desc,
  check_overlap, check_range, apply_patches, normalize, needs_newline, ends_lf,
}
use portal_mcp_server.Editor.Patch.Meaning.{Means, plan_patch_lem}
use portal_mcp_server.Editor.Session.{remote_patch}
use portal_mcp_server.Editor.Session.Laws.{IsAscii, remote_patch-ok, remote_patch_succeeds}
use portal_mcp_server.Editor.RoundTrip.{read_then_patch}

sum : Text → ℕ
sum [] = 0
sum (c ∷ cs) = c + sum cs

checksum : Text → Text
unfolding sum
checksum t = (sum t % 97 + 1) ∷ []

checksum-IsAscii : (t : Text) → IsAscii (checksum t)
unfolding checksum
checksum-IsAscii t = ground arith

abbrev file : Text
file = codes "one\ntwo\nthree\n"

abbrev caps : Caps
caps = record { max_lines = 2000; max_bytes = 8 }

-- Two patches: an insertion before line 3 and a replacement of line 1.
abbrev patches : List Fields
patches =
    record {
      start = some (pos 1);
      end = some (some (pos 1));
      contents = some (codes "ONE");
      range_hash = [];
    }
    ∷ record {
      start = some (pos 3);
      end = some (some (pos 2));
      contents = some (codes "and\n");
      range_hash = [];
    }
    ∷ []

abbrev warned : List Warning
warned =
    (record { start = 1; end = some (pos 1); contents = codes "ONE"; range_hash = [] }, true) ∷ []

planned :
    plan_patch checksum file (checksum file) patches true
    ≡ ok (codes "ONE\ntwo\nand\nthree\n", warned)
unfolding plan_patch checksum hash_eq text_eq parse_patches parse_patch sort_desc insert_desc
    check_overlap check_range apply_patches normalize needs_newline ends_lf splitlines
    split_keepends_lf split_lf keep_ends
planned = refl

plan_patch_lem_example :
    Means checksum file (checksum file) patches true (codes "ONE\ntwo\nand\nthree\n") warned
plan_patch_lem_example =
    plan_patch_lem checksum file (checksum file) patches true (codes "ONE\ntwo\nand\nthree\n")
      warned planned

read_then_patch_example :
    plan_patch checksum file
      (checksum file)
      (record {
        start = some (pos 2);
        end = some (some (pos 2));
        contents = some (codes "2\n");
        range_hash = checksum (codes "two\n");
      }
        ∷ [])
      false
    ≡ ok (codes "one\n2\nthree\n", [])
unfolding checksum split_keepends_lf split_lf keep_ends remote_read requested_end page_cut fill
    line_limit normalize needs_newline ends_lf
read_then_patch_example =
    read_then_patch checksum length caps file none none 1 checksum-IsAscii (omega arith)
      (omega arith) (codes "2\n") false

walk_lem_example :
    walk checksum length caps file (some (pos 3)) none 3 2 ≡ some (codes "two\nthree\n")
unfolding split_keepends_lf split_lf keep_ends line_limit requested_end
walk_lem_example =
    walk_lem checksum length caps file (some (pos 3)) none (omega arith) 3 1 (omega arith)

abbrev no_lines : Caps
no_lines = record { max_lines = 0; max_bytes = 8 }

remote_read_stuck_example :
    let r = remote_read checksum length no_lines file (pos 2) none none in
    (r.content ≡ []) × (r.truncated ≡ true) × (r.next_start ≡ some 2)
unfolding split_keepends_lf split_lf keep_ends line_limit requested_end
remote_read_stuck_example =
    remote_read_stuck checksum length no_lines file none none 1 refl (omega arith)

join-split_keepends_lf_example : join (split_keepends_lf file) ≡ file
join-split_keepends_lf_example = join-split_keepends_lf file

-- A remote file that stores what is written.
abbrev write : Text → Text → Text
write new old = new

abbrev same : Text → Text
same t = t

carried_out :
    remote_patch checksum same write (checksum file) patches true file
    ≡ (codes "ONE\ntwo\nand\nthree\n", ok (checksum (codes "ONE\ntwo\nand\nthree\n"), warned))
carried_out =
    remote_patch_succeeds checksum same write (checksum file) patches true file
      (codes "ONE\ntwo\nand\nthree\n") warned planned refl
      (checksum-IsAscii (codes "ONE\ntwo\nand\nthree\n"))

remote_patch-ok_example :
    let run = remote_patch checksum same write (checksum file) patches true file in
    (text : Text) × (plan_patch checksum file (checksum file) patches true ≡ ok (text, warned))
    × (run.0 ≡ text)
    × (checksum run.0 ≡ checksum text)
    × (checksum (codes "ONE\ntwo\nand\nthree\n") ≡ checksum text)
remote_patch-ok_example =
    remote_patch-ok checksum same write (checksum file) patches true file
      (checksum (codes "ONE\ntwo\nand\nthree\n")) warned (ap (λ r. r.1) carried_out)
