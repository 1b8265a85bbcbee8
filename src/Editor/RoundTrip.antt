-- ===== src/Editor/RoundTrip.antt =====
-- A page from `remote_read` is what `remote_patch` wants: its numbers and hashes are accepted.
use portal_mcp_server.Base.{
  ℕ, ◌+◌, ◌-◌, ◌≤◌, ◌<◌, ◌≡◌, Text, Bool, false, List, [], ◌∷◌, ◌++◌, ok, arith, if◌then◌else◌,
  join, take, drop, length, Option, none, some, ℤ, pos, leb, ltb, nat_beq, join-append,
  take-append-drop, drop-drop,
}
use portal_mcp_server.Editor.Lines.{split_keepends_lf, join-split_keepends_lf}
use portal_mcp_server.Editor.Read.{
  Caps, ReadResult, remote_read, page_cut, requested_end, line_limit,
}
use portal_mcp_server.Editor.Read.Page.{page_cut_bounds}
use portal_mcp_server.Editor.Patch.{Patch, Fields, plan_patch, normalize}
use portal_mcp_server.Editor.Session.Laws.{IsAscii}
use portal_mcp_server.Editor.Session.Single.{plan_patch-single}

module _ (sha : Text → Text) (width : Text → ℕ) (caps : Caps) (full : Text) (end limit : Option ℤ)
    (s : ℕ) (ascii : (t : Text) → IsAscii (sha t)) (some_line : 0 < line_limit caps limit)
    (inside : s < requested_end (length (split_keepends_lf full)) end) where
  abbrev lines : List Text
  lines = split_keepends_lf full

  abbrev stop : ℕ
  stop = requested_end (length lines) end

  abbrev cut : ℕ
  cut = page_cut width caps limit lines s stop

  -- The page from line `s + 1` on.
  abbrev pub page : ReadResult
  page = remote_read sha width caps full (pos (s + 1)) end limit

  stop-le : stop ≤ length lines
  unfolding requested_end
  stop-le = ground arith

  abbrev shown : Text
  shown = join (take (cut - s) (drop s lines))

  page_lem : page ≡ record {
    content = shown;
    file_hash = sha full;
    range_hash = sha shown;
    start = s + 1;
    end = pos cut;
    total_lines = length lines;
    truncated = ltb cut stop;
    next_start = if ltb cut stop then some (cut + 1) else none;
  }
  unfolding remote_read
  page_lem =
      let e : s + 1 - 1 ≡ s = omega arith in
      let a : leb (length lines) s ≡ false = ground (arith, stop-le) in
      let b : leb stop s ≡ false = ground arith in
      let c : nat_beq (length lines) 0 ≡ false = ground (arith, stop-le) in rw (e, a, b, c)

  -- The patch that puts other contents in the place of the page.
  abbrev pub replacing : Text → Fields
  replacing contents = record {
    start = some (pos page.start);
    end = some (some page.end);
    contents = some contents;
    range_hash = page.range_hash;
  }

  abbrev pub as_patch : Text → Patch
  as_patch contents = record {
    start = page.start;
    end = some page.end;
    contents = contents;
    range_hash = page.range_hash;
  }

  bounds : (s < cut) × (cut ≤ stop)
  bounds =
      let b = page_cut_bounds width caps limit lines s stop some_line inside stop-le in (b.0, b.1)

  abbrev pub before : Text
  before = join (take s lines)

  abbrev pub after : Text
  after = join (drop cut lines)

  before-shown-after : before ++ (shown ++ after) ≡ full
  before-shown-after =
      let d : s + (cut - s) ≡ cut = omega (arith, bounds.0) in
      let e : drop cut lines ≡ drop (cut - s) (drop s lines) =
        rw (drop-drop (cut - s) s lines, d) in
      rw
        (
          e,
          ← join-append (take (cut - s) (drop s lines)) (drop (cut - s) (drop s lines)),
          take-append-drop (cut - s) (drop s lines),
          ← join-append (take s lines) (drop s lines),
          take-append-drop s lines,
        )
        (join-split_keepends_lf full)

  -- With hashes in ASCII, a line limit of at least 1 and a start in the requested range, a page can be
  -- patched as it was read: the file and range hashes are accepted, and the planned
  -- text is the file with the page's lines replaced, up to the line feed that `auto_newline` adds.
  pub read_then_patch :
      (contents : Text) (auto_newline : Bool)
      → plan_patch sha full page.file_hash (replacing contents ∷ []) auto_newline ≡ (
          let (put, warned) = normalize auto_newline (as_patch contents) page.content in
          ok (before ++ (put ++ after), warned))
  read_then_patch contents auto_newline = rw page_lem (
      plan_patch-single sha ascii full contents s cut auto_newline bounds.0
        (omega (arith, stop-le, bounds.1)))

  -- With hashes in ASCII, a line limit of at least 1 and a start in the requested range, the file is
  -- the lines before the page, the page, and the lines after it.
  pub page-parts : before ++ (page.content ++ after) ≡ full
  page-parts = rw page_lem before-shown-after
