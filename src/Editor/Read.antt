-- ===== src/Editor/Read.antt =====
-- `remote_read` of portal_mcp_server/remote_text_editor.py, from the text of the file on. The
-- number of bytes of a line in the caller's encoding is the parameter `width`, and SHA-256 is `sha`.
pub mod Page
pub mod Walk
use portal_mcp_server.Base.{
  ℕ, ◌+◌, ◌-◌, ℤ, pos, negsuc, pos_part, Text, Bool, true, false, not, ◌&&◌, ◌||◌, Option, none,
  some, List, [], ◌∷◌, take, drop, length, join, ltb, leb, nat_beq, max, min, suc, if◌then◌else◌,
}
use portal_mcp_server.Editor.Lines.{split_keepends_lf}

-- READ_MAX_LINES and READ_MAX_BYTES, which the environment may set.
pub record Caps : Type 0 where
  pub max_lines : ℕ
  pub max_bytes : ℕ

-- The result's dictionary. `next_start` is there only when `truncated` is.
pub record ReadResult : Type 0 where
  pub content : Text
  pub file_hash : Text
  pub range_hash : Text
  pub start : ℕ
  pub end : ℤ
  pub total_lines : ℕ
  pub truncated : Bool
  pub next_start : Option ℕ

-- The loop over the lines from `s_idx` on: how many of them fit. The first always does.
unfoldable pub fill : (Text → ℕ) → ℕ → Bool → ℕ → List Text → ℕ
fill width budget first acc [] = 0
fill width budget first acc (line ∷ rest) =
    let more = fill width budget false (acc + width line) rest in
    if not first && ltb budget (acc + width line) then 0 else suc more

-- `READ_MAX_LINES if limit is None else max(1, int(limit))`
unfoldable pub line_limit : Caps → Option ℤ → ℕ
line_limit caps none = caps.max_lines
line_limit caps (some l) = max 1 (pos_part l)

-- `total if end is None else max(0, min(total, end))`
unfoldable pub requested_end : ℕ → Option ℤ → ℕ
requested_end total none = total
requested_end total (some e) = min total (pos_part e)

-- Where the page ends: the line index `cut`.
unfoldable pub page_cut : (Text → ℕ) → Caps → Option ℤ → List Text → ℕ → ℕ → ℕ
page_cut width caps limit lines s e =
    let capped = min e (s + line_limit caps limit) in
    s + fill width caps.max_bytes true 0 (take (capped - s) (drop s lines))

-- `max(0, start - 1)`
abbrev pub first_index : ℤ → ℕ
first_index start = pos_part start - 1

unfoldable pub remote_read :
    (Text → Text) → (Text → ℕ) → Caps → Text → ℤ → Option ℤ → Option ℤ → ReadResult
remote_read sha width caps full start end limit =
    let lines = split_keepends_lf full in
    let total = length lines in
    let s = first_index start in
    let e = requested_end total end in
    let shown = if nat_beq total 0 then 1 else s + 1 in
    if leb total s || leb e s
    then record {
      content = [];
      file_hash = sha full;
      range_hash = sha [];
      start = shown;
      end = start;
      total_lines = total;
      truncated = false;
      next_start = none;
    }
    else (let cut = page_cut width caps limit lines s e in
        let text = join (take (cut - s) (drop s lines)) in
        record {
          content = text;
          file_hash = sha full;
          range_hash = sha text;
          start = shown;
          end = pos cut;
          total_lines = total;
          truncated = ltb cut e;
          next_start = if ltb cut e then some (cut + 1) else none;
        })
