-- ===== src/Jobs/Output.antt =====
-- The output of `poll` in portal_mcp_server/job_manager.py: which bytes of the job's file it fetches,
-- what it returns of them, and where the next call is to read on.
use portal_mcp_server.Base.{
  ℕ, ◌+◌, ◌-◌, ℤ, pos_part, Text, Bool, false, ◌&&◌, Option, none, some, List, take, drop, length,
  min, max, ltb, leb, if◌then◌else◌,
}
use portal_mcp_server.Jobs.{Status, is_terminal, decode_incremental}

-- `max(0, int(since))`
abbrev pub first_byte : ℤ → ℕ
first_byte since = pos_part since

-- `max(4, int(max_bytes))`
abbrev pub chunk_cap : ℤ → ℕ
chunk_cap max_bytes = max 4 (pos_part max_bytes)

-- `tail -c +{off + 1} | head -c "$N"`, where N is what the file has left, and at most the cap.
unfoldable pub fetch_chunk : List ℕ → ℕ → ℕ → List ℕ
fetch_chunk file off cap = take (min cap (length file - off)) (drop off file)

-- `size is not None and off + len(raw) >= size`
abbrev pub at_eof : Option ℕ → ℕ → Bool
at_eof none reached = false
at_eof (some n) reached = leb n reached

-- `more`
abbrev pub has_more : Option ℕ → ℕ → Bool
has_more none new_offset = false
has_more (some n) new_offset = ltb new_offset n

module _ (decode : List ℕ → Option Text) (escape : List ℕ → Text) where
  -- The text of a chunk and the next offset. `size` is `none` where the answer shows no number.
  unfoldable pub poll_chunk : Status → Option ℕ → ℕ → List ℕ → Text × ℕ
  poll_chunk status size off raw =
      let (text, consumed) = decode_incremental decode escape raw in
      if ltb consumed (length raw) && is_terminal status && at_eof size (off + length raw)
      then (escape raw, off + length raw)
      else (text, off + consumed)

  -- A snapshot of the end, where `tail` is asked for.
  abbrev pub poll_tail : Option ℕ → ℕ → List ℕ → Text × ℕ
  poll_tail size off raw = (escape raw, elim size [ none ↦ off | some n ↦ n ])
