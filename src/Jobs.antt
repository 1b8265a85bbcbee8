-- ===== src/Jobs.antt =====
-- How portal_mcp_server/job_manager.py reads the answer to a poll. `decode` is Python's strict UTF-8
-- decoder and `escape` its decoder with `backslashreplace`.
pub mod Poll
pub mod Output
pub mod Follow
pub mod Table
pub mod Admission
pub mod Persist
use portal_mcp_server.Base.{
  ℕ, ◌-◌, ℤ, pos, negsuc, Text, text_has_eq, ◌==◌, codes, Bool, true, false, Option, none, some,
  List, [], take, length, is_empty, min, if◌then◌else◌, zero, suc,
}

-- A job's status as `_classify` gives it.
pub data Status : Type 0 where
  running finished broken cancelled unknown : Status

-- `status in _TERMINAL`
abbrev pub is_terminal : Status → Bool
is_terminal running = false
is_terminal finished = true
is_terminal broken = true
is_terminal cancelled = true
is_terminal unknown = true

-- The `META:` line: without the marker of the end, or with it and the exit code that can be read.
pub data Meta : Type 0 where
  unmarked : Meta
  marked : Option ℤ → Meta

-- `_classify`; `exit_code` is the one on record.
unfoldable pub classify : Bool → Option ℤ → Meta → Option Text → Status × Option ℤ
classify cancel_requested exit_code (marked none) alive = (unknown, none)
classify cancel_requested exit_code (marked (some (pos zero))) alive = (finished, some (pos zero))
classify cancel_requested exit_code (marked (some (pos (suc n)))) alive =
    (broken, some (pos (suc n)))
classify cancel_requested exit_code (marked (some (negsuc n))) alive = (broken, some (negsuc n))
classify cancel_requested exit_code unmarked alive =
    let ended = if cancel_requested then (cancelled, exit_code) else (unknown, none) in
    elim alive [ none ↦ ended | some a ↦ if a == codes "yes" then (running, none) else ended ]

module _ (decode : List ℕ → Option Text) (escape : List ℕ → Text) (raw : List ℕ) where
  -- The loop of `_decode_incremental` from a trim on, with so many trims left.
  unfoldable pub try_trims : ℕ → ℕ → Text × ℕ
  try_trims zero trim = (escape raw, length raw)
  try_trims (suc left) trim =
      let end = length raw - trim in
      elim (decode (take end raw)) [ some text ↦ (text, end) | none ↦ try_trims left (suc trim) ]

  -- `_decode_incremental`
  unfoldable pub decode_incremental : Text × ℕ
  decode_incremental = if is_empty raw then ([], 0) else try_trims (suc (min 3 (length raw))) 0
