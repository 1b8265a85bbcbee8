-- ===== src/Session.antt =====
-- How portal_mcp_server/session_manager.py runs a command in a persistent shell: what it writes, and the
-- loop that reads the output until the marker of the end. Times are natural numbers.
pub mod Marker
pub mod Scan
pub mod Whole
pub mod Registry
use portal_mcp_server.Base.{
  ℕ, ◌+◌, ◌-◌, ℤ, pos, negsuc, Text, codes, Bool, true, false, not, ◌&&◌, ◌||◌, Option, none, some,
  List, [], ◌∷◌, ◌++◌, length, take, drop, is_empty, any, ltb, leb, nat_beq, if◌then◌else◌,
}
use portal_mcp_server.Session.Marker.{search_done, search_done_from, shows_prompt}

-- `rstrip("\n")`
abbrev pub drop_newlines : Text → Text
drop_newlines [] = []
drop_newlines (c ∷ s) =
    let rest = drop_newlines s in if nat_beq c 10 && is_empty rest then [] else c ∷ rest

-- `_wrap_compound`
unfoldable pub wrap_compound : Text → Text
wrap_compound command =
    if any (λ c. nat_beq c 10) command
    then codes "{" ++ 10 ∷ drop_newlines command ++ 10 ∷ codes "}"
    else command

-- What a read gives: bytes (none of them at the end of the stream), nothing for _READ_POLL seconds, or
-- a channel that is broken.
pub data Read : Type 0 where
  bytes : List ℕ → Read
  quiet broken : Read

-- A read, the clock when the loop tests the deadline before it, and the clock after it.
pub record Event : Type 0 where
  pub before : ℕ
  pub read : Read
  pub after : ℕ

-- How a command ends: the bytes before the marker with the exit code, the deadline, a prompt that was
-- interrupted, or a dead session. `kept` is whether the session stays in the registry.
pub data CommandEnd : Type 0 where
  completed : List ℕ → ℤ → Bool → CommandEnd
  timed_out : List ℕ → Bool → Bool → CommandEnd
  prompt_blocked : List ℕ → CommandEnd
  session_dead : CommandEnd

-- The constants of the module and the deadline of the call, and whether Ctrl-C can be written.
pub record ShellLimits : Type 0 where
  pub max_output : ℕ
  pub grace : ℕ
  pub cancel_timeout : ℕ
  pub deadline : ℕ
  pub interrupts : Bool

-- `int(m.group(1)) if m.group(1) is not None else -2`
abbrev pub exit_of : Option ℕ → ℤ
exit_of (some n) = pos n
exit_of none = negsuc 1

-- The bytes of the next reads until a marker, for `_await_next_done`.
unfoldable pub await_next_done : ℕ → List ℕ → List Event → Option ℤ
await_next_done deadline buf [] = none
await_next_done deadline buf (e ∷ es) =
    let waiting = await_next_done deadline buf es in
    if ltb e.before deadline
    then elim e.read [
      | quiet ↦ waiting
      | broken ↦ none
      | bytes chunk ↦ if is_empty chunk then none else elim (search_done (buf ++ chunk)) [
        | some (at, code) ↦ some (exit_of code)
        | none ↦ await_next_done deadline (buf ++ chunk) es
      ]
    ]
    else none

-- Whether a marker arrives after Ctrl-C, which is written at this time.
abbrev pub recovers : ShellLimits → ℕ → List Event → Bool
recovers l now es =
    l.interrupts
    && elim (await_next_done (now + l.cancel_timeout) [] es) [ some code ↦ true | none ↦ false ]

-- `_soft_cancel`
unfoldable pub soft_cancel : ShellLimits → ℕ → List ℕ → List Event → CommandEnd
soft_cancel l now buf es = if recovers l now es then prompt_blocked buf else session_dead

-- `prompt_deadline is not None and time.monotonic() >= prompt_deadline`
abbrev pub grace_over : Option ℕ → ℕ → Bool
grace_over none now = false
grace_over (some t) now = leb t now

-- The buffer, the time from which a prompt counts as one that waits, and whether the head is cut_length.
pub record Reading : Type 0 where
  pub buf : List ℕ
  pub prompt_deadline : Option ℕ
  pub truncated : Bool

-- `buf += chunk`, and the cut at MAX_OUTPUT_BYTES: how many bytes are cut_length.
abbrev pub cut_length : ShellLimits → List ℕ → List ℕ → ℕ
cut_length l buf chunk = length (buf ++ chunk) - l.max_output

-- `scan_from`; _MARKER_OVERLAP is 64.
abbrev pub scan_from : ShellLimits → List ℕ → List ℕ → ℕ
scan_from l buf chunk = length buf - cut_length l buf chunk - 64

-- The reading after a chunk that has no marker.
unfoldable pub note_prompt : ShellLimits → List ℕ → ℕ → Reading → Reading
note_prompt l chunk now r =
    let cut = drop (cut_length l r.buf chunk) (r.buf ++ chunk) in
    let seen = shows_prompt (drop (scan_from l r.buf chunk) cut) in
    record {
      buf = cut;
      prompt_deadline = elim r.prompt_deadline [
        | some t ↦ some t
        | none ↦ if seen then some (now + l.grace) else none
      ];
      truncated = r.truncated || ltb 0 (cut_length l r.buf chunk);
    }

-- The end of the call once the deadline is over.
unfoldable pub time_out : ShellLimits → ℕ → Reading → List Event → CommandEnd
time_out l now r es = timed_out r.buf r.truncated (recovers l now es)

-- What follows the search in the chunk: return, give up on a prompt, or read on.
unfoldable pub after_search :
    ShellLimits
    → ℕ
    → List Event
    → (Reading → CommandEnd)
    → Reading
    → Option (ℕ × Option ℕ)
    → CommandEnd
after_search l now es continue r (some (at, code)) =
    completed (take at r.buf) (exit_of code) r.truncated
after_search l now es continue r none =
    if grace_over r.prompt_deadline now then soft_cancel l now r.buf es else continue r

-- How the marker is searched: from a place on, in the buffer.
abbrev pub Search : Type 0
Search = ℕ → List ℕ → Option (ℕ × Option ℕ)

-- The body of the loop after the read; `es` are the later reads, and `continue` goes on with them.
unfoldable pub on_read :
    Search → ShellLimits → ℕ → List Event → (Reading → CommandEnd) → Reading → Read → CommandEnd
on_read search l now es continue r quiet =
    if grace_over r.prompt_deadline now then soft_cancel l now r.buf es else continue r
on_read search l now es continue r broken = session_dead
on_read search l now es continue r (bytes chunk) =
    let r' = note_prompt l chunk now r in
    if is_empty chunk
    then session_dead
    else after_search l now es continue r' (search (scan_from l r.buf chunk) r'.buf)

-- The loop of `_execute_locked`. The list has all reads of the call; where it ends, the deadline is
-- over.
unfoldable pub read_loop : Search → ShellLimits → Reading → List Event → CommandEnd
read_loop search l r [] = time_out l l.deadline r []
read_loop search l r (e ∷ es) =
    if ltb e.before l.deadline
    then on_read search l e.after es (λ r'. read_loop search l r' es) r e.read
    else time_out l e.before r (e ∷ es)

-- `_execute_locked` after the command is written; `writes` is whether it can be.
unfoldable pub execute_locked : ShellLimits → Bool → List Event → CommandEnd
execute_locked l writes es =
    if writes
    then read_loop search_done_from l
        (record { buf = []; prompt_deadline = none; truncated = false }) es
    else session_dead
