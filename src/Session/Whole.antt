-- ===== src/Session/Whole.antt =====
-- The loop of portal_mcp_server/session_manager.py that searches only the new bytes for the marker, and
-- one that searches the whole buffer after each read.
use portal_mcp_server.Base.{
  ℕ, ◌≤◌, ◌≡◌, refl, sym, ap, subst, ◌∙◌, Bool, false, Option, none, some, List, [], ◌∷◌, ◌++◌,
  append_assoc, length, is_empty, ltb, arith, if◌then◌else◌,
}
use portal_mcp_server.Session.Marker.{search_done, search_done_from}
use portal_mcp_server.Session.{
  Read, bytes, quiet, broken, Event, CommandEnd, session_dead, ShellLimits, Reading, cut_length,
  scan_from, note_prompt, soft_cancel, grace_over, time_out, after_search, Search, on_read,
  read_loop, execute_locked,
}
use portal_mcp_server.Session.Scan.{Short, Short-append, Short-cut, search_done_from-cut}

-- The bytes of a read, and of the reads of a call.
abbrev pub bytes_of : Read → List ℕ
bytes_of (bytes chunk) = chunk
bytes_of quiet = []
bytes_of broken = []

abbrev pub stream : List Event → List ℕ
stream [] = []
stream (e ∷ es) = bytes_of e.read ++ stream es

-- The search in the whole buffer.
abbrev pub search_whole : Search
search_whole from buf = search_done buf

-- No marker in the buffer, and no long one in it and in what is still to come.
abbrev Searched : List ℕ → List ℕ → Type 0
Searched buf rest = (search_done buf ≡ none) × Short (buf ++ rest)

after_search-cong :
    (l : ShellLimits) (now : ℕ) (es : List Event) (f g : Reading → CommandEnd) (r : Reading)
    (found : Option (ℕ × Option ℕ))
    → (found ≡ none → f r ≡ g r)
    → after_search l now es f r found ≡ after_search l now es g r found
unfolding after_search
after_search-cong l now es f g r (some (at, code)) h = refl
after_search-cong l now es f g r none h =
    ap (λ o. if grace_over r.prompt_deadline now then soft_cancel l now r.buf es else o) (h refl)

module _ (l : ShellLimits) where
  cut_le : (buf chunk : List ℕ) → cut_length l buf chunk ≤ length (buf ++ chunk)
  cut_le buf chunk = omega arith

  -- A chunk leaves a buffer for which the same holds, unless it has the marker.
  note_prompt-Searched :
      (chunk rest : List ℕ) (now : ℕ) (r : Reading)
      → Short (r.buf ++ (chunk ++ rest))
      → search_done (note_prompt l chunk now r).buf ≡ none
      → Searched (note_prompt l chunk now r).buf rest
  unfolding note_prompt
  note_prompt-Searched chunk rest now r short h = (
    h,
    Short-cut (cut_length l r.buf chunk) (r.buf ++ chunk) rest (cut_le r.buf chunk)
        (subst Short (sym (append_assoc r.buf chunk rest)) short),
  )

  on_read-same :
      (now : ℕ) (es : List Event) (f g : Reading → CommandEnd) (r : Reading) (read : Read)
      → ((r' : Reading) → Searched r'.buf (stream es) → f r' ≡ g r')
      → Searched r.buf (bytes_of read ++ stream es)
      → on_read search_done_from l now es f r read ≡ on_read search_whole l now es g r read
  unfolding on_read note_prompt
  on_read-same now es f g r quiet same h =
      ap (λ o. if grace_over r.prompt_deadline now then soft_cancel l now r.buf es else o)
        (same r h)
  on_read-same now es f g r broken same h = refl
  on_read-same now es f g r (bytes chunk) same (miss, short) =
      let r' = note_prompt l chunk now r in
      let short' : Short (r.buf ++ chunk) =
        Short-append (r.buf ++ chunk) (stream es)
          (subst Short (sym (append_assoc r.buf chunk (stream es))) short) in
      let found : search_done_from (scan_from l r.buf chunk) r'.buf ≡ search_done r'.buf =
        search_done_from-cut (cut_length l r.buf chunk) r.buf chunk short' miss in
      ap (λ o. if is_empty chunk then session_dead else o)
        (ap (after_search l now es f r') found
          ∙ after_search-cong l now es f g r' (search_done r'.buf)
              (λ none_yet. same r' (note_prompt-Searched chunk (stream es) now r short none_yet)))

  read_loop-same :
      (es : List Event) (r : Reading)
      → Searched r.buf (stream es)
      → read_loop search_done_from l r es ≡ read_loop search_whole l r es
  unfolding read_loop
  read_loop-same [] r h = refl
  read_loop-same (e ∷ es) r h =
      ap (λ o. if ltb e.before l.deadline then o else time_out l e.before r (e ∷ es))
        (on_read-same e.after es (λ r'. read_loop search_done_from l r' es)
          (λ r'. read_loop search_whole l r' es) r e.read (λ r' h'. read_loop-same es r' h') h)

  -- A command whose output has no marker longer than 65 bytes ends in the same way, with the same
  -- output and exit code, as if the whole buffer were searched for the marker after each read, however
  -- the output is cut into reads and whatever the limit of the buffer drops.
  pub execute_locked_lem :
      (writes : Bool) (es : List Event)
      → Short (stream es)
      → execute_locked l writes es ≡ (
          if writes
          then read_loop search_whole l
              (record { buf = []; prompt_deadline = none; truncated = false })
              es
          else session_dead)
  unfolding execute_locked search_done
  execute_locked_lem writes es short =
      ap (λ o. if writes then o else session_dead)
        (read_loop-same es (record { buf = []; prompt_deadline = none; truncated = false })
          (refl, short))
