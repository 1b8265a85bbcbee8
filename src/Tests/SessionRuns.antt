-- ===== src/Tests/SessionRuns.antt =====
-- portal_mcp_server/session_manager.py on a marker that comes in two reads.
use portal_mcp_server.Base.{◌≡◌, refl, codes, pos, true, false, none, List, [], ◌∷◌, ◌++◌, arith}
use portal_mcp_server.Session.Marker.{advance, match_from, search_done, shows_prompt, asks_password}
use portal_mcp_server.Session.{
  bytes, quiet, Event, completed, prompt_blocked, ShellLimits, wrap_compound, await_next_done,
  soft_cancel, note_prompt, after_search, on_read, read_loop, execute_locked,
}
use portal_mcp_server.Session.Scan.{Short-few}
use portal_mcp_server.Session.Whole.{search_whole, execute_locked_lem}

abbrev limits : ShellLimits
limits = record {
  max_output = 17;
  grace = 10;
  cancel_timeout = 30;
  deadline = 100;
  interrupts = true;
}

abbrev reads : List Event
reads =
    record { before = 0; read = bytes (codes "hello" ++ 27 ∷ codes "]133;"); after = 1 }
    ∷ record { before = 1; read = quiet; after = 3 }
    ∷ record { before = 3; read = bytes (codes "D;12" ++ 7 ∷ codes "$ "); after = 4 }
    ∷ []

ends : execute_locked limits true reads ≡ completed (codes "ello") (pos 12) true
unfolding execute_locked read_loop on_read note_prompt after_search search_done match_from advance
    shows_prompt asks_password
ends = refl

execute_locked_lem_example :
    execute_locked limits true reads
    ≡ read_loop search_whole limits
        (record { buf = []; prompt_deadline = none; truncated = false })
        reads
execute_locked_lem_example = execute_locked_lem limits true reads (Short-few _ (omega arith))

-- A password prompt with no marker after it is interrupted, and the session is kept.
abbrev asks : List Event
asks =
    record { before = 0; read = bytes (codes "[sudo] password for me: "); after = 1 }
    ∷ record { before = 1; read = quiet; after = 12 }
    ∷ record { before = 12; read = bytes (27 ∷ codes "]133;D;130" ++ 7 ∷ []); after = 13 }
    ∷ []

interrupted :
    execute_locked (record limits { max_output = 100 }) true asks
    ≡ prompt_blocked (codes "[sudo] password for me: ")
unfolding execute_locked read_loop on_read note_prompt after_search soft_cancel await_next_done
    search_done match_from advance shows_prompt asks_password
interrupted = refl

wrapped :
    wrap_compound (codes "a" ++ 10 ∷ codes "b" ++ 10 ∷ [])
    ≡ codes "{" ++ 10 ∷ codes "a" ++ 10 ∷ codes "b" ++ 10 ∷ codes "}"
unfolding wrap_compound
wrapped = refl
