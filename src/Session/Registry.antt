-- ===== src/Session/Registry.antt =====
-- The registry of sessions in portal_mcp_server/session_manager.py. A connection is a number; `released`
-- has each connection that was handed back to the pool, once for each time.
use portal_mcp_server.Base.{
  ℕ, ◌≡◌, refl, ◌∙◌, Text, text_eq, text_eq_iff, text_has_eq, Bool, true, none, some, List, [], ◌∷◌,
  ◌++◌, map, Result, ok, err, if◌then◌else◌,
}
use portal_mcp_server.Base.Dicts.{Dict, lookup, insert, erase, lookup-erase}

-- The fields of `ShellSession` that the registry uses.
pub record ShellSession : Type 0 where
  pub host_name : Text
  pub conn : ℕ

pub record SessionManager : Type 0 where
  pub sessions : Dict Text ShellSession
  pub released : List ℕ

pub data KeyError : Type 0 where
  no_session : KeyError

-- `_get`
unfoldable pub get_session : Text → SessionManager → Result KeyError ShellSession
get_session id m = elim (lookup id m.sessions) [ none ↦ err no_session | some s ↦ ok s ]

-- The end of `create_session`: with a process, or with an error after the connection was acquired.
unfoldable pub create_session : Text → ShellSession → Bool → SessionManager → SessionManager
create_session id s spawned m =
    if spawned
    then record m { sessions = insert id s m.sessions }
    else record m { released = s.conn ∷ m.released }

-- `_invalidate`
unfoldable pub invalidate_session : Text → SessionManager → SessionManager
invalidate_session id m = elim (lookup id m.sessions) [
  | none ↦ m
  | some s ↦ record m { sessions = erase id m.sessions; released = s.conn ∷ m.released }
]

-- `close_session` from where the process has ended, or has been closed, to the lock.
abbrev pub close_release : ShellSession → SessionManager → SessionManager
close_release s m = record m { released = s.conn ∷ m.released }

-- `del self._sessions[session_id]`
unfoldable pub close_delete : Text → SessionManager → Result KeyError SessionManager
close_delete id m = elim (lookup id m.sessions) [
  | none ↦ err no_session
  | some s ↦ ok (record m { sessions = erase id m.sessions })
]

-- `close_session`, where `meanwhile` is what other calls do to the registry while it waits for the
-- process.
unfoldable pub close_session :
    Text → (SessionManager → SessionManager) → SessionManager → Result KeyError SessionManager
close_session id meanwhile m = elim (get_session id m) [
  | err e ↦ err e
  | ok s ↦ close_delete id (close_release s (meanwhile m))
]

-- `close_sessions`
unfoldable pub close_sessions : SessionManager → SessionManager
close_sessions m = record {
  sessions = [];
  released = map (λ (id, s). s.conn) m.sessions ++ m.released;
}

text_eq_itself : (s : Text) → text_eq s s ≡ true
text_eq_itself s = (text_eq_iff s s).1 refl

-- A call of `close_session` that is not disturbed takes the session out and releases its connection
-- once.
close_session_alone :
    (id : Text) (s : ShellSession) (m : SessionManager)
    → lookup id m.sessions ≡ some s
    → close_session id (λ u. u) m
      ≡ ok (record { sessions = erase id m.sessions; released = s.conn ∷ m.released })
unfolding close_session get_session close_delete
close_session_alone id s m there = rw (close_session, there, close_delete, there) refl

-- If the session is found dead while `close_session` waits for its process, the connection is released
-- twice, and the call fails.
pub close_session_twice :
    (id : Text) (s : ShellSession) (m : SessionManager)
    → lookup id m.sessions ≡ some s
    → let left = close_release s (invalidate_session id m) in
      (left.released ≡ s.conn ∷ s.conn ∷ m.released)
      × (close_session id (invalidate_session id) m ≡ err no_session)
unfolding close_session get_session close_delete invalidate_session
close_session_twice id s m there =
    let gone : lookup id (erase id m.sessions) ≡ none =
      lookup-erase id id m.sessions ∙ rw (text_eq_itself id) refl in
    (
      rw (invalidate_session, there) refl,
      rw (close_session, there, invalidate_session, there, close_delete, gone) refl,
    )
