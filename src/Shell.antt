-- ===== src/Shell.antt =====
-- portal_mcp_server/remote_bash.py: one command, or a list of commands, in the persistent session of a
-- host. How a command ends in its session is an argument; the output is left as bytes.
pub mod Batch
pub mod Retry
use portal_mcp_server.Base.{
  ℕ, ℤ, pos, negsuc, Text, text_eq, text_has_eq, ◌==◌, Bool, true, false, not, ◌&&◌, Option, none,
  some, List, [], ◌∷◌, ◌++◌, codes, Result, ok, err, zero, if◌then◌else◌,
}
use portal_mcp_server.Session.{CommandEnd, completed, timed_out, prompt_blocked, session_dead}

-- `entry["error"]`, where there is one.
pub data ShellError : Type 0 where
  interactive_prompt_blocked session_died : ShellError

-- The result of a command, in a list or alone. No exit code is `None`.
pub record ShellResult : Type 0 where
  pub command : Text
  pub exit_code : Option ℤ
  pub output : List ℕ
  pub truncated : Bool
  pub error : Option ShellError

-- The result for a way to end; `died` is the `repr` of the exception that the session died of, if it did.
unfoldable pub shell_result : Text → Text → CommandEnd → ShellResult
shell_result died cmd (completed raw code cut) = record {
  command = cmd;
  exit_code = some code;
  output = raw;
  truncated = cut;
  error = none;
}
shell_result died cmd (timed_out raw cut kept) = record {
  command = cmd;
  exit_code = none;
  output = raw;
  truncated = cut;
  error = none;
}
shell_result died cmd (prompt_blocked raw) = record {
  command = cmd;
  exit_code = some (negsuc 0);
  output = raw;
  truncated = false;
  error = some interactive_prompt_blocked;
}
shell_result died cmd session_dead = record {
  command = cmd;
  exit_code = some (negsuc 0);
  output = codes "session died: " ++ died;
  truncated = false;
  error = some session_died;
}

-- `code is None or code != 0`
abbrev pub is_failure : CommandEnd → Bool
is_failure (completed raw (pos zero) cut) = false
is_failure (completed raw code cut) = true
is_failure (timed_out raw cut kept) = true
is_failure (prompt_blocked raw) = true
is_failure session_dead = true

-- Whether the list is left after a command.
abbrev pub stops : Bool → CommandEnd → Bool
stops stop_on_error session_dead = true
stops stop_on_error e = stop_on_error && is_failure e

-- The loop of `remote_bash_many`: the results and `stopped_at`. Each command comes with how it ends, if
-- it is run; a session that dies on the way dies of `died`.
unfoldable pub remote_bash_many :
    Text → Bool → List (Text × CommandEnd) → List ShellResult × Option Text
remote_bash_many died stop_on_error [] = ([], none)
remote_bash_many died stop_on_error ((cmd, e) ∷ cmds) =
    let (results, stopped_at) = remote_bash_many died stop_on_error cmds in
    if stops stop_on_error e
    then (shell_result died cmd e ∷ [], some cmd)
    else (shell_result died cmd e ∷ results, stopped_at)

-- A session that is set up is remembered for the host.
abbrev pub new_session : {E : Type 0} → Result E Text → Result E Text × Option Text
new_session (ok sid) = (ok sid, some sid)
new_session (err e) = (err e, none)

-- `_ensure_session` for a host: the session that it names in _HOST_SESSIONS if it is registered, or a
-- new one, and what it names then.
unfoldable pub ensure_session :
    {E : Type 0} → Option Text → (Text → Bool) → Result E Text → Result E Text × Option Text
ensure_session none registered setup = new_session setup
ensure_session (some sid) registered setup =
    if registered sid then (ok sid, some sid) else new_session setup

-- `if _HOST_SESSIONS.get(host) == dead.session_id: _HOST_SESSIONS.pop(host, None)`
abbrev pub forget_session : Text → Option Text → Option Text
forget_session sid none = none
forget_session sid (some other) = if other == sid then none else some other

-- How `remote_bash` ends: a result with its session, a session that died twice, or no session at all.
pub data ShellEnd (E : Type 0) : Type 0 where
  returned : Text → ShellResult → ShellEnd E
  died_again : ShellEnd E
  no_session : E → ShellEnd E

-- After a command in a session: its result, or what is done if the session has died.
abbrev pub answer :
    {E : Type 0}
    → Text
    → Text
    → Option Text
    → ShellEnd E × Option Text
    → CommandEnd
    → ShellEnd E × Option Text
answer cmd sid cached dead session_dead = dead
answer cmd sid cached dead (completed raw code cut) =
    (returned sid (shell_result [] cmd (completed raw code cut)), cached)
answer cmd sid cached dead (timed_out raw cut kept) =
    (returned sid (shell_result [] cmd (timed_out raw cut kept)), cached)
answer cmd sid cached dead (prompt_blocked raw) =
    (returned sid (shell_result [] cmd (prompt_blocked raw)), cached)

-- The second attempt.
unfoldable pub retry_command :
    {E : Type 0}
    → Text
    → (Text → CommandEnd)
    → Result E Text × Option Text
    → ShellEnd E × Option Text
retry_command cmd run (err e, cached) = (no_session e, cached)
retry_command cmd run (ok sid, cached) = answer cmd sid cached (died_again, cached) (run sid)

-- The first attempt; `again` is the session for the second one, if the first has died.
unfoldable pub try_command :
    {E : Type 0}
    → Text
    → (Text → CommandEnd)
    → (Text → Option Text → Result E Text × Option Text)
    → Result E Text × Option Text
    → ShellEnd E × Option Text
try_command cmd run again (err e, cached) = (no_session e, cached)
try_command cmd run again (ok sid, cached) =
    answer cmd sid cached (retry_command cmd run (again sid cached)) (run sid)

-- `remote_bash`; `setup` and `setup_again` are what `_setup_session` gives if it is called, and a
-- session that has died is no longer registered.
unfoldable pub remote_bash :
    {E : Type 0}
    → Text
    → (Text → CommandEnd)
    → Option Text
    → (Text → Bool)
    → Result E Text
    → Result E Text
    → ShellEnd E × Option Text
remote_bash cmd run cached registered setup setup_again =
    try_command cmd run
      (λ sid cached1.
        ensure_session (forget_session sid cached1) (λ s. registered s && not (s == sid))
          setup_again)
      (ensure_session cached registered setup)
