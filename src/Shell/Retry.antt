-- ===== src/Shell/Retry.antt =====
-- What a call of `remote_bash` of portal_mcp_server/remote_bash.py gives, and which session it leaves.
use portal_mcp_server.Base.{
  ◌≡◌, ◌≢◌, refl, sym, ap, inl, inr, Text, text_eq, text_eq_iff, text_has_eq, ◌==◌, Bool, true, not,
  ◌&&◌, Option, none, some, [], Result, ok, err, Bool-cases,
}
use portal_mcp_server.Session.{CommandEnd, completed, timed_out, prompt_blocked, session_dead}
use portal_mcp_server.Shell.{
  shell_result, new_session, ensure_session, forget_session, ShellEnd, returned, died_again,
  no_session, answer, retry_command, try_command, remote_bash,
}

module _ {E : Type 0} (cmd : Text) (run : Text → CommandEnd) where
  -- The result is that of the command in the session that is named, which is alive and is the one that
  -- the host has.
  abbrev pub Kept : ShellEnd E × Option Text → Type 0
  Kept (returned sid r, cached) =
      (cached ≡ some sid) × (r ≡ shell_result [] cmd (run sid)) × (run sid ≢ session_dead)
  Kept (died_again, cached) = Unit {0}
  Kept (no_session e, cached) = cached ≡ none

  -- A session is the one that the host has, and there is none if there is an error.
  abbrev Remembered : Result E Text × Option Text → Type 0
  Remembered (ok sid, cached) = cached ≡ some sid
  Remembered (err e, cached) = cached ≡ none

  new_session-Remembered : (setup : Result E Text) → Remembered (new_session setup)
  new_session-Remembered (ok sid) = refl
  new_session-Remembered (err e) = refl

  ensure_session-Remembered :
      (cached : Option Text) (registered : Text → Bool) (setup : Result E Text)
      → Remembered (ensure_session cached registered setup)
  unfolding ensure_session
  ensure_session-Remembered none registered setup = new_session-Remembered setup
  ensure_session-Remembered (some sid) registered setup = elim (Bool-cases (registered sid)) [
    | inl there ↦ rw (ensure_session, there) refl
    | inr gone ↦ rw (ensure_session, gone) (new_session-Remembered setup)
  ]

  answer-Kept :
      (sid : Text) (cached : Option Text) (dead : ShellEnd E × Option Text) (e : CommandEnd)
      → run sid ≡ e
      → cached ≡ some sid
      → Kept dead
      → Kept (answer cmd sid cached dead e)
  answer-Kept sid cached dead session_dead ran here kept = kept
  answer-Kept sid cached dead (completed raw code cut) ran here kept =
      (here, ap (shell_result [] cmd) (sym ran), λ died. cc)
  answer-Kept sid cached dead (timed_out raw cut left) ran here kept =
      (here, ap (shell_result [] cmd) (sym ran), λ died. cc)
  answer-Kept sid cached dead (prompt_blocked raw) ran here kept =
      (here, ap (shell_result [] cmd) (sym ran), λ died. cc)

  retry_command-Kept :
      (r : Result E Text × Option Text) → Remembered r → Kept (retry_command cmd run r)
  unfolding retry_command
  retry_command-Kept (err e, cached) h = h
  retry_command-Kept (ok sid, cached) h =
      answer-Kept sid cached (died_again, cached) (run sid) refl h tt

  try_command-Kept :
      (again : Text → Option Text → Result E Text × Option Text) (r : Result E Text × Option Text)
      → ((sid : Text) (cached : Option Text) → Remembered (again sid cached))
      → Remembered r
      → Kept (try_command cmd run again r)
  unfolding try_command
  try_command-Kept again (err e, cached) others h = h
  try_command-Kept again (ok sid, cached) others h =
      answer-Kept sid cached (retry_command cmd run (again sid cached)) (run sid) refl h
        (retry_command-Kept (again sid cached) (others sid cached))

  -- If a call returns a result, it is that of the command in the session that it names, which is alive
  -- and is the one that the host has for the next call; if no session can be had, the host has none.
  pub remote_bash-Kept :
      (cached : Option Text) (registered : Text → Bool) (setup setup_again : Result E Text)
      → Kept (remote_bash cmd run cached registered setup setup_again)
  unfolding remote_bash
  remote_bash-Kept cached registered setup setup_again =
      try_command-Kept
        (λ sid cached1.
          ensure_session (forget_session sid cached1) (λ s. registered s && not (s == sid))
            setup_again)
        (ensure_session cached registered setup)
        (λ sid cached1.
          ensure_session-Remembered (forget_session sid cached1)
            (λ s. registered s && not (s == sid)) setup_again)
        (ensure_session-Remembered cached registered setup)

  -- If the host's session dies during the command, the command is run once more in a new session; if
  -- this one does not die, the call returns its result, and the host has the new session.
  pub remote_bash_recovers :
      (sid fresh : Text) (registered : Text → Bool) (setup : Result E Text)
      → registered sid ≡ true
      → run sid ≡ session_dead
      → run fresh ≢ session_dead
      → remote_bash cmd run (some sid) registered setup (ok fresh)
        ≡ (returned fresh (shell_result [] cmd (run fresh)), some fresh)
  unfolding remote_bash ensure_session retry_command try_command
  remote_bash_recovers sid fresh registered setup there died alive =
      let same : text_eq sid sid ≡ true = (text_eq_iff sid sid).1 refl in
      rw (there, died, same) (answer_alive (run fresh) alive)
    where
      answer_alive :
          (e : CommandEnd)
          → e ≢ session_dead
          → answer {E = E} cmd fresh (some fresh) (died_again, some fresh) e
            ≡ (returned fresh (shell_result [] cmd e), some fresh)
      answer_alive session_dead h = absurd (h refl)
      answer_alive (completed raw code cut) h = refl
      answer_alive (timed_out raw cut kept) h = refl
      answer_alive (prompt_blocked raw) h = refl
