-- ===== src/Shell/Batch.antt =====
-- Which commands of a list portal_mcp_server/remote_bash.py runs.
use portal_mcp_server.Base.{
  ℕ, pos, ◌≡◌, refl, ap, ◌⊎◌, inl, inr, Text, Bool, true, false, none, some, List, [], ◌∷◌, ◌++◌,
  map, All, Bool-cases, zero, suc, negsuc,
}
use portal_mcp_server.Session.{CommandEnd, completed, timed_out, prompt_blocked, session_dead}
use portal_mcp_server.Shell.{ShellResult, shell_result, stops, remote_bash_many}

-- The command exits with 0.
abbrev pub ExitsWithZero : CommandEnd → Type 0
ExitsWithZero e = (raw : List ℕ) × ((cut : Bool) × (e ≡ completed raw (pos 0) cut))

-- The command kills the session or, with `stop_on_error`, does not exit with 0.
abbrev pub Stops : Bool → CommandEnd → Type 0
Stops stop_on_error e = (e ≡ session_dead) ⊎ ((stop_on_error ≡ true) × (¬ ExitsWithZero e))

stops-Stops : (b : Bool) (e : CommandEnd) → stops b e ≡ true → Stops b e
stops-Stops b session_dead h = inl refl
stops-Stops true (completed raw (pos zero) cut) h = cc
stops-Stops true (completed raw (pos (suc n)) cut) h = inr (refl, λ (r, (c, same)). cc)
stops-Stops true (completed raw (negsuc n) cut) h = inr (refl, λ (r, (c, same)). cc)
stops-Stops true (timed_out raw cut kept) h = inr (refl, λ (r, (c, same)). cc)
stops-Stops true (prompt_blocked raw) h = inr (refl, λ (r, (c, same)). cc)
stops-Stops false (completed raw code cut) h = cc
stops-Stops false (timed_out raw cut kept) h = cc
stops-Stops false (prompt_blocked raw) h = cc

stops-passes : (b : Bool) (e : CommandEnd) → stops b e ≡ false → Stops b e → ⊥
stops-passes b session_dead h k = cc
stops-passes true (completed raw (pos zero) cut) h (inl dead) = cc
stops-passes true (completed raw (pos zero) cut) h (inr (on, other)) = other (raw, (cut, refl))
stops-passes true (completed raw (pos (suc n)) cut) h k = cc
stops-passes true (completed raw (negsuc n) cut) h k = cc
stops-passes true (timed_out raw cut kept) h k = cc
stops-passes true (prompt_blocked raw) h k = cc
stops-passes false (completed raw code cut) h (inl dead) = cc
stops-passes false (completed raw code cut) h (inr (on, other)) = cc
stops-passes false (timed_out raw cut kept) h (inl dead) = cc
stops-passes false (timed_out raw cut kept) h (inr (on, other)) = cc
stops-passes false (prompt_blocked raw) h (inl dead) = cc
stops-passes false (prompt_blocked raw) h (inr (on, other)) = cc

-- The results of commands that are all run.
abbrev pub results_of : Text → List (Text × CommandEnd) → List ShellResult
results_of died cmds = map (λ (cmd, e). shell_result died cmd e) cmds

abbrev pub Passes : Bool → Text × CommandEnd → Type 0
Passes stop_on_error (cmd, e) = ¬ Stops stop_on_error e

-- All commands are run and none stops the list; or the results are those of the commands up to the
-- first that stops it, which is named.
abbrev pub RunsUntilStop : Text → Bool → List (Text × CommandEnd) → Type 0
RunsUntilStop died stop_on_error cmds =
    (All (Passes stop_on_error) cmds
      × (remote_bash_many died stop_on_error cmds ≡ (results_of died cmds, none)))
    ⊎ ((before after : List (Text × CommandEnd)) × (cmd : Text) × (e : CommandEnd) × (cmds
          ≡ before ++ (cmd, e) ∷ after)
        × All (Passes stop_on_error) before
        × Stops stop_on_error e
        × (remote_bash_many died stop_on_error cmds
            ≡ (results_of died before ++ shell_result died cmd e ∷ [], some cmd)))

-- A list of commands is run in order up to the first one that kills the session or, with
-- `stop_on_error`, does not exit with 0, and the results are those of the commands up to it;
-- `stopped_at` names it, and is empty only if no command stops the list.
pub remote_bash_many_lem :
    (died : Text) (stop_on_error : Bool) (cmds : List (Text × CommandEnd))
    → RunsUntilStop died stop_on_error cmds
unfolding remote_bash_many
remote_bash_many_lem died stop_on_error [] = inl (tt, refl)
remote_bash_many_lem died stop_on_error ((cmd, e) ∷ cmds) =
    elim (Bool-cases (stops stop_on_error e)) [
      | inl stop ↦ inr (
        [],
        cmds,
        cmd,
        e,
        refl,
        tt,
        stops-Stops stop_on_error e stop,
        rw (remote_bash_many, stop) refl,
      )
      | inr pass ↦ elim (remote_bash_many_lem died stop_on_error cmds) [
        | inl (all_pass, ran) ↦
            inl
              ((stops-passes stop_on_error e pass, all_pass), rw (remote_bash_many, pass, ran) refl)
        | inr (before, after, last, e', split, passed, stop, ran) ↦ inr (
          (cmd, e) ∷ before,
          after,
          last,
          e',
          ap (◌∷◌ (cmd, e)) split,
          (stops-passes stop_on_error e pass, passed),
          stop,
          rw (remote_bash_many, pass, ran) refl,
        )
      ]
    ]
