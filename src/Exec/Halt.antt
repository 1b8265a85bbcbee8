-- ===== src/Exec/Halt.antt =====
-- Where the answer of a serialized run of portal_mcp_server/cli.py stops.
use portal_mcp_server.Base.{
  ℕ, suc, ◌+◌, ◌≡◌, refl, ap, subst, ◌∙◌, Text, Bool, true, false, ◌&&◌, Option, List, [], ◌∷◌,
  ◌++◌, map, length, arith, if◌then◌else◌, ok, ◌⊎◌, inl, inr, ◌≢◌, none, some, ℤ, pos, negsuc, zero,
  any,
}
use portal_mcp_server.Exec.{
  Plan, Attempt, HostResult, of_host, stopped_host, push_line, result_failed, run_host, run_serial,
  ExecResult, Item, ran, stopped_at, single, several, is_failed, item_failed,
}

-- The command's result has an exit code, and it is not 0: none at all after a timeout, or another number.
abbrev pub FailedRun : ExecResult → Type 0
FailedRun r = (code : Option ℤ) × ((r.exit_code ≡ some code) × (code ≢ some (pos 0)))

-- The results have one of a command that failed.
abbrev pub HasFailedRun : List Item → Type 0
HasFailedRun [] = ⊥
HasFailedRun (ran r ∷ items) = FailedRun r ⊎ HasFailedRun items
HasFailedRun (stopped_at cmd ∷ items) = HasFailedRun items

-- A command failed on the host.
abbrev pub Failed : HostResult → Type 0
Failed (single r) = FailedRun r
Failed (several h items) = HasFailedRun items

is_failed-FailedRun : (r : ExecResult) → FailedRun r → is_failed r ≡ true
is_failed-FailedRun r (none, (e, other)) = rw e refl
is_failed-FailedRun r (some (pos zero), (e, other)) = absurd (other refl)
is_failed-FailedRun r (some (pos (suc n)), (e, other)) = rw e (ground arith)
is_failed-FailedRun r (some (negsuc n), (e, other)) = rw e refl

result_failed-HasFailedRun : (items : List Item) → HasFailedRun items → any item_failed items ≡ true
result_failed-HasFailedRun [] h = absurd h
result_failed-HasFailedRun (ran r ∷ items) (inl bad) = rw (is_failed-FailedRun r bad) refl
result_failed-HasFailedRun (ran r ∷ items) (inr later) =
    ground (arith, result_failed-HasFailedRun items later)
result_failed-HasFailedRun (stopped_at cmd ∷ items) h = result_failed-HasFailedRun items h

result_failed-Failed : (r : HostResult) → Failed r → result_failed r ≡ true
result_failed-Failed (single r) h = is_failed-FailedRun r h
result_failed-Failed (several n items) h = result_failed-HasFailedRun items h

is_failed-not : (r : ExecResult) → ¬ FailedRun r → is_failed r ≡ false
is_failed-not r fine = decide r.exit_code refl
  where
    decide : (c : Option (Option ℤ)) → r.exit_code ≡ c → is_failed r ≡ false
    decide none e = rw e refl
    decide (some none) e = absurd (fine (none, (e, λ same. cc)))
    decide (some (some (pos zero))) e = rw e refl
    decide (some (some (pos (suc n)))) e = absurd (fine (some (pos (suc n)), (e, λ same. cc)))
    decide (some (some (negsuc n))) e = absurd (fine (some (negsuc n), (e, λ same. cc)))

result_failed-none : (items : List Item) → ¬ HasFailedRun items → any item_failed items ≡ false
result_failed-none [] fine = refl
result_failed-none (ran r ∷ items) fine =
    rw (is_failed-not r (λ bad. fine (inl bad)), result_failed-none items (λ bad. fine (inr bad)))
      refl
result_failed-none (stopped_at cmd ∷ items) fine = result_failed-none items fine

result_failed-not : (r : HostResult) → ¬ Failed r → result_failed r ≡ false
result_failed-not (single r) fine = is_failed-not r fine
result_failed-not (several n items) fine = result_failed-none items fine

module _ (plan : Plan) (passwords : Text → Option Text) (attempts : ℕ → ℕ → Attempt)
    (cmds : List Text) where
  -- The runs on these hosts, from a place on, give these results, and no command fails.
  abbrev pub Succeeded : ℕ → List Text → List HostResult → Type 0
  Succeeded i [] [] = Unit
  Succeeded i [] (r ∷ rs) = ⊥
  Succeeded i (h ∷ hs) [] = ⊥
  Succeeded i (h ∷ hs) (r ∷ rs) =
      (run_host plan passwords attempts i cmds h ≡ ok r) × ((¬ Failed r) × Succeeded (suc i) hs rs)

  serial-go :
      (i : ℕ) (h : Text) (hs : List Text) (r : HostResult)
      → run_host plan passwords attempts i cmds h ≡ ok r
      → result_failed r ≡ false
      → run_serial plan passwords attempts i cmds (h ∷ hs)
        ≡ push_line (of_host r) (run_serial plan passwords attempts (suc i) cmds hs)
  unfolding run_serial
  serial-go i h hs r gave passed = rw (run_serial, gave, passed) (stays plan.stop_on_error)
    where
      stays :
          (b : Bool)
          → (if b && false
              then ok (of_host r ∷ stopped_host h ∷ [])
              else push_line (of_host r) (run_serial plan passwords attempts (suc i) cmds hs))
            ≡ push_line (of_host r) (run_serial plan passwords attempts (suc i) cmds hs)
      stays true = refl
      stays false = refl

  serial-stop :
      (i : ℕ) (h : Text) (hs : List Text) (r : HostResult)
      → plan.stop_on_error ≡ true
      → run_host plan passwords attempts i cmds h ≡ ok r
      → result_failed r ≡ true
      → run_serial plan passwords attempts i cmds (h ∷ hs) ≡ ok (of_host r ∷ stopped_host h ∷ [])
  unfolding run_serial
  serial-stop i h hs r stops gave failed =
      rw (run_serial, gave, failed)
        (ap
          (λ b.
            if b && true
            then ok (of_host r ∷ stopped_host h ∷ [])
            else push_line (of_host r) (run_serial plan passwords attempts (suc i) cmds hs))
          stops)

  serial_from :
      (i : ℕ) (before : List Text) (rs : List HostResult)
      → Succeeded i before rs
      → (h : Text) (after : List Text) (r : HostResult) → plan.stop_on_error ≡ true
      → run_host plan passwords attempts (i + length before) cmds h ≡ ok r
      → result_failed r ≡ true
      → run_serial plan passwords attempts i cmds (before ++ h ∷ after)
        ≡ ok (map of_host rs ++ of_host r ∷ stopped_host h ∷ [])
  serial_from i [] [] went h after r stops gave failed =
      serial-stop i h after r stops
        (subst (λ n. run_host plan passwords attempts n cmds h ≡ ok r) (omega arith) gave) failed
  serial_from i [] (q ∷ rs) went h after r stops gave failed = absurd went
  serial_from i (b ∷ before) [] went h after r stops gave failed = absurd went
  serial_from i (b ∷ before) (q ∷ rs) (gives, (passed, went)) h after r stops gave failed =
      serial-go i b (before ++ h ∷ after) q gives (result_failed-not q passed)
      ∙ ap (push_line (of_host q)) (
          serial_from (suc i) before rs went h after r stops
            (subst (λ n. run_host plan passwords attempts n cmds h ≡ ok r) (omega arith) gave)
            failed)

  -- Where no command fails on the first hosts and one fails on the next one, the answer of a serialized
  -- run that stops on errors has the results of these hosts, then the line that names the last of them,
  -- and nothing of the other hosts, whatever would have come of them.
  pub run_serial_stops :
      (before : List Text) (rs : List HostResult) (h : Text) (after : List Text) (r : HostResult)
      → plan.stop_on_error ≡ true
      → Succeeded 0 before rs
      → run_host plan passwords attempts (length before) cmds h ≡ ok r
      → Failed r
      → run_serial plan passwords attempts 0 cmds (before ++ h ∷ after)
        ≡ ok (map of_host rs ++ of_host r ∷ stopped_host h ∷ [])
  run_serial_stops before rs h after r stops went gave failed =
      serial_from 0 before rs went h after r stops
        (subst (λ n. run_host plan passwords attempts n cmds h ≡ ok r) (omega arith) gave)
        (result_failed-Failed r failed)

  serial_through :
      (i : ℕ) (hosts : List Text) (rs : List HostResult)
      → Succeeded i hosts rs
      → run_serial plan passwords attempts i cmds hosts ≡ ok (map of_host rs)
  unfolding run_serial
  serial_through i [] [] went = refl
  serial_through i [] (r ∷ rs) went = absurd went
  serial_through i (h ∷ hs) [] went = absurd went
  serial_through i (h ∷ hs) (r ∷ rs) (gives, (passed, went)) =
      serial-go i h hs r gives (result_failed-not r passed)
      ∙ ap (push_line (of_host r)) (serial_through (suc i) hs rs went)
