-- ===== src/Exec/Rollout.antt =====
-- The shape of what `run_all` of portal_mcp_server/cli.py gives, and where a serialized run stops.
use portal_mcp_server.Base.{
  ℕ, suc, ◌≡◌, refl, ◌⊎◌, inl, inr, Text, Bool, true, false, ◌&&◌, Option, none, some, List, [],
  ◌∷◌, not, if◌then◌else◌, Result, ok, err, WhenOk,
}
use portal_mcp_server.Exec.{
  ExecMode, plain, with_sudo, Plan, Attempt, gave, raised, ToolError, ExecResult, Item, ran,
  stopped_at, HostResult, single, several, Line, of_host, failed_host, stopped_host, ExecAnswer,
  one_result, list_of, nobody_tagged, result_of, no_password, push_item, push_line, stops_commands,
  result_failed, run_one, run_commands, run_host, run_serial, run_parallel, run_all,
}

-- The result is of this command on this host.
abbrev pub ResultFor : Text → Text → ExecResult → Type 0
ResultFor h cmd r = (r.host ≡ h) × (r.command ≡ cmd)

-- One result for each command, in their order, up to one that the run stopped at.
abbrev pub ItemsFor : Text → List Text → List Item → Type 0
ItemsFor h [] [] = Unit
ItemsFor h [] (i ∷ items) = ⊥
ItemsFor h (c ∷ cs) [] = ⊥
ItemsFor h (c ∷ cs) (stopped_at cmd ∷ items) = ⊥
ItemsFor h (c ∷ cs) (ran r ∷ items) =
    ResultFor h c r × (ItemsFor h cs items ⊎ (items ≡ stopped_at c ∷ []))

module _ (plan : Plan) where
  -- One result for a single command, a list of results for a list of commands.
  abbrev pub HostFor : Text → Text → List Text → HostResult → Type 0
  HostFor h c cs (single r) = (plan.multi_cmd ≡ false) × ResultFor h c r
  HostFor h c cs (several name items) =
      (plan.multi_cmd ≡ true) × ((name ≡ h) × ItemsFor h (c ∷ cs) items)

  -- A line for each host, in their order, up to one that a serialized run stopped at.
  abbrev pub LinesFor : List Text → Text → List Text → List Line → Type 0
  LinesFor [] c cs [] = Unit
  LinesFor [] c cs (l ∷ ls) = ⊥
  LinesFor (h ∷ hs) c cs [] = ⊥
  LinesFor (h ∷ hs) c cs (of_host r ∷ ls) =
      HostFor h c cs r
      × (LinesFor hs c cs ls ⊎ ((plan.serialize ≡ true) × (ls ≡ stopped_host h ∷ [])))
  LinesFor (h ∷ hs) c cs (failed_host name e ∷ ls) =
      (plan.serialize ≡ false) × ((name ≡ h) × LinesFor hs c cs ls)
  LinesFor (h ∷ hs) c cs (stopped_host name ∷ ls) = ⊥

  -- One result for a single host, a list of lines for several.
  abbrev pub AnswerFor : Text → List Text → Text → List Text → ExecAnswer → Type 0
  AnswerFor h hs c cs (one_result r) = (plan.multi_host ≡ false) × HostFor h c cs r
  AnswerFor h hs c cs (list_of ls) = (plan.multi_host ≡ true) × LinesFor (h ∷ hs) c cs ls
  AnswerFor h hs c cs (nobody_tagged tag) = ⊥

module _ (plan : Plan) (passwords : Text → Option Text) (attempts : ℕ → ℕ → Attempt) where
  result_of-For :
      (values : Option (List Text)) (risk : Bool) (h cmd : Text) (t : Attempt)
      → WhenOk (ResultFor h cmd) (result_of values risk h cmd t)
  result_of-For values risk h cmd (raised e) = tt
  result_of-For values risk h cmd (gave code out errors) = (refl, refl)

  no_password-For : (many : Bool) (h cmd : Text) → WhenOk (ResultFor h cmd) (no_password many h cmd)
  no_password-For true h cmd = (refl, refl)
  no_password-For false h cmd = tt

  run_one-For :
      (i j : ℕ) (h cmd : Text)
      → WhenOk (ResultFor h cmd) (run_one plan passwords attempts i j h cmd)
  unfolding run_one
  run_one-For i j h cmd =
      asks plan.mode (elim plan.secret_values [ none ↦ false | some values ↦ true ]) (passwords h)
    where
      asks :
          (mode : ExecMode) (risk : Bool) (o : Option Text)
          → WhenOk (ResultFor h cmd) (elim mode [
            | with_sudo ↦ elim o [
              | none ↦ no_password plan.multi_host h cmd
              | some password ↦ result_of plan.secret_values true h cmd (attempts i j)
            ]
            | plain ↦ result_of plan.secret_values risk h cmd (attempts i j)
          ])
      asks with_sudo risk none = no_password-For plan.multi_host h cmd
      asks with_sudo risk (some password) =
          result_of-For plan.secret_values true h cmd (attempts i j)
      asks plain risk o = result_of-For plan.secret_values risk h cmd (attempts i j)

  run_commands-For :
      (i j : ℕ) (h : Text) (cmds : List Text)
      → WhenOk (ItemsFor h cmds) (run_commands plan passwords attempts i j h cmds)
  unfolding run_commands
  run_commands-For i j h [] = tt
  run_commands-For i j h (cmd ∷ cmds) =
      one (run_one plan passwords attempts i j h cmd) (run_one-For i j h cmd)
        (run_commands plan passwords attempts i (suc j) h cmds) (run_commands-For i (suc j) h cmds)
    where
      more :
          (stop : Bool) (r : ExecResult)
          → ResultFor h cmd r
          → (rest : Result ToolError (List Item)) → WhenOk (ItemsFor h cmds) rest
          → WhenOk
              (ItemsFor h (cmd ∷ cmds))
              (if stop then ok (ran r ∷ stopped_at cmd ∷ []) else push_item r rest)
      more true r m rest ms = (m, inr refl)
      more false r m (ok items) ms = (m, inl ms)
      more false r m (err e) ms = tt

      one :
          (o : Result ToolError ExecResult)
          → WhenOk (ResultFor h cmd) o
          → (rest : Result ToolError (List Item)) → WhenOk (ItemsFor h cmds) rest
          → WhenOk (ItemsFor h (cmd ∷ cmds)) (elim o [
            | err e ↦ err e
            | ok r ↦
                if plan.stop_on_error && stops_commands r
                then ok (ran r ∷ stopped_at cmd ∷ [])
                else push_item r rest
          ])
      one (err e) m rest ms = tt
      one (ok r) m rest ms = more (plan.stop_on_error && stops_commands r) r m rest ms

  run_host-For :
      (i : ℕ) (c : Text) (cs : List Text) (h : Text)
      → WhenOk (HostFor plan h c cs) (run_host plan passwords attempts i (c ∷ cs) h)
  unfolding run_host
  run_host-For i c cs h =
      shaped plan.multi_cmd refl (run_commands plan passwords attempts i 0 h (c ∷ cs))
        (run_commands-For i 0 h (c ∷ cs)) (run_one plan passwords attempts i 0 h c)
        (run_one-For i 0 h c)
    where
      shaped :
          (batch : Bool)
          → plan.multi_cmd ≡ batch
          → (items : Result ToolError (List Item)) → WhenOk (ItemsFor h (c ∷ cs)) items
          → (o : Result ToolError ExecResult) → WhenOk (ResultFor h c) o
          → WhenOk (HostFor plan h c cs) (
              if batch
              then elim items [ ok items ↦ ok (several h items) | err e ↦ err e ]
              else elim o [ ok r ↦ ok (single r) | err e ↦ err e ])
      shaped true is (ok items) ms o m = (is, (refl, ms))
      shaped true is (err e) ms o m = tt
      shaped false is items ms (ok r) m = (is, m)
      shaped false is items ms (err e) m = tt

  run_serial-For :
      plan.serialize ≡ true
      → (i : ℕ) (c : Text) (cs hosts : List Text)
      → WhenOk (LinesFor plan hosts c cs) (run_serial plan passwords attempts i (c ∷ cs) hosts)
  unfolding run_serial
  run_serial-For in_turn i c cs [] = tt
  run_serial-For in_turn i c cs (h ∷ hs) =
      one (run_host plan passwords attempts i (c ∷ cs) h) (run_host-For i c cs h)
        (run_serial plan passwords attempts (suc i) (c ∷ cs) hs)
        (run_serial-For in_turn (suc i) c cs hs)
    where
      more :
          (stop : Bool) (r : HostResult)
          → HostFor plan h c cs r
          → (rest : Result ToolError (List Line)) → WhenOk (LinesFor plan hs c cs) rest
          → WhenOk
              (LinesFor plan (h ∷ hs) c cs)
              (if stop then ok (of_host r ∷ stopped_host h ∷ []) else push_line (of_host r) rest)
      more true r m rest ms = (m, inr (in_turn, refl))
      more false r m (ok ls) ms = (m, inl ms)
      more false r m (err e) ms = tt

      one :
          (o : Result ToolError HostResult)
          → WhenOk (HostFor plan h c cs) o
          → (rest : Result ToolError (List Line)) → WhenOk (LinesFor plan hs c cs) rest
          → WhenOk (LinesFor plan (h ∷ hs) c cs) (elim o [
            | err e ↦ err e
            | ok r ↦
                if plan.stop_on_error && result_failed r
                then ok (of_host r ∷ stopped_host h ∷ [])
                else push_line (of_host r) rest
          ])
      one (err e) m rest ms = tt
      one (ok r) m rest ms = more (plan.stop_on_error && result_failed r) r m rest ms

  run_parallel-For :
      plan.serialize ≡ false
      → (i : ℕ) (c : Text) (cs hosts : List Text)
      → LinesFor plan hosts c cs (run_parallel plan passwords attempts i (c ∷ cs) hosts)
  unfolding run_parallel
  run_parallel-For at_once i c cs [] = tt
  run_parallel-For at_once i c cs (h ∷ hs) =
      one (run_parallel plan passwords attempts (suc i) (c ∷ cs) hs)
        (run_host plan passwords attempts i (c ∷ cs) h) (run_host-For i c cs h)
        (run_parallel-For at_once (suc i) c cs hs)
    where
      one :
          (rest : List Line) (o : Result ToolError HostResult)
          → WhenOk (HostFor plan h c cs) o
          → LinesFor plan hs c cs rest
          → LinesFor plan
              (h ∷ hs)
              c
              cs
              (elim o [ ok r ↦ of_host r ∷ rest | err e ↦ failed_host h e ∷ rest ])
      one rest (ok r) m ms = (m, inl ms)
      one rest (err e) m ms = (at_once, (refl, ms))

  -- A call for one host gives one result, a call for several a list with a line for each host, in
  -- their order, and nothing else but a note where a serialized run stops. The result of a host is one for a
  -- single command, and for a list of commands a list with one for each, in their order, and nothing
  -- else but a note where the run stops. Each names its host and its command.
  pub run_all-AnswerFor :
      (c : Text) (cs : List Text) (h : Text) (hs : List Text)
      → WhenOk (AnswerFor plan h hs c cs) (run_all plan passwords attempts (c ∷ cs) (h ∷ hs))
  unfolding run_all
  run_all-AnswerFor c cs h hs =
      shaped plan.multi_host refl plan.serialize (run_host plan passwords attempts 0 (c ∷ cs) h)
        (run_host-For 0 c cs h) (run_serial plan passwords attempts 0 (c ∷ cs) (h ∷ hs))
        (run_parallel plan passwords attempts 0 (c ∷ cs) (h ∷ hs)) refl
        (λ e. run_serial-For e 0 c cs (h ∷ hs)) (λ e. run_parallel-For e 0 c cs (h ∷ hs))
    where
      shaped :
          (many : Bool)
          → plan.multi_host ≡ many
          → (in_turn : Bool) → (o : Result ToolError HostResult) → WhenOk (HostFor plan h c cs) o
          → (s : Result ToolError (List Line)) (ls : List Line) → plan.serialize ≡ in_turn
          → (plan.serialize ≡ true → WhenOk (LinesFor plan (h ∷ hs) c cs) s)
          → (plan.serialize ≡ false → LinesFor plan (h ∷ hs) c cs ls)
          → WhenOk (AnswerFor plan h hs c cs) (
              if not many
              then elim o [ ok r ↦ ok (one_result r) | err e ↦ err e ]
              else if in_turn
              then elim s [ ok ls ↦ ok (list_of ls) | err e ↦ err e ]
              else ok (list_of ls))
      shaped false is in_turn (ok r) m s ls _ _ _ = (is, m)
      shaped false is in_turn (err e) m s ls _ _ _ = tt
      shaped true is true o m (ok each) ls e ms _ = (is, ms e)
      shaped true is true o m (err f) ls e ms _ = tt
      shaped true is false o m s ls e _ ms = (is, ms e)
