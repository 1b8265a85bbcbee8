-- ===== src/Exec/Hidden.antt =====
-- That the runs of `remote_exec` of portal_mcp_server/cli.py show no secret.
use portal_mcp_server.Base.{
  codes, ◌++◌, ℕ, suc, ◌≡◌, refl, ap, ◌∙◌, ◌⊎◌, inl, inr, Text, text_has_eq, ◌==◌, Bool, true,
  false, ◌&&◌, Option, none, some, List, [], ◌∷◌, any, if◌then◌else◌, All, Result, ok, err, WhenOk,
  not,
}
use portal_mcp_server.Secrets.{occurs}
use portal_mcp_server.Secrets.Redact.{StarFree, redact-hides}
use portal_mcp_server.Exec.{
  ExecMode, plain, with_sudo, Plan, Attempt, gave, raised, ToolError, ExecResult, Item, ran,
  stopped_at, HostResult, single, several, Line, of_host, failed_host, stopped_host, ExecAnswer,
  one_result, list_of, nobody_tagged, hide, result_of, push_item, push_line, no_password,
  stops_commands, result_failed, run_one, run_commands, run_host, run_serial, run_parallel, run_all,
}

module _ (passwords : Text → Option Text) (secret : Text) where
  -- Neither output of the result shows the secret, or it says that nothing ran, since there was no
  -- password for the host.
  abbrev pub Masked : ExecResult → Type 0
  Masked r =
      ((occurs secret r.stdout ≡ false) × (occurs secret r.stderr ≡ false))
      ⊎ ((passwords r.host ≡ none)
          × ((r.stdout ≡ []) × (r.stderr ≡ codes "no sudo password for " ++ r.host)))

  abbrev pub ItemMasked : Item → Type 0
  ItemMasked (ran r) = Masked r
  ItemMasked (stopped_at cmd) = Unit

  abbrev pub HostMasked : HostResult → Type 0
  HostMasked (single r) = Masked r
  HostMasked (several h items) = All ItemMasked items

  abbrev pub LineMasked : Line → Type 0
  LineMasked (of_host r) = HostMasked r
  LineMasked (failed_host h e) = Unit
  LineMasked (stopped_host h) = Unit

  -- Every result in the answer is masked. The text of an exception is not a result.
  abbrev pub AnswerMasked : ExecAnswer → Type 0
  AnswerMasked (one_result r) = HostMasked r
  AnswerMasked (list_of ls) = All LineMasked ls
  AnswerMasked (nobody_tagged tag) = Unit

module _ (plan : Plan) (passwords : Text → Option Text) (attempts : ℕ → ℕ → Attempt)
    (values : List Text) (planned : plan.secret_values ≡ some values) (a : ℕ) (v : Text)
    (free : StarFree (a ∷ v)) (given : any (λ w. w == (a ∷ v)) values ≡ true) where
  hide-occurs : (s : Text) → occurs (a ∷ v) (hide plan.secret_values s) ≡ false
  hide-occurs s = ap (λ o. occurs (a ∷ v) (hide o s)) planned ∙ redact-hides s values a v free given

  result_of-Masked :
      (risk : Bool) (h cmd : Text) (t : Attempt)
      → WhenOk (Masked passwords (a ∷ v)) (result_of plan.secret_values risk h cmd t)
  result_of-Masked risk h cmd (raised e) = tt
  result_of-Masked risk h cmd (gave code out errors) = inl (hide-occurs out, hide-occurs errors)

  no_password-Masked :
      (several_hosts : Bool) (h cmd : Text)
      → passwords h ≡ none
      → WhenOk (Masked passwords (a ∷ v)) (no_password several_hosts h cmd)
  no_password-Masked true h cmd lacks = inr (lacks, (refl, refl))
  no_password-Masked false h cmd lacks = tt

  run_one-Masked :
      (i j : ℕ) (h cmd : Text)
      → WhenOk (Masked passwords (a ∷ v)) (run_one plan passwords attempts i j h cmd)
  unfolding run_one
  run_one-Masked i j h cmd =
      asks plan.mode (elim plan.secret_values [ none ↦ false | some values ↦ true ]) (passwords h)
        refl
    where
      asks :
          (mode : ExecMode) (risk : Bool) (o : Option Text)
          → passwords h ≡ o
          → WhenOk (Masked passwords (a ∷ v)) (elim mode [
            | with_sudo ↦ elim o [
              | none ↦ no_password plan.multi_host h cmd
              | some password ↦ result_of plan.secret_values true h cmd (attempts i j)
            ]
            | plain ↦ result_of plan.secret_values risk h cmd (attempts i j)
          ])
      asks with_sudo risk none lacks = no_password-Masked plan.multi_host h cmd lacks
      asks with_sudo risk (some password) has = result_of-Masked true h cmd (attempts i j)
      asks plain risk o e = result_of-Masked risk h cmd (attempts i j)

  run_commands-Masked :
      (i j : ℕ) (h : Text) (cmds : List Text)
      → WhenOk
          (All (ItemMasked passwords (a ∷ v)))
          (run_commands plan passwords attempts i j h cmds)
  unfolding run_commands
  run_commands-Masked i j h [] = tt
  run_commands-Masked i j h (cmd ∷ cmds) =
      one (run_one plan passwords attempts i j h cmd) (run_one-Masked i j h cmd)
        (run_commands plan passwords attempts i (suc j) h cmds)
        (run_commands-Masked i (suc j) h cmds)
    where
      more :
          (stop : Bool) (r : ExecResult)
          → Masked passwords (a ∷ v) r
          → (rest : Result ToolError (List Item)) → WhenOk (All (ItemMasked passwords (a ∷ v))) rest
          → WhenOk
              (All (ItemMasked passwords (a ∷ v)))
              (if stop then ok (ran r ∷ stopped_at cmd ∷ []) else push_item r rest)
      more true r m rest ms = (m, (tt, tt))
      more false r m (ok items) ms = (m, ms)
      more false r m (err e) ms = tt

      one :
          (o : Result ToolError ExecResult)
          → WhenOk (Masked passwords (a ∷ v)) o
          → (rest : Result ToolError (List Item)) → WhenOk (All (ItemMasked passwords (a ∷ v))) rest
          → WhenOk (All (ItemMasked passwords (a ∷ v))) (elim o [
            | err e ↦ err e
            | ok r ↦
                if plan.stop_on_error && stops_commands r
                then ok (ran r ∷ stopped_at cmd ∷ [])
                else push_item r rest
          ])
      one (err e) m rest ms = tt
      one (ok r) m rest ms = more (plan.stop_on_error && stops_commands r) r m rest ms

  run_host-Masked :
      (i : ℕ) (cmds : List Text) (h : Text)
      → WhenOk (HostMasked passwords (a ∷ v)) (run_host plan passwords attempts i cmds h)
  unfolding run_host
  run_host-Masked i [] h = tt
  run_host-Masked i (cmd ∷ cmds) h =
      shaped plan.multi_cmd (run_commands plan passwords attempts i 0 h (cmd ∷ cmds))
        (run_commands-Masked i 0 h (cmd ∷ cmds)) (run_one plan passwords attempts i 0 h cmd)
        (run_one-Masked i 0 h cmd)
    where
      shaped :
          (batch : Bool) (items : Result ToolError (List Item))
          → WhenOk (All (ItemMasked passwords (a ∷ v))) items
          → (o : Result ToolError ExecResult) → WhenOk (Masked passwords (a ∷ v)) o
          → WhenOk (HostMasked passwords (a ∷ v)) (
              if batch
              then elim items [ ok items ↦ ok (several h items) | err e ↦ err e ]
              else elim o [ ok r ↦ ok (single r) | err e ↦ err e ])
      shaped true (ok items) ms o m = ms
      shaped true (err e) ms o m = tt
      shaped false items ms (ok r) m = m
      shaped false items ms (err e) m = tt

  run_serial-Masked :
      (i : ℕ) (cmds hosts : List Text)
      → WhenOk
          (All (LineMasked passwords (a ∷ v)))
          (run_serial plan passwords attempts i cmds hosts)
  unfolding run_serial
  run_serial-Masked i cmds [] = tt
  run_serial-Masked i cmds (h ∷ hs) =
      one (run_host plan passwords attempts i cmds h) (run_host-Masked i cmds h)
        (run_serial plan passwords attempts (suc i) cmds hs) (run_serial-Masked (suc i) cmds hs)
    where
      more :
          (stop : Bool) (r : HostResult)
          → HostMasked passwords (a ∷ v) r
          → (rest : Result ToolError (List Line)) → WhenOk (All (LineMasked passwords (a ∷ v))) rest
          → WhenOk
              (All (LineMasked passwords (a ∷ v)))
              (if stop then ok (of_host r ∷ stopped_host h ∷ []) else push_line (of_host r) rest)
      more true r m rest ms = (m, (tt, tt))
      more false r m (ok ls) ms = (m, ms)
      more false r m (err e) ms = tt

      one :
          (o : Result ToolError HostResult)
          → WhenOk (HostMasked passwords (a ∷ v)) o
          → (rest : Result ToolError (List Line)) → WhenOk (All (LineMasked passwords (a ∷ v))) rest
          → WhenOk (All (LineMasked passwords (a ∷ v))) (elim o [
            | err e ↦ err e
            | ok r ↦
                if plan.stop_on_error && result_failed r
                then ok (of_host r ∷ stopped_host h ∷ [])
                else push_line (of_host r) rest
          ])
      one (err e) m rest ms = tt
      one (ok r) m rest ms = more (plan.stop_on_error && result_failed r) r m rest ms

  run_parallel-Masked :
      (i : ℕ) (cmds hosts : List Text)
      → All (LineMasked passwords (a ∷ v)) (run_parallel plan passwords attempts i cmds hosts)
  unfolding run_parallel
  run_parallel-Masked i cmds [] = tt
  run_parallel-Masked i cmds (h ∷ hs) =
      one _ (run_host plan passwords attempts i cmds h) (run_host-Masked i cmds h)
        (run_parallel-Masked (suc i) cmds hs)
    where
      one :
          (rest : List Line) (o : Result ToolError HostResult)
          → WhenOk (HostMasked passwords (a ∷ v)) o
          → All (LineMasked passwords (a ∷ v)) rest
          → All
              (LineMasked passwords (a ∷ v))
              (elim o [ ok r ↦ of_host r ∷ rest | err e ↦ failed_host h e ∷ rest ])
      one rest (ok r) m ms = (m, ms)
      one rest (err e) m ms = (tt, ms)

  -- Every result of `run_all` is masked.
  pub run_all-Masked :
      (cmds hosts : List Text)
      → WhenOk (AnswerMasked passwords (a ∷ v)) (run_all plan passwords attempts cmds hosts)
  unfolding run_all
  run_all-Masked cmds [] = tt
  run_all-Masked cmds (h ∷ hs) =
      shaped _ plan.multi_host plan.serialize (run_host plan passwords attempts 0 cmds h)
        (run_host-Masked 0 cmds h) (run_serial plan passwords attempts 0 cmds (h ∷ hs))
        (run_serial-Masked 0 cmds (h ∷ hs)) (run_parallel-Masked 0 cmds (h ∷ hs))
    where
      shaped :
          (ls : List Line) (many in_turn : Bool) (o : Result ToolError HostResult)
          → WhenOk (HostMasked passwords (a ∷ v)) o
          → (s : Result ToolError (List Line)) → WhenOk (All (LineMasked passwords (a ∷ v))) s
          → All (LineMasked passwords (a ∷ v)) ls
          → WhenOk (AnswerMasked passwords (a ∷ v)) (
              if not many
              then elim o [ ok r ↦ ok (one_result r) | err e ↦ err e ]
              else if in_turn
              then elim s [ ok ls ↦ ok (list_of ls) | err e ↦ err e ]
              else ok (list_of ls))
      shaped ls false in_turn (ok r) m s ms each = m
      shaped ls false in_turn (err e) m s ms each = tt
      shaped ls true true o m (ok each) ms _ = ms
      shaped ls true true o m (err e) ms _ = tt
      shaped ls true false o m s ms each = each
