-- ===== src/Exec/Whole.antt =====
-- What a call of `remote_exec` of portal_mcp_server/cli.py that gives an answer has gone through.
use portal_mcp_server.Base.{
  ℕ, ◌≡◌, refl, subst, sym, ◌⊎◌, inl, inr, Text, text_has_eq, ◌==◌, Bool, true, false, Option, none,
  some, List, [], ◌∷◌, map, any, is_empty, if◌then◌else◌, Result, ok, err, WhenOk,
}
use portal_mcp_server.Base.Dicts.{Dict}
use portal_mcp_server.Policy.{Refusal, Counters}
use portal_mcp_server.Secrets.Redact.{StarFree}
use portal_mcp_server.Safety.{normalize_host_name}
use portal_mcp_server.Exec.{ToolError, ExecAnswer, nobody_tagged, run_all}
use portal_mcp_server.Exec.Call.{
  CallFault, no_secret, SecretFault, Site, ExecCall, commit_rates, gate_exec, enforce_timeout_cap,
  max_command_timeout, resolve_targets, resolve_commands, resolve_secrets, with_secrets, wrap_run,
  plan_of, gated, targeted, remote_exec,
}
use portal_mcp_server.Exec.Gate.{AllAllowed, gate_exec_lem}
use portal_mcp_server.Exec.Hidden.{AnswerMasked, run_all-Masked}
use portal_mcp_server.Exec.Inject.{resolve_secrets-any}

-- The outcome of the call is the answer.
abbrev Gives : ExecAnswer → Counters × Result CallFault ExecAnswer → Type 0
Gives answer outcome = outcome.1 ≡ ok answer

module _ (site : Site) (call : ExecCall) (now : ℕ) (counters : Counters) where
  -- The runs, with the secrets that they take.
  abbrev pub runs : List Text → Bool → List Text → Bool → Result CallFault ExecAnswer
  runs hosts multi_host cmds multi_cmd = with_secrets site call.secrets (λ env values. wrap_run (
      run_all (plan_of call multi_host multi_cmd values) site.passwords (site.attempts env) cmds
        hosts))

  -- The call ran these commands on these hosts: all are allowed, no name is empty, and the rates had
  -- room for each host.
  abbrev pub Passed : List Text → Bool → List Text → Bool → ExecAnswer → Type 0
  Passed hosts multi_host cmds multi_cmd answer =
      AllAllowed site.second site.lower site.policy site.verdict now hosts cmds
      × (((commit_rates site.second site.policy now hosts counters).1 ≡ none)
          × (runs hosts multi_host cmds multi_cmd ≡ ok answer))

  gated-Passed :
      (hosts : List Text) (multi_host : Bool) (cmds : List Text) (multi_cmd : Bool)
      (answer : ExecAnswer)
      → (gated site call now hosts multi_host cmds multi_cmd counters).1 ≡ ok answer
      → Passed hosts multi_host cmds multi_cmd answer
  gated-Passed hosts multi_host cmds multi_cmd answer went =
      elim (gate_exec_lem site.second site.lower site.policy site.verdict now hosts cmds counters) [
        | inl (allowed, same) ↦ (
          allowed,
          decide (commit_rates site.second site.policy now hosts counters) (settle same),
        )
        | inr (_, (e, refused)) ↦ cc (settle refused)
      ]
    where
      Settled : Counters × Option Refusal → Type 0
      Settled pair = Gives answer (elim pair.1 [
        | some e ↦ (pair.0, err (CallFault.blocked e))
        | none ↦ (pair.0, runs hosts multi_host cmds multi_cmd)
      ])

      settle :
          {pair : Counters × Option Refusal}
          → gate_exec site.second site.lower site.policy site.verdict now hosts cmds counters ≡ pair
          → Settled pair
      settle same = subst Settled same went

      decide :
          (pair : Counters × Option Refusal)
          → Settled pair
          → (pair.1 ≡ none) × (runs hosts multi_host cmds multi_cmd ≡ ok answer)
      decide (c, some e) h = cc
      decide (c, none) h = (refl, h)

  -- The call named hosts and commands, and ran them.
  abbrev pub Ran : ExecAnswer → Type 0
  Ran answer =
      (hosts : List Text) × ((multi_host : Bool) × ((cmds : List Text) × ((multi_cmd : Bool)
            × ((resolve_targets site.registry call.group_tag call.host ≡ ok (hosts, multi_host))
                × ((resolve_commands call.commands call.command ≡ ok (cmds, multi_cmd))
                    × ((any is_empty (map normalize_host_name hosts) ≡ false)
                        × Passed (map normalize_host_name hosts) multi_host cmds multi_cmd
                            answer))))))

  targeted-Ran :
      (hosts : List Text) (multi_host : Bool) (answer : ExecAnswer)
      → resolve_targets site.registry call.group_tag call.host ≡ ok (hosts, multi_host)
      → (targeted site call now hosts multi_host counters).1 ≡ ok answer
      → (answer ≡ nobody_tagged call.group_tag) ⊎ Ran answer
  targeted-Ran [] multi_host answer targets went = inl cc
  targeted-Ran (h ∷ hs) multi_host answer targets went =
      decide (any is_empty (map normalize_host_name (h ∷ hs))) refl
        (resolve_commands call.commands call.command) refl went
    where
      names : List Text
      names = map normalize_host_name (h ∷ hs)

      decide :
          (b : Bool)
          → any is_empty (map normalize_host_name (h ∷ hs)) ≡ b
          → (r : Result CallFault (List Text × Bool))
          → resolve_commands call.commands call.command ≡ r
          → Gives answer (
              if b then (counters, err CallFault.empty_name) else elim r [
                | err e ↦ (counters, err e)
                | ok (cmds, multi_cmd) ↦
                    gated site call now
                      (map normalize_host_name (h ∷ hs))
                      multi_host
                      cmds
                      multi_cmd
                      counters
              ])
          → (answer ≡ nobody_tagged call.group_tag) ⊎ Ran answer
      decide true empty r e w = cc
      decide false full (err f) e w = cc
      decide false full (ok (cmds, multi_cmd)) e w = inr (
        h ∷ hs,
        (
          multi_host,
          (
            cmds,
            (
              multi_cmd,
              (
                targets,
                (
                  e,
                  (
                    full,
                    gated-Passed (map normalize_host_name (h ∷ hs)) multi_host cmds multi_cmd answer
                        w,
                  ),
                ),
              ),
            ),
          ),
        ),
      )

  -- A call that gives an answer found no host with the tag, or else every command and every host that it
  -- named is allowed, no host's name is empty, the rates had room for each host, and the answer is that of
  -- the runs.
  pub remote_exec-Ran :
      (answer : ExecAnswer)
      → (remote_exec site call now counters).1 ≡ ok answer
      → (answer ≡ nobody_tagged call.group_tag) ⊎ Ran answer
  unfolding remote_exec
  remote_exec-Ran answer went =
      decide (enforce_timeout_cap (max_command_timeout site.second site.ceiling) call.timeout)
        (resolve_targets site.registry call.group_tag call.host) refl went
    where
      decide :
          (o : Result CallFault (Unit {0})) (r : Result CallFault (List Text × Bool))
          → resolve_targets site.registry call.group_tag call.host ≡ r
          → Gives answer (elim o [
            | err e ↦ (counters, err e)
            | ok _ ↦ elim r [
              | err e ↦ (counters, err e)
              | ok (hosts, multi_host) ↦ targeted site call now hosts multi_host counters
            ]
          ])
          → (answer ≡ nobody_tagged call.group_tag) ⊎ Ran answer
      decide (err f) r e w = cc
      decide (ok _) (err f) e w = cc
      decide (ok _) (ok (hosts, multi_host)) e w = targeted-Ran hosts multi_host answer e w

  module _ (a : ℕ) (v : Text) (free : StarFree (a ∷ v)) where
    wrap_run-masked :
        (r : Result ToolError ExecAnswer) (answer : ExecAnswer)
        → WhenOk (AnswerMasked site.passwords (a ∷ v)) r
        → wrap_run r ≡ ok answer
        → AnswerMasked site.passwords (a ∷ v) answer
    wrap_run-masked (err e) answer m w = cc
    wrap_run-masked (ok x) answer m w =
        let same : x ≡ answer = cc in subst (AnswerMasked site.passwords (a ∷ v)) same m

    with_secrets-masked :
        (secrets : List Text) (name : Text)
        → any (λ n. n == name) secrets ≡ true
        → site.resolve name ≡ ok (some (a ∷ v))
        → (hosts : List Text) (multi_host : Bool) (cmds : List Text) (multi_cmd : Bool)
          (answer : ExecAnswer)
        → with_secrets site secrets (λ env values. wrap_run (
            run_all
              (plan_of call multi_host multi_cmd values)
              site.passwords
              (site.attempts env)
              cmds
              hosts))
          ≡ ok answer
        → AnswerMasked site.passwords (a ∷ v) answer
    with_secrets-masked [] name named resolved hosts multi_host cmds multi_cmd answer w = cc
    with_secrets-masked (s ∷ ss) name named resolved hosts multi_host cmds multi_cmd answer w =
        decide (resolve_secrets site.resolve (s ∷ ss)) refl w
      where
        decide :
            (r : Result SecretFault (Dict Text Text × List Text))
            → resolve_secrets site.resolve (s ∷ ss) ≡ r
            → (elim r [
              | err e ↦ err (no_secret e)
              | ok (env, values) ↦ wrap_run (
                  run_all
                    (plan_of call multi_host multi_cmd (some values))
                    site.passwords
                    (site.attempts env)
                    cmds
                    hosts)
            ])
              ≡ ok answer
            → AnswerMasked site.passwords (a ∷ v) answer
        decide (err e) _ w = cc
        decide (ok (env, values)) got w =
            wrap_run-masked
              (run_all (plan_of call multi_host multi_cmd (some values)) site.passwords
                (site.attempts env) cmds hosts)
              answer
              (run_all-Masked (plan_of call multi_host multi_cmd (some values)) site.passwords
                (site.attempts env) values refl a v free
                (resolve_secrets-any site.resolve (s ∷ ss) env values got name (a ∷ v) named
                  resolved)
                cmds hosts)
              w

    -- In the answer of a call that names a secret, no result shows the secret's value in its outputs, if
    -- that is not empty and has no asterisk, but for the note that a host has no sudo password, which
    -- names the host.
    pub remote_exec-AnswerMasked :
        (name : Text)
        → any (λ n. n == name) call.secrets ≡ true
        → site.resolve name ≡ ok (some (a ∷ v))
        → (answer : ExecAnswer) → (remote_exec site call now counters).1 ≡ ok answer
        → AnswerMasked site.passwords (a ∷ v) answer
    remote_exec-AnswerMasked name named resolved answer went = elim (remote_exec-Ran answer went) [
      | inl nobody ↦ subst (AnswerMasked site.passwords (a ∷ v)) (sym nobody) tt
      | inr (hosts, (multi_host, (cmds, (multi_cmd, (_, (_, (_, (_, (_, ran))))))))) ↦
          with_secrets-masked call.secrets name named resolved (map normalize_host_name hosts)
            multi_host cmds multi_cmd answer ran
    ]
