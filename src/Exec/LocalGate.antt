-- ===== src/Exec/LocalGate.antt =====
-- What a call of `local_exec` of portal_mcp_server/cli.py that gives an answer has gone through.
use portal_mcp_server.Base.{
  ℕ, zero, suc, ◌*◌, ◌<◌, ◌≤◌, arith, pos, negsuc, ℤ, ◌≡◌, refl, ap, subst, Text, text_has_eq, ◌==◌,
  codes, Bool, true, false, not, Option, none, some, List, [], ◌∷◌, any, is_empty, if◌then◌else◌,
  Result, ok, err,
}
use portal_mcp_server.Base.Dicts.{Dict}
use portal_mcp_server.Policy.{Refusal, Counters, check_rate_limit, enforce}
use portal_mcp_server.Policy.Verdict.{Permitted, enforce-Permitted}
use portal_mcp_server.Safety.{Invalid}
use portal_mcp_server.Secrets.{occurs}
use portal_mcp_server.Secrets.Redact.{StarFree, redact-hides}
use portal_mcp_server.Exec.Call.{SecretFault, CallFault, enforce_timeout_cap, max_command_timeout}
use portal_mcp_server.Exec.Inject.{resolve_secrets-any}
use portal_mcp_server.Exec.Local.{
  LocalSite, LocalFault, disabled, bad_timeout, local_blocked, no_local_password, no_local_secret,
  not_quotable, LocalAnswer, LocalRun, local_result, answer_of, sudo_line, sudo_input, allows_local,
  local_secrets, local_sudo_run, local_run, local_exec,
}

-- The outcome of the call is the answer.
abbrev LocalGives : LocalAnswer → Counters × Result LocalFault LocalAnswer → Type 0
LocalGives answer outcome = outcome.1 ≡ ok answer

-- The ceiling in units: PORTAL_MAX_TIMEOUT if it is a positive number, and else 300 seconds.
abbrev pub units_allowed : ℕ → Option ℤ → ℕ
units_allowed second none = second * 300
units_allowed second (some (pos zero)) = second * 300
units_allowed second (some (pos (suc n))) = suc n
units_allowed second (some (negsuc n)) = second * 300

-- The timeout is given, positive and not above the ceiling.
abbrev pub InTime : ℕ → Option ℤ → Option ℤ → Type 0
InTime second ceiling timeout =
    (t : ℕ) × ((timeout ≡ some (pos t)) × ((0 < t) × (t ≤ units_allowed second ceiling)))

cap_units :
    (second : ℕ) (ceiling : Option ℤ)
    → max_command_timeout second ceiling ≡ pos (units_allowed second ceiling)
cap_units second none = refl
cap_units second (some (pos zero)) = refl
cap_units second (some (pos (suc n))) = ground arith
cap_units second (some (negsuc n)) = refl

enforce_timeout_cap-InTime :
    (second : ℕ) (ceiling timeout : Option ℤ)
    → enforce_timeout_cap (max_command_timeout second ceiling) timeout ≡ ok tt
    → InTime second ceiling timeout
enforce_timeout_cap-InTime second ceiling none h = cc
enforce_timeout_cap-InTime second ceiling (some (negsuc t)) h = cc
enforce_timeout_cap-InTime second ceiling (some (pos t)) h =
    let h' =
      subst (λ cap. enforce_timeout_cap cap (some (pos t)) ≡ ok tt) (cap_units second ceiling) h in
    (t, (refl, (ground (arith, h'), ground (arith, h'))))

module _ (site : LocalSite) (command : Text) (secrets : List Text) (seconds : Text) where
  -- The output of the answer shows the text nowhere.
  abbrev pub Unseen : Text → Result LocalFault LocalAnswer → Type 0
  Unseen x (ok answer) = occurs x answer.output ≡ false
  Unseen x (err e) = Unit

  module _ (name : Text) (a : ℕ) (v : Text) (free : StarFree (a ∷ v))
      (named : any (λ n. n == name) secrets ≡ true)
      (resolved : site.resolve name ≡ ok (some (a ∷ v))) where
    answer-Unseen :
        (env : Dict Text Text) (values : List Text)
        → local_secrets site secrets ≡ ok (env, values)
        → (risk : Bool) (r : LocalRun) → Unseen (a ∷ v) (ok (answer_of seconds values risk r))
    answer-Unseen env values got risk r =
        redact-hides (local_result seconds r).0 values a v free (inside secrets got named)
      where
        inside :
            (names : List Text)
            → local_secrets site names ≡ ok (env, values)
            → any (λ n. n == name) names ≡ true
            → any (λ w. w == (a ∷ v)) values ≡ true
        inside [] got named = cc
        inside (n ∷ ns) got named =
            resolve_secrets-any site.resolve (n ∷ ns) env values got name (a ∷ v) named resolved

    local_sudo_run-Unseen :
        (password : Text) → Unseen (a ∷ v) (local_sudo_run site command seconds secrets password)
    local_sudo_run-Unseen password = decide (local_secrets site secrets) refl
      where
        line :
            (env : Dict Text Text) (values : List Text)
            → local_secrets site secrets ≡ ok (env, values)
            → (l : Result Invalid Text)
            → Unseen (a ∷ v) (elim l [
              | err e ↦ err (not_quotable e)
              | ok line ↦ ok (
                  answer_of seconds values true
                    (site.run_sudo line (sudo_input site.encode password env)))
            ])
        line env values got (err e) = tt
        line env values got (ok l) =
            answer-Unseen env values got true
              (site.run_sudo l (sudo_input site.encode password env))

        decide :
            (r : Result SecretFault (Dict Text Text × List Text))
            → local_secrets site secrets ≡ r
            → Unseen (a ∷ v) (elim r [
              | err e ↦ err (no_local_secret e)
              | ok (env, values) ↦ elim (sudo_line command env) [
                | err e ↦ err (not_quotable e)
                | ok line ↦ ok (
                    answer_of seconds values true
                      (site.run_sudo line (sudo_input site.encode password env)))
              ]
            ])
        decide (err e) _ = tt
        decide (ok (env, values)) got = line env values got (sudo_line command env)

    local_run-Unseen :
        (use_sudo : Bool) → Unseen (a ∷ v) (local_run site command seconds secrets use_sudo)
    local_run-Unseen true = asks site.password
      where
        asks :
            (o : Option Text)
            → Unseen (a ∷ v) (elim o [
              | none ↦ err no_local_password
              | some password ↦ local_sudo_run site command seconds secrets password
            ])
        asks none = tt
        asks (some password) = local_sudo_run-Unseen password
    local_run-Unseen false = decide (local_secrets site secrets) refl
      where
        decide :
            (r : Result SecretFault (Dict Text Text × List Text))
            → local_secrets site secrets ≡ r
            → Unseen (a ∷ v) (elim r [
              | err e ↦ err (no_local_secret e)
              | ok (env, values) ↦
                  ok (answer_of seconds values (not (is_empty secrets)) (site.run command env))
            ])
        decide (err e) _ = tt
        decide (ok (env, values)) got =
            answer-Unseen env values got (not (is_empty secrets)) (site.run command env)

  module _ (use_sudo : Bool) (timeout : Option ℤ) (now : ℕ) (counters : Counters) where
    -- What an answer stands for: the process's environment allows local runs, the timeout is within the
    -- ceiling, and the policy permits the command on `<local>` within the rate.
    abbrev pub LocalPassed : LocalAnswer → Type 0
    LocalPassed answer =
        (allows_local site.lower site.allow_local_exec ≡ true)
        × (InTime site.second site.ceiling timeout
            × (Permitted site.lower site.policy (codes "<local>") command (site.verdict command)
                × (((check_rate_limit site.second site.policy (codes "<local>") now counters).1
                      ≡ none)
                    × (local_run site command seconds secrets use_sudo ≡ ok answer))))

    pub local_exec-LocalPassed :
        (answer : LocalAnswer)
        → (local_exec site command secrets use_sudo timeout seconds now counters).1 ≡ ok answer
        → LocalPassed answer
    unfolding local_exec
    local_exec-LocalPassed answer went =
        decide (allows_local site.lower site.allow_local_exec) refl
          (enforce_timeout_cap (max_command_timeout site.second site.ceiling) timeout) refl
          (enforce site.second site.lower site.policy (codes "<local>") command
            (site.verdict command) true now counters)
          refl went
      where
        decide :
            (b : Bool)
            → allows_local site.lower site.allow_local_exec ≡ b
            → (o : Result CallFault (Unit {0}))
            → enforce_timeout_cap (max_command_timeout site.second site.ceiling) timeout ≡ o
            → (g : Counters × Option Refusal)
            → enforce site.second site.lower site.policy
                (codes "<local>")
                command
                (site.verdict command)
                true
                now
                counters
              ≡ g
            → LocalGives answer (
                if not b then (counters, err disabled) else elim o [
                  | err e ↦ (counters, err (bad_timeout e))
                  | ok _ ↦ elim g.1 [
                    | some e ↦ (g.0, err (local_blocked e))
                    | none ↦ (g.0, local_run site command seconds secrets use_sudo)
                  ]
                ])
            → LocalPassed answer
        decide false off o e g q w = cc
        decide true on (err f) e g q w = cc
        decide true on (ok _) e (c, some refusal) q w = cc
        decide true on (ok tt) e (c, none) q w =
            let gate =
              (enforce-Permitted site.lower site.policy site.second (codes "<local>") command
                  (site.verdict command) now counters).0.0
                (ap (λ g. g.1) q) in
            (
              on,
              (
                enforce_timeout_cap-InTime site.second site.ceiling timeout e,
                (gate.0, (gate.1, w)),
              ),
            )

    -- The output of an answer shows the value of no secret that the call names, if the value is not
    -- empty and has no asterisk.
    pub local_exec-occurs :
        (name : Text) (a : ℕ) (v : Text)
        → StarFree (a ∷ v)
        → any (λ n. n == name) secrets ≡ true
        → site.resolve name ≡ ok (some (a ∷ v))
        → (answer : LocalAnswer)
        → (local_exec site command secrets use_sudo timeout seconds now counters).1 ≡ ok answer
        → occurs (a ∷ v) answer.output ≡ false
    local_exec-occurs name a v free named resolved answer went =
        subst (Unseen (a ∷ v)) (local_exec-LocalPassed answer went).1.1.1.1
          (local_run-Unseen name a v free named resolved use_sudo)
