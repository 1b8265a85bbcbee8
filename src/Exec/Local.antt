-- ===== src/Exec/Local.antt =====
-- `local_exec` of portal_mcp_server/cli.py and the two runs of portal_mcp_server/local_exec.py. What a child
-- process does is a parameter; its outputs come decoded.
use portal_mcp_server.Base.{
  ℕ, ℤ, negsuc, Text, text_has_eq, ◌==◌, codes, strip, Bool, true, false, not, Option, none, some,
  List, [], ◌∷◌, ◌++◌, any, is_empty, if◌then◌else◌, Result, ok, err,
}
use portal_mcp_server.Base.Dicts.{Dict}
use portal_mcp_server.Policy.{Policy, Refusal, Counters, enforce}
use portal_mcp_server.Safety.{Invalid}
use portal_mcp_server.Safety.Quote.{quote_shell}
use portal_mcp_server.Secrets.{redact}
use portal_mcp_server.Secrets.Stdin.{
  rstrip_newlines, sudo_stdin_secret_script, sudo_stdin_secret_values, names_of, values_of,
}
use portal_mcp_server.Exec.Call.{
  SecretFault, CallFault, resolve_secrets, enforce_timeout_cap, max_command_timeout,
}

-- What becomes of the child process.
pub data LocalRun : Type 0 where
  not_started : Text → LocalRun
  timed_out : LocalRun
  finished : Text → Text → ℤ → LocalRun

-- The standard output, and the standard error if there is any.
abbrev pub local_output : Text → Text → Text
local_output out errors =
    let output = rstrip_newlines out in
    let shown = strip errors in
    if is_empty shown
    then output
    else (if is_empty output then [] else output ++ codes "\n") ++ codes "[stderr] " ++ shown

-- What `local_exec_with_env` and `local_sudo_exec_with_env` return; `seconds` is the timeout in words.
abbrev pub local_result : Text → LocalRun → Text × ℤ
local_result seconds (not_started e) = (codes "[error] failed to start command: " ++ e, negsuc 0)
local_result seconds timed_out =
    (codes "[error] command timed out after " ++ seconds ++ codes "s", negsuc 0)
local_result seconds (finished out errors code) = (local_output out errors, code)

-- The command line of `local_sudo_exec_with_env`.
abbrev pub sudo_line : Text → Dict Text Text → Result Invalid Text
sudo_line command env = elim (quote_shell (sudo_stdin_secret_script command (names_of env))) [
  | err e ↦ err e
  | ok body ↦ ok (codes "sudo -S -k -p '' -- bash -c " ++ body)
]

-- The input of `local_sudo_exec_with_env`.
abbrev pub sudo_input : (Text → Text) → Text → Dict Text Text → Text
sudo_input encode password env =
    password ++ codes "\n" ++ sudo_stdin_secret_values encode (values_of env)

-- What surrounds the call. `run` is given the command and the variables, `run_sudo` the command line and
-- the input.
pub record LocalSite : Type 0 where
  pub allow_local_exec : Text
  pub second : ℕ
  pub ceiling : Option ℤ
  pub lower : Text → Text
  pub policy : Policy
  pub verdict : Text → Option Text
  pub resolve : Text → Result Text (Option Text)
  pub password : Option Text
  pub encode : Text → Text
  pub run : Text → Dict Text Text → LocalRun
  pub run_sudo : Text → Text → LocalRun

-- Whether PORTAL_ALLOW_LOCAL_EXEC is one of the words for yes.
abbrev pub allows_local : (Text → Text) → Text → Bool
allows_local lower flag =
    any (λ word. word == lower flag) (codes "1" ∷ codes "true" ∷ codes "yes" ∷ codes "on" ∷ [])

pub data LocalFault : Type 0 where
  disabled : LocalFault
  bad_timeout : CallFault → LocalFault
  local_blocked : Refusal → LocalFault
  no_local_password : LocalFault
  no_local_secret : SecretFault → LocalFault
  not_quotable : Invalid → LocalFault

-- The answer; `high_risk` is false where there is no such key.
pub record LocalAnswer : Type 0 where
  pub output : Text
  pub exit_code : ℤ
  pub high_risk : Bool

abbrev pub answer_of : Text → List Text → Bool → LocalRun → LocalAnswer
answer_of seconds values risk r = record {
  output = redact (local_result seconds r).0 values;
  exit_code = (local_result seconds r).1;
  high_risk = risk;
}

abbrev pub local_secrets : LocalSite → List Text → Result SecretFault (Dict Text Text × List Text)
local_secrets site [] = ok ([], [])
local_secrets site (name ∷ names) = resolve_secrets site.resolve (name ∷ names)

-- The run under sudo.
abbrev pub local_sudo_run :
    LocalSite → Text → Text → List Text → Text → Result LocalFault LocalAnswer
local_sudo_run site command seconds secrets password = elim (local_secrets site secrets) [
  | err e ↦ err (no_local_secret e)
  | ok (env, values) ↦ elim (sudo_line command env) [
    | err e ↦ err (not_quotable e)
    | ok line ↦
        ok
          (answer_of seconds values true (site.run_sudo line (sudo_input site.encode password env)))
  ]
]

-- From the gate on.
abbrev pub local_run : LocalSite → Text → Text → List Text → Bool → Result LocalFault LocalAnswer
local_run site command seconds secrets true = elim site.password [
  | none ↦ err no_local_password
  | some password ↦ local_sudo_run site command seconds secrets password
]
local_run site command seconds secrets false = elim (local_secrets site secrets) [
  | err e ↦ err (no_local_secret e)
  | ok (env, values) ↦ ok (answer_of seconds values (not (is_empty secrets)) (site.run command env))
]

-- `local_exec`
unfoldable pub local_exec :
    LocalSite
    → Text
    → List Text
    → Bool
    → Option ℤ
    → Text
    → ℕ
    → Counters
    → Counters × Result LocalFault LocalAnswer
local_exec site command secrets use_sudo timeout seconds now counters =
    if not (allows_local site.lower site.allow_local_exec)
    then (counters, err disabled)
    else elim (enforce_timeout_cap (max_command_timeout site.second site.ceiling) timeout) [
      | err e ↦ (counters, err (bad_timeout e))
      | ok _ ↦
          let (counters', refusal) =
            enforce site.second site.lower site.policy (codes "<local>") command
              (site.verdict command) true now counters in
          elim refusal [
            | some e ↦ (counters', err (local_blocked e))
            | none ↦ (counters', local_run site command seconds secrets use_sudo)
          ]
    ]
