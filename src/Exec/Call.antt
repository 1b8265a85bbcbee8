-- ===== src/Exec/Call.antt =====
-- `remote_exec` of portal_mcp_server/cli.py from its arguments on: the ceiling on the timeout, the hosts,
-- the commands, the gate, the secrets, and the runs.
use portal_mcp_server.Base.{
  ℕ, ◌*◌, ℤ, pos, negsuc, Text, text_eq, text_has_eq, ◌==◌, Bool, true, false, not, Option, none,
  some, List, [], ◌∷◌, ◌++◌, map, any, is_empty, Result, ok, err, ◌>>◌, fail_if, ltb, if◌then◌else◌,
}
use portal_mcp_server.Base.Dicts.{Dict, lookup, insert}
use portal_mcp_server.Policy.{
  Policy, Refusal, Counters, check_host, check_command, check_rate_limit,
}
use portal_mcp_server.Secrets.{env_var_name}
use portal_mcp_server.Safety.{normalize_host_name}
use portal_mcp_server.Exec.{ExecMode, Plan, ToolError, Attempt, ExecAnswer, nobody_tagged, run_all}

-- The first error over a list, if any.
abbrev pub first_error : (Text → Option Refusal) → List Text → Option Refusal
first_error check [] = none
first_error check (x ∷ xs) =
    let rest = first_error check xs in elim (check x) [ some e ↦ some e | none ↦ rest ]

-- Phase 3 of `_gate_exec`: a token for each host.
unfoldable pub commit_rates : ℕ → Policy → ℕ → List Text → Counters → Counters × Option Refusal
commit_rates second p now [] counters = (counters, none)
commit_rates second p now (h ∷ hs) counters =
    let (counters', e) = check_rate_limit second p h now counters in
    let rest = commit_rates second p now hs counters' in
    elim e [ some refusal ↦ (counters', some refusal) | none ↦ rest ]

-- `_gate_exec`; `verdict` is what the command checker answers for a command.
unfoldable pub gate_exec :
    ℕ
    → (Text → Text)
    → Policy
    → (Text → Option Text)
    → ℕ
    → List Text
    → List Text
    → Counters
    → Counters × Option Refusal
gate_exec second lower p verdict now hosts commands counters =
    elim (first_error (λ c. check_command lower p c (verdict c)) commands) [
      | some e ↦ (counters, some e)
      | none ↦ elim (first_error (check_host p) hosts) [
        | some e ↦ (counters, some e)
        | none ↦ commit_rates second p now hosts counters
      ]
    ]

-- Why the secrets cannot be had.
pub data SecretFault : Type 0 where
  same_variable : Text → Text → Text → SecretFault
  not_resolved : Text → Text → SecretFault
  not_available : Text → SecretFault

-- The name that the variable stands for already, if it is another one.
abbrev pub other_name : Text → Option Text → Option Text
other_name name none = none
other_name name (some m) = if text_eq m name then none else some m

-- The loop of `_resolve_secrets`; `seen` has the name for each variable.
unfoldable pub resolve_from :
    (Text → Result Text (Option Text))
    → List Text
    → Dict Text Text
    → Dict Text Text
    → List Text
    → Result SecretFault (Dict Text Text × List Text)
resolve_from resolve [] env seen values = ok (env, values)
resolve_from resolve (name ∷ names) env seen values =
    let ev = env_var_name name in
    elim (other_name name (lookup ev seen)) [
      | some m ↦ err (same_variable m name ev)
      | none ↦ elim (resolve name) [
        | err e ↦ err (not_resolved name e)
        | ok found ↦ elim found [
          | none ↦ err (not_available name)
          | some v ↦
              resolve_from resolve names (insert ev v env) (insert ev name seen) (values ++ v ∷ [])
        ]
      ]
    ]

-- `_resolve_secrets`
abbrev pub resolve_secrets :
    (Text → Result Text (Option Text)) → List Text → Result SecretFault (Dict Text Text × List Text)
resolve_secrets resolve names = resolve_from resolve names [] [] []

-- Why a call fails.
pub data CallFault : Type 0 where
  not_positive above_ceiling both_targets empty_hosts no_target empty_name no_command : CallFault
  blocked : Refusal → CallFault
  no_secret : SecretFault → CallFault
  in_run : ToolError → CallFault

abbrev is_positive : ℤ → Bool
is_positive (pos n) = ltb 0 n
is_positive (negsuc n) = false

abbrev exceeds : ℤ → ℤ → Bool
exceeds (pos m) (pos n) = ltb n m
exceeds (pos m) (negsuc n) = true
exceeds (negsuc m) (pos n) = false
exceeds (negsuc m) (negsuc n) = ltb m n

-- `_max_command_timeout`, in units of which a second has `second`; PORTAL_MAX_TIMEOUT is given as the
-- number that it spells, if it does.
abbrev pub max_command_timeout : ℕ → Option ℤ → ℤ
max_command_timeout second none = pos (second * 300)
max_command_timeout second (some v) = if is_positive v then v else pos (second * 300)

-- `_enforce_timeout_cap`
abbrev pub enforce_timeout_cap : ℤ → Option ℤ → Result CallFault (Unit {0})
enforce_timeout_cap cap none = err not_positive
enforce_timeout_cap cap (some t) =
    fail_if (not (is_positive t)) not_positive >> fail_if (exceeds t cap) above_ceiling

-- The argument `host`.
pub data HostArg : Type 0 where
  no_host : HostArg
  one_host : Text → HostArg
  host_list : List Text → HostArg

-- Whether Python takes the argument as true.
abbrev pub is_given : HostArg → Bool
is_given no_host = false
is_given (one_host h) = not (is_empty h)
is_given (host_list hs) = not (is_empty hs)

-- `_resolve_group`, over the names and tags of the registry.
unfoldable pub resolve_group : List (Text × List Text) → Text → List Text
resolve_group [] tag = []
resolve_group ((h, tags) ∷ hosts) tag =
    let rest = resolve_group hosts tag in if any (λ t. t == tag) tags then h ∷ rest else rest

-- The hosts, and whether the call is for several.
abbrev pub direct_targets : HostArg → Result CallFault (List Text × Bool)
direct_targets no_host = err no_target
direct_targets (one_host h) = if is_empty h then err no_target else ok (h ∷ [], false)
direct_targets (host_list hs) = if is_empty hs then err empty_hosts else ok (hs, true)

abbrev pub resolve_targets :
    List (Text × List Text) → Text → HostArg → Result CallFault (List Text × Bool)
resolve_targets registry tag host =
    if is_empty tag
    then direct_targets host
    else if is_given host
    then err both_targets
    else ok (resolve_group registry tag, true)

-- The commands, and whether the call has several. An argument that is not given is empty.
abbrev pub resolve_commands : List Text → Text → Result CallFault (List Text × Bool)
resolve_commands (c ∷ cs) command = ok (c ∷ cs, true)
resolve_commands [] (b ∷ command) = ok ((b ∷ command) ∷ [], false)
resolve_commands [] [] = err no_command

-- The arguments of the call that the model reads.
pub record ExecCall : Type 0 where
  pub host : HostArg
  pub group_tag : Text
  pub command : Text
  pub commands : List Text
  pub secrets : List Text
  pub mode : ExecMode
  pub serialize : Bool
  pub stop_on_error : Bool
  pub timeout : Option ℤ

-- What surrounds the call; what a run gives depends on the variables that it is given.
pub record Site : Type 0 where
  pub second : ℕ
  pub ceiling : Option ℤ
  pub lower : Text → Text
  pub policy : Policy
  pub verdict : Text → Option Text
  pub registry : List (Text × List Text)
  pub resolve : Text → Result Text (Option Text)
  pub passwords : Text → Option Text
  pub attempts : Dict Text Text → ℕ → ℕ → Attempt

abbrev pub wrap_run : Result ToolError ExecAnswer → Result CallFault ExecAnswer
wrap_run (ok a) = ok a
wrap_run (err e) = err (in_run e)

abbrev pub plan_of : ExecCall → Bool → Bool → Option (List Text) → Plan
plan_of call multi_host multi_cmd values = record {
  mode = call.mode;
  secret_values = values;
  multi_host = multi_host;
  multi_cmd = multi_cmd;
  serialize = call.serialize;
  stop_on_error = call.stop_on_error;
}

-- The secrets that the call names, and what follows with the variables and the values.
abbrev pub with_secrets :
    Site
    → List Text
    → (Dict Text Text → Option (List Text) → Result CallFault ExecAnswer)
    → Result CallFault ExecAnswer
with_secrets site [] next = next [] none
with_secrets site (name ∷ names) next = elim (resolve_secrets site.resolve (name ∷ names)) [
  | err e ↦ err (no_secret e)
  | ok (env, values) ↦ next env (some values)
]

-- From the gate on.
abbrev pub gated :
    Site
    → ExecCall
    → ℕ
    → List Text
    → Bool
    → List Text
    → Bool
    → Counters
    → Counters × Result CallFault ExecAnswer
gated site call now hosts multi_host cmds multi_cmd counters =
    let (counters', refusal) =
      gate_exec site.second site.lower site.policy site.verdict now hosts cmds counters in
    elim refusal [
      | some e ↦ (counters', err (blocked e))
      | none ↦ (
        counters',
        with_secrets site call.secrets (λ env values. wrap_run (
            run_all (plan_of call multi_host multi_cmd values) site.passwords (site.attempts env)
              cmds hosts)),
      )
    ]

-- From the targets on.
abbrev pub targeted :
    Site → ExecCall → ℕ → List Text → Bool → Counters → Counters × Result CallFault ExecAnswer
targeted site call now hosts multi_host counters =
    let names = map normalize_host_name hosts in
    if is_empty hosts
    then (counters, ok (nobody_tagged call.group_tag))
    else if any is_empty names
    then (counters, err empty_name)
    else elim (resolve_commands call.commands call.command) [
      | err e ↦ (counters, err e)
      | ok (cmds, multi_cmd) ↦ gated site call now names multi_host cmds multi_cmd counters
    ]

-- `remote_exec`
unfoldable pub remote_exec : Site → ExecCall → ℕ → Counters → Counters × Result CallFault ExecAnswer
remote_exec site call now counters =
    elim (enforce_timeout_cap (max_command_timeout site.second site.ceiling) call.timeout) [
      | err e ↦ (counters, err e)
      | ok _ ↦ elim (resolve_targets site.registry call.group_tag call.host) [
        | err e ↦ (counters, err e)
        | ok (hosts, multi_host) ↦ targeted site call now hosts multi_host counters
      ]
    ]
