-- ===== src/Tests/ExecRuns.antt =====
-- portal_mcp_server/cli.py's remote_exec and local_exec on two hosts and a secret.
use portal_mcp_server.Base.{
  ℕ, zero, suc, ℤ, pos, ◌≡◌, ◌⊎◌, inl, inr, refl, Text, codes, true, false, [], ◌∷◌, ◌++◌, Option,
  none, some, arith, ◌==◌, any, text_eq, text_has_eq, strip, lstrip, Result, ok, WhenOk,
  if◌then◌else◌, nat_beq,
}
use portal_mcp_server.Base.Dicts.{lookup, insert}
use portal_mcp_server.Policy.{Policy, Refusal, check_rate_limit, check_host, check_command}
use portal_mcp_server.Secrets.{env_var_name, redact, replace_from}
use portal_mcp_server.Secrets.Stdin.{
  read_all, sudo_stdin_secret_values, OneLine, read_all-sudo_stdin_secret_values,
}
use portal_mcp_server.Exec.{
  plain, Plan, Attempt, gave, ExecResult, ran, HostResult, single, several, of_host, stopped_host,
  ExecAnswer, list_of, nobody_tagged, run_one, run_commands, run_host, run_serial, run_all,
}
use portal_mcp_server.Exec.Call.{
  Site, ExecCall, host_list, gate_exec, commit_rates, resolve_from, remote_exec,
}
use portal_mcp_server.Exec.Gate.{AllAllowed, gate_exec_lem}
use portal_mcp_server.Exec.Hidden.{AnswerMasked}
use portal_mcp_server.Exec.Asked.{Asked, remote_exec-Asked}
use portal_mcp_server.Exec.Whole.{remote_exec-AnswerMasked}
use portal_mcp_server.Exec.Rollout.{AnswerFor, run_all-AnswerFor}
use portal_mcp_server.Exec.Halt.{Failed, run_serial_stops}
use portal_mcp_server.Exec.Local.{LocalSite, LocalAnswer, finished}

abbrev open_policy : Policy
open_policy = record {
  host_allowlist = [];
  command_blocklist = [];
  command_allowlist = [];
  per_second = 1;
}

abbrev same_case : Text → Text
same_case s = s

abbrev token : Text → Result Text (Option Text)
token name = ok (some (codes "ab"))

-- The first host prints the secret and fails.
abbrev prints : ℕ → ℕ → Attempt
prints zero j = gave (some (some (pos 1))) (codes "xab") (codes "ab")
prints (suc i) j = gave (some (some (pos 0))) (codes "b") []

abbrev site : Site
site = record {
  second = 10;
  ceiling = none;
  lower = same_case;
  policy = open_policy;
  verdict = λ c. none;
  registry = [];
  resolve = token;
  passwords = λ h. none;
  attempts = λ env. prints;
}

abbrev call : ExecCall
call = record {
  host = host_list (codes "p" ∷ codes "q" ∷ []);
  group_tag = [];
  command = codes "id";
  commands = [];
  secrets = codes "tok" ∷ [];
  mode = plain;
  serialize = true;
  stop_on_error = true;
  timeout = some (pos 50);
}

abbrev masked : ExecResult
masked = record {
  host = codes "p";
  command = codes "id";
  exit_code = some (some (pos 1));
  stdout = codes "x***";
  stderr = codes "***";
  high_risk = true;
}

abbrev answer : ExecAnswer
answer = list_of (of_host (single masked) ∷ stopped_host (codes "p") ∷ [])

answered : (remote_exec site call 3 []).1 ≡ ok answer
unfolding remote_exec gate_exec commit_rates check_rate_limit check_host check_command resolve_from
    env_var_name run_all run_serial run_host run_one redact replace_from strip lstrip lookup insert
    text_eq
answered = refl

remote_exec-Asked_example : (answer ≡ nobody_tagged []) ⊎ Asked site call 3 [] answer
remote_exec-Asked_example = remote_exec-Asked site call 3 [] answer answered

named : any (λ n. n == codes "tok") call.secrets ≡ true
unfolding text_eq
named = refl

remote_exec-AnswerMasked_example : AnswerMasked site.passwords (codes "ab") answer
remote_exec-AnswerMasked_example =
    remote_exec-AnswerMasked site call 3 [] b'a' (b'b' ∷ []) (refl, (refl, tt)) (codes "tok") named
      refl answer answered

gate_exec_lem_example :
    (AllAllowed 10 same_case open_policy (λ c. none) 3 (codes "p" ∷ []) (codes "id" ∷ [])
      × (gate_exec 10 same_case open_policy (λ c. none) 3 (codes "p" ∷ []) (codes "id" ∷ []) []
          ≡ commit_rates 10 open_policy 3 (codes "p" ∷ []) []))
    ⊎ ((¬ AllAllowed 10 same_case open_policy (λ c. none) 3 (codes "p" ∷ []) (codes "id" ∷ []))
        × ((e : Refusal) × (gate_exec 10 same_case open_policy
                (λ c. none)
                3
                (codes "p" ∷ [])
                (codes "id" ∷ [])
                []
              ≡ ([], some e))))
gate_exec_lem_example =
    gate_exec_lem 10 same_case open_policy (λ c. none) 3 (codes "p" ∷ []) (codes "id" ∷ []) []

abbrev plan : Plan
plan = record {
  mode = plain;
  secret_values = none;
  multi_host = true;
  multi_cmd = true;
  serialize = true;
  stop_on_error = true;
}

run_all-AnswerFor_example :
    WhenOk (AnswerFor plan (codes "p") (codes "q" ∷ []) (codes "id") (codes "ls" ∷ [])) (
      run_all plan site.passwords prints
        (codes "id" ∷ codes "ls" ∷ [])
        (codes "p" ∷ codes "q" ∷ []))
run_all-AnswerFor_example =
    run_all-AnswerFor plan site.passwords prints (codes "id") (codes "ls" ∷ []) (codes "p")
      (codes "q" ∷ [])

-- The second host fails.
abbrev fails_next : ℕ → ℕ → Attempt
fails_next zero j = gave (some (some (pos 0))) [] []
fails_next (suc i) j = gave (some none) [] []

abbrev bare : Text → Option (Option ℤ) → ExecResult
bare h code = record {
  host = h;
  command = codes "id";
  exit_code = code;
  stdout = [];
  stderr = [];
  high_risk = false;
}

abbrev batch_of : Text → Option (Option ℤ) → HostResult
batch_of h code = several h (ran (bare h code) ∷ [])

first_ran :
    run_host plan site.passwords fails_next 0 (codes "id" ∷ []) (codes "p")
    ≡ ok (batch_of (codes "p") (some (some (pos 0))))
unfolding run_host run_commands run_one
first_ran = refl

second_ran :
    run_host plan site.passwords fails_next 1 (codes "id" ∷ []) (codes "q")
    ≡ ok (batch_of (codes "q") (some none))
unfolding run_host run_commands run_one
second_ran = refl

first_fine : ¬ Failed (batch_of (codes "p") (some (some (pos 0))))
first_fine (inl (code, (e, other))) = other cc
first_fine (inr more) = absurd more

run_serial_stops_example :
    run_serial plan site.passwords fails_next 0
      (codes "id" ∷ [])
      (codes "p" ∷ codes "q" ∷ codes "r" ∷ [])
    ≡ ok (
        of_host (batch_of (codes "p") (some (some (pos 0))))
        ∷ of_host (batch_of (codes "q") (some none))
        ∷ stopped_host (codes "q")
        ∷ [])
run_serial_stops_example =
    run_serial_stops plan site.passwords fails_next (codes "id" ∷ []) (codes "p" ∷ [])
      (batch_of (codes "p") (some (some (pos 0))) ∷ []) (codes "q") (codes "r" ∷ [])
      (batch_of (codes "q") (some none)) refl (first_ran, (first_fine, tt)) second_ran
      (inl (none, (refl, λ same. cc)))

abbrev local_site : LocalSite
local_site = record {
  allow_local_exec = codes "yes";
  second = 10;
  ceiling = none;
  lower = same_case;
  policy = open_policy;
  verdict = λ c. none;
  resolve = token;
  password = none;
  encode = same_case;
  run = λ command env. finished (codes "xab\n") [] (pos 0);
  run_sudo = λ line input. finished [] [] (pos 0);
}

abbrev local_answer : LocalAnswer
local_answer = record { output = codes "x***"; exit_code = pos 0; high_risk = true }

-- An encoding of line ends by spaces, for values without spaces.
abbrev spaced : Text → Text
spaced [] = []
spaced (c ∷ s) = (if nat_beq c b'\n' then b' ' else c) ∷ spaced s

abbrev unspaced : Text → Text
unspaced [] = []
unspaced (c ∷ s) = (if nat_beq c b' ' then b'\n' else c) ∷ unspaced s

spaced-OneLine : (v : Text) → OneLine (spaced v)
spaced-OneLine [] = tt
spaced-OneLine (c ∷ s) = (ground arith, spaced-OneLine s)

read_all-sudo_stdin_secret_values_example :
    read_all unspaced
      (codes "A" ∷ codes "B" ∷ [])
      (sudo_stdin_secret_values spaced (codes "x\ny" ∷ codes "z\n" ∷ []) ++ codes "rest")
    ≡ ((codes "A", codes "x\ny") ∷ (codes "B", codes "z") ∷ [], codes "rest")
read_all-sudo_stdin_secret_values_example =
    read_all-sudo_stdin_secret_values spaced unspaced spaced-OneLine
      ((codes "A", codes "x\ny") ∷ (codes "B", codes "z\n") ∷ []) (codes "rest") (refl, (refl, tt))
