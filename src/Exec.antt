-- ===== src/Exec.antt =====
-- The runs of `remote_exec` of portal_mcp_server/cli.py: `run_one`, `run_host` and `run_all`. What a run
-- gives is an argument, by the places of its host and its command in the lists.
pub mod Call
pub mod Local
pub mod LocalGate
pub mod Gate
pub mod Inject
pub mod Hidden
pub mod Halt
pub mod Whole
pub mod Asked
pub mod Rollout
use portal_mcp_server.Base.{
  ℕ, ◌+◌, ℤ, pos, negsuc, Text, text_eq, text_has_eq, ◌==◌, codes, Bool, true, false, not, ◌&&◌,
  ◌||◌, Option, none, some, List, [], ◌∷◌, ◌++◌, map, any, is_empty, keep_if, suc, zero, Result, ok,
  err, ltb, leb, if◌then◌else◌,
}
use portal_mcp_server.Secrets.{redact}

-- The result of one command on one host. `exit_code` is `none` where there is no such key, and
-- `some none` where the code is not known.
pub record ExecResult : Type 0 where
  pub host : Text
  pub command : Text
  pub exit_code : Option (Option ℤ)
  pub stdout : Text
  pub stderr : Text
  pub high_risk : Bool

-- What a run on a host gives: a result, or an exception.
pub data Attempt : Type 0 where
  gave : Option (Option ℤ) → Text → Text → Attempt
  raised : Text → Attempt

-- How the command is run.
pub data ExecMode : Type 0 where
  plain with_sudo : ExecMode

-- The arguments of the call that the runs depend on; `values` are those of the secrets, if there are
-- any.
pub record Plan : Type 0 where
  pub mode : ExecMode
  pub secret_values : Option (List Text)
  pub multi_host : Bool
  pub multi_cmd : Bool
  pub serialize : Bool
  pub stop_on_error : Bool

-- Why the runs fail.
pub data ToolError : Type 0 where
  no_sudo_password : Text → ToolError
  run_failed : Text → ToolError

-- `secrets_store.redact`, if there are values.
abbrev pub hide : Option (List Text) → Text → Text
hide none s = s
hide (some values) s = redact s values

-- An element of `results`.
pub data Item : Type 0 where
  ran : ExecResult → Item
  stopped_at : Text → Item

-- `r.get("exit_code", 0) not in (0, None)`
abbrev pub stops_commands : ExecResult → Bool
stops_commands r = elim r.exit_code [
  | none ↦ false
  | some code ↦ elim code [ none ↦ false | some c ↦ elim c [ pos n ↦ ltb 0 n | negsuc n ↦ true ] ]
]

-- What `run_host` returns.
pub data HostResult : Type 0 where
  single : ExecResult → HostResult
  several : Text → List Item → HostResult

-- `_failed`
abbrev pub is_failed : ExecResult → Bool
is_failed r = elim r.exit_code [
  | none ↦ false
  | some code ↦ elim code [ none ↦ true | some c ↦ elim c [ pos n ↦ ltb 0 n | negsuc n ↦ true ] ]
]

abbrev pub item_failed : Item → Bool
item_failed (ran r) = is_failed r
item_failed (stopped_at cmd) = false

-- `_result_failed`
abbrev pub result_failed : HostResult → Bool
result_failed (single r) = is_failed r
result_failed (several h items) = any item_failed items

-- An element of the list for several hosts.
pub data Line : Type 0 where
  of_host : HostResult → Line
  failed_host : Text → ToolError → Line
  stopped_host : Text → Line

-- What the call returns: one result, or a list.
pub data ExecAnswer : Type 0 where
  one_result : HostResult → ExecAnswer
  list_of : List Line → ExecAnswer
  nobody_tagged : Text → ExecAnswer

-- The result for what a run gives.
abbrev pub result_of :
    Option (List Text) → Bool → Text → Text → Attempt → Result ToolError ExecResult
result_of values risk h cmd (raised e) = err (run_failed e)
result_of values risk h cmd (gave code out errors) = ok (record {
  host = h;
  command = cmd;
  exit_code = code;
  stdout = hide values out;
  stderr = hide values errors;
  high_risk = risk;
})

-- The result where there is no password for one of several hosts.
abbrev pub no_password : Bool → Text → Text → Result ToolError ExecResult
no_password multi_host h cmd =
    if multi_host
    then ok (record {
      host = h;
      command = cmd;
      exit_code = some (some (negsuc 0));
      stdout = [];
      stderr = codes "no sudo password for " ++ h;
      high_risk = false;
    })
    else err (no_sudo_password h)

-- `results.append(r)`, before what follows.
abbrev pub push_item : ExecResult → Result ToolError (List Item) → Result ToolError (List Item)
push_item r (ok items) = ok (ran r ∷ items)
push_item r (err e) = err e

-- `out.append(r)`, before what follows.
abbrev pub push_line : Line → Result ToolError (List Line) → Result ToolError (List Line)
push_line l (ok ls) = ok (l ∷ ls)
push_line l (err e) = err e

module _ (plan : Plan) (passwords : Text → Option Text) (attempts : ℕ → ℕ → Attempt) where
  -- `run_one`, for the host and the command at these places.
  unfoldable pub run_one : ℕ → ℕ → Text → Text → Result ToolError ExecResult
  run_one i j h cmd = elim plan.mode [
    | with_sudo ↦ elim (passwords h) [
      | none ↦ no_password plan.multi_host h cmd
      | some password ↦ result_of plan.secret_values true h cmd (attempts i j)
    ]
    | plain ↦
        result_of plan.secret_values (elim plan.secret_values [ none ↦ false | some values ↦ true ])
          h cmd (attempts i j)
  ]

  -- The loop of `run_host` over the commands from a place on.
  unfoldable pub run_commands : ℕ → ℕ → Text → List Text → Result ToolError (List Item)
  run_commands i j h [] = ok []
  run_commands i j h (cmd ∷ cmds) =
      let rest = run_commands i (suc j) h cmds in
      elim (run_one i j h cmd) [
        | err e ↦ err e
        | ok r ↦
            if plan.stop_on_error && stops_commands r
            then ok (ran r ∷ stopped_at cmd ∷ [])
            else push_item r rest
      ]

  -- `run_host`; a list of commands that is no batch has one.
  unfoldable pub run_host : ℕ → List Text → Text → Result ToolError HostResult
  run_host i [] h = ok (several h [])
  run_host i (cmd ∷ cmds) h =
      if plan.multi_cmd
      then elim (run_commands i 0 h (cmd ∷ cmds)) [
        | ok items ↦ ok (several h items)
        | err e ↦ err e
      ]
      else elim (run_one i 0 h cmd) [ ok r ↦ ok (single r) | err e ↦ err e ]

  -- The serialized loop of `run_all` over the hosts from a place on.
  unfoldable pub run_serial : ℕ → List Text → List Text → Result ToolError (List Line)
  run_serial i cmds [] = ok []
  run_serial i cmds (h ∷ hs) =
      let rest = run_serial (suc i) cmds hs in
      elim (run_host i cmds h) [
        | err e ↦ err e
        | ok r ↦
            if plan.stop_on_error && result_failed r
            then ok (of_host r ∷ stopped_host h ∷ [])
            else push_line (of_host r) rest
      ]

  -- The parallel runs: `asyncio.gather(..., return_exceptions=True)`.
  unfoldable pub run_parallel : ℕ → List Text → List Text → List Line
  run_parallel i cmds [] = []
  run_parallel i cmds (h ∷ hs) =
      let rest = run_parallel (suc i) cmds hs in
      elim (run_host i cmds h) [ ok r ↦ of_host r ∷ rest | err e ↦ failed_host h e ∷ rest ]

  -- `run_all`; a call for one host has one.
  unfoldable pub run_all : List Text → List Text → Result ToolError ExecAnswer
  run_all cmds [] = ok (list_of [])
  run_all cmds (h ∷ hs) =
      if not plan.multi_host
      then elim (run_host 0 cmds h) [ ok r ↦ ok (one_result r) | err e ↦ err e ]
      else if plan.serialize
      then elim (run_serial 0 cmds (h ∷ hs)) [ ok ls ↦ ok (list_of ls) | err e ↦ err e ]
      else ok (list_of (run_parallel 0 cmds (h ∷ hs)))
