-- ===== src/SafetyNet.antt =====
-- The gate of portal_mcp_server/safety_net.py. The checker's process is not part of the program: what
-- becomes of it is an argument. `loads` is `json.loads` and the look-up of `result` and `reason`.
pub mod Gate
use portal_mcp_server.Base.{
  ℕ, Text, codes, text_has_eq, ◌==◌, Bool, true, false, not, ◌||◌, Option, none, some, List, [],
  ◌∷◌, ◌++◌, is_empty, strip, all, if◌then◌else◌,
}

-- `SafetyNetChecker`, the fields that the gate tests.
pub record Checker : Type 0 where
  pub enabled : Bool
  pub command : List Text
  pub fail_closed : Bool

-- Why there is no verdict.
pub data Cause : Type 0 where
  not_found not_launched timed_out : Cause
  no_output : Text → Cause
  not_json : Cause
  unrecognized : Option Text → Cause

pub data Block : Type 0 where
  unavailable : Cause → Block
  blocked : Text → Block

-- How the process ends: with its decoded output, or before that.
pub data Run : Type 0 where
  missing refused overdue : Run
  ended : Text → Text → Run

-- `result` and `reason` of the checker's answer, where these are texts; a reason that is empty or no
-- text is `none`.
pub record Answer : Type 0 where
  pub result : Option Text
  pub reason : Option Text

-- `_unavailable`
unfoldable pub unavailable_as : Checker → Cause → Option Block
unavailable_as c cause = if c.fail_closed then some (unavailable cause) else none

abbrev default_reason : Text
default_reason = codes "command blocked by Safety Net"

-- The verdict of an answer.
unfoldable pub judge : Checker → Answer → Option Block
judge c a = elim a.result [
  | none ↦ unavailable_as c (unrecognized none)
  | some result ↦
      if result == codes "allowed"
      then none
      else if result == codes "blocked"
      then some (blocked (elim a.reason [ none ↦ default_reason | some reason ↦ reason ]))
      else unavailable_as c (unrecognized (some result))
]

-- `check`
unfoldable pub check : (Text → Option Answer) → Checker → Text → Run → Option Block
check loads c command run =
    if not c.enabled
    then none
    else if is_empty command || is_empty (strip command)
    then none
    else elim run [
      | missing ↦ unavailable_as c not_found
      | refused ↦ unavailable_as c not_launched
      | overdue ↦ unavailable_as c timed_out
      | ended out err ↦
          if is_empty (strip out)
          then unavailable_as c (no_output (strip err))
          else elim (loads (strip out)) [ none ↦ unavailable_as c not_json | some a ↦ judge c a ]
    ]

-- The values of a YAML document that `from_config` tells apart.
pub data Yaml : Type 0 where
  null : Yaml
  flag : Bool → Yaml
  number : Bool → Yaml
  text : Text → Yaml
  texts : List Text → Yaml
  other : Bool → Yaml

-- `bool(v)`; numbers and other values say it themselves.
abbrev pub truthy : Yaml → Bool
truthy null = false
truthy (flag b) = b
truthy (number b) = b
truthy (text s) = not (is_empty s)
truthy (texts ts) = not (is_empty ts)
truthy (other b) = b

abbrev pub default_command : List Text
default_command = codes "npx" ∷ codes "-y" ∷ codes "cc-safety-net@latest" ∷ []

-- What `command` comes to in `from_config`; a missing key is `null`.
unfoldable pub command_from : Yaml → List Text
command_from (text s) = if is_empty s then default_command else s ∷ []
command_from (texts ts) = if is_empty ts then default_command else ts
command_from v = default_command

-- `cfg.get(key, default)`, as a Boolean.
abbrev pub flag_from : Option Yaml → Bool → Bool
flag_from none default = default
flag_from (some v) default = truthy v

-- `from_config`: no mapping, or an empty one, is `none`.
unfoldable pub from_config : Option (Option Yaml × Option Yaml × Option Yaml) → Checker
from_config none = record { enabled = false; command = default_command; fail_closed = true }
from_config (some (enabled, command, fail_closed)) = record {
  enabled = flag_from enabled false;
  command = command_from (elim command [ none ↦ null | some v ↦ v ]);
  fail_closed = flag_from fail_closed true;
}
