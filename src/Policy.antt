-- ===== src/Policy.antt =====
-- portal_mcp_server/security.py: which hosts and commands are allowed, and how often. The table of
-- `str.lower` is a parameter, and so is what the command checker of
-- portal_mcp_server/safety_net.py answers.
pub mod Glob
pub mod Window
pub mod Verdict
use portal_mcp_server.Base.{
  ℕ, ◌+◌, Text, Bool, true, false, not, ◌&&◌, Option, none, some, List, [], ◌∷◌, ◌++◌, length, any,
  is_empty, keep_if, strip, leb, ltb, text_has_eq, if◌then◌else◌,
}
use portal_mcp_server.Base.Dicts.{Dict, lookup, insert}
use portal_mcp_server.Policy.Glob.{fnmatch}

-- `SecurityPolicy`. `per_second` is `rate_limit_rps` rounded up, which a count reaches just when it
-- reaches the rate.
pub record Policy : Type 0 where
  pub host_allowlist : List Text
  pub command_blocklist : List Text
  pub command_allowlist : List Text
  pub per_second : ℕ

-- The reasons for a refusal.
pub data Refusal : Type 0 where
  host_not_allowed : Text → Refusal
  command_blocked : Text → Refusal
  safety_net : Text → Refusal
  command_not_allowed : Refusal
  rate_exceeded : Text → Refusal

abbrev pub Counters : Type 0
Counters = Dict Text (List ℕ)

-- `check_host`
unfoldable pub check_host : Policy → Text → Option Refusal
check_host p host =
    let name = strip host in
    if is_empty p.host_allowlist
    then none
    else if any (fnmatch name) p.host_allowlist
    then none
    else some (host_not_allowed name)

-- The first pattern of a list that a text matches.
abbrev pub first_match : (Text → Text) → Text → List Text → Option Text
first_match lower s [] = none
first_match lower s (pattern ∷ ps) =
    if fnmatch s (lower pattern) then some pattern else first_match lower s ps

-- `check_command`; `verdict` is what `safety_net.check(command)` returns.
unfoldable pub check_command : (Text → Text) → Policy → Text → Option Text → Option Refusal
check_command lower p command verdict =
    let cmd_lower = strip (lower command) in
    elim (first_match lower cmd_lower p.command_blocklist) [
      | some pattern ↦ some (command_blocked pattern)
      | none ↦ elim verdict [
        | some reason ↦ some (safety_net reason)
        | none ↦
            if is_empty p.command_allowlist
            then none
            else if any (λ pattern. fnmatch cmd_lower (lower pattern)) p.command_allowlist
            then none
            else some command_not_allowed
      ]
    ]

-- The calls of a host; `defaultdict(list)`.
abbrev pub calls_of : Text → Counters → List ℕ
calls_of host counters = elim (lookup host counters) [ none ↦ [] | some calls ↦ calls ]

-- The calls within the last second, of which `second` says how long it is.
abbrev pub recent : ℕ → ℕ → List ℕ → List ℕ
recent second now calls = keep_if (λ t. ltb now (t + second)) calls

-- `check_rate_limit`
unfoldable pub check_rate_limit : ℕ → Policy → Text → ℕ → Counters → Counters × Option Refusal
check_rate_limit second p host now counters =
    let calls = recent second now (calls_of host counters) in
    if leb p.per_second (length calls)
    then (insert host calls counters, some (rate_exceeded host))
    else (insert host (calls ++ now ∷ []) counters, none)

-- `enforce`
unfoldable pub enforce :
    ℕ
    → (Text → Text)
    → Policy
    → Text
    → Text
    → Option Text
    → Bool
    → ℕ
    → Counters
    → Counters × Option Refusal
enforce second lower p host command verdict commit now counters = elim (check_host p host) [
  | some err ↦ (counters, some err)
  | none ↦ elim (if is_empty command then none else check_command lower p command verdict) [
    | some err ↦ (counters, some err)
    | none ↦ if commit then check_rate_limit second p host now counters else (counters, none)
  ]
]
