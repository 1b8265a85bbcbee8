-- ===== src/Tests/PolicyRuns.antt =====
-- portal_mcp_server/security.py and portal_mcp_server/safety_net.py on a small policy.
use portal_mcp_server.Base.{
  ℕ, ◌≤◌, ◌≡◌, ◌⊎◌, ◌↔◌, refl, Text, codes, true, false, List, [], ◌∷◌, Option, none, some, arith,
  text_eq, strip,
}
use portal_mcp_server.Policy.{Policy, check_rate_limit, enforce}
use portal_mcp_server.Policy.Glob.{fnmatch, pieces, glob}
use portal_mcp_server.Policy.Window.{admitted, count_calls, check_rate_limit-bounds}
use portal_mcp_server.Policy.Verdict.{Permitted, enforce-Permitted}
use portal_mcp_server.SafetyNet.{Checker, Answer, ended, check, judge, Yaml}
use portal_mcp_server.SafetyNet.Gate.{Blank, Allowed, check-Allowed}

abbrev policy : Policy
policy = record {
  host_allowlist = codes "web[0-9]" ∷ [];
  command_blocklist = codes "rm *" ∷ [];
  command_allowlist = [];
  per_second = 1;
}

abbrev lower : Text → Text
lower s = s

-- A set of digits, and a star.
matched : fnmatch (codes "web1") (codes "web[0-9]") ≡ true
unfolding fnmatch pieces glob
matched = refl

not_matched : fnmatch (codes "webx") (codes "web[!a-z]") ≡ false
unfolding fnmatch pieces glob
not_matched = refl

starred : fnmatch (codes "rm -rf /") (codes "rm *") ≡ true
unfolding fnmatch pieces glob
starred = refl

abbrev calls : List (Text × ℕ)
calls = (codes "web1", 0) ∷ (codes "web1", 5) ∷ (codes "web2", 6) ∷ (codes "web1", 12) ∷ []

check_rate_limit-bounds_example : count_calls 10 (codes "web1") 9 (admitted 10 policy [] calls) ≤ 1
check_rate_limit-bounds_example =
    check_rate_limit-bounds 10 policy (codes "web1") calls
      (omega arith, (omega arith, (omega arith, (omega arith, tt)))) 9

enforce-Permitted_example :
    let run = enforce 10 lower policy (codes "web1") (codes "rm -rf /") none true 3 [] in
    let limited = check_rate_limit 10 policy (codes "web1") 3 [] in
    ((run.1 ≡ none)
      ↔ (Permitted lower policy (codes "web1") (codes "rm -rf /") none × (limited.1 ≡ none)))
    × ((Permitted lower policy (codes "web1") (codes "rm -rf /") none × (run.0 ≡ limited.0))
        ⊎ ((¬ Permitted lower policy (codes "web1") (codes "rm -rf /") none) × (run.0 ≡ [])))
enforce-Permitted_example =
    enforce-Permitted lower policy 10 (codes "web1") (codes "rm -rf /") none 3 []

abbrev checker : Checker
checker = record { enabled = true; command = codes "cc" ∷ []; fail_closed = true }

abbrev says_allowed : Answer
says_allowed = record { result = some (codes "allowed"); reason = none }

abbrev loads : Text → Option Answer
loads out = some says_allowed

check-Allowed_example : Blank (codes "ls") ⊎ Allowed loads (ended (codes "{}") [])
unfolding check judge text_eq strip
check-Allowed_example =
    check-Allowed loads checker (codes "ls") (ended (codes "{}") []) refl refl refl

abbrev configured : Option (Option Yaml × Option Yaml × Option Yaml)
configured = some (some (Yaml.flag true), none, some (Yaml.flag false))
