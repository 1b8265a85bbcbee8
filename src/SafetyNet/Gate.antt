-- ===== src/SafetyNet/Gate.antt =====
-- What the gate of portal_mcp_server/safety_net.py lets through.
use portal_mcp_server.Base.{
  ◌≡◌, ◌≢◌, refl, ap, ◌∙◌, ◌||◌, Option-cases, Bool-cases, ◌⊎◌, inl, inr, ◌↔◌, Text, codes,
  text_eq_iff, text_eq, true, false, Option, none, some, List, [], ◌∷◌, is_empty, strip, arith,
  if◌then◌else◌,
}
use portal_mcp_server.SafetyNet.{
  Checker, Cause, Run, missing, refused, overdue, ended, Answer, unavailable_as, judge, check, Yaml,
  command_from, from_config, truthy,
}

abbrev pub Blank : Text → Type 0
Blank command = (command ≡ []) ⊎ (strip command ≡ [])

is_empty-nil : {A : Type 0} (s : List A) → (is_empty s ≡ true) ↔ (s ≡ [])
is_empty-nil [] = ground arith
is_empty-nil (c ∷ cs) = ground arith

-- The checker has run, and its answer is that the command is allowed.
abbrev pub Allowed : (Text → Option Answer) → Run → Type 0
Allowed loads run =
    (out : Text) × (err : Text) × (a : Answer) × (run ≡ ended out err)
    × (loads (strip out) ≡ some a)
    × (a.result ≡ some (codes "allowed"))

judge-Allowed :
    (c : Checker) (a : Answer)
    → c.fail_closed ≡ true
    → judge c a ≡ none
    → a.result ≡ some (codes "allowed")
unfolding judge unavailable_as
judge-Allowed c a closed h = elim (Option-cases a.result) [
  | inl e ↦ cc (rw (judge, e, closed) at h)
  | inr (r, e) ↦ elim (Bool-cases (text_eq r (codes "allowed"))) [
    | inl says ↦ e ∙ ap some ((text_eq_iff r (codes "allowed")).0 says)
    | inr not_ ↦ elim (Bool-cases (text_eq r (codes "blocked"))) [
      | inl b ↦ cc (rw (judge, e, not_, b) at h)
      | inr b ↦ cc (rw (judge, e, not_, b, closed) at h)
    ]
  ]
]

command_from_some : (v : Yaml) → command_from v ≢ []
unfolding command_from
command_from_some Yaml.null h = cc
command_from_some (Yaml.flag b) h = cc
command_from_some (Yaml.number b) h = cc
command_from_some (Yaml.text []) h = cc
command_from_some (Yaml.text (c ∷ cs)) h = cc
command_from_some (Yaml.texts []) h = cc
command_from_some (Yaml.texts (t ∷ ts)) h = cc
command_from_some (Yaml.other b) h = cc

module _ (loads : Text → Option Answer) (c : Checker) (command : Text) where
  -- With the process at its end, the gate passes what was judged to be allowed.
  ended-Allowed :
      (out err : Text)
      → c.fail_closed ≡ true
      → (if is_empty (strip out)
          then unavailable_as c (Cause.no_output (strip err))
          else elim (loads (strip out)) [
            | none ↦ unavailable_as c Cause.not_json
            | some a ↦ judge c a
          ])
        ≡ none
      → Allowed loads (ended out err)
  unfolding unavailable_as
  ended-Allowed out err closed h = elim (Bool-cases (is_empty (strip out))) [
    | inl e ↦ cc (rw (e, closed) at h)
    | inr e ↦ elim (Option-cases (loads (strip out))) [
      | inl l ↦ cc (rw (e, l, closed) at h)
      | inr (a, l) ↦ (out, err, a, refl, l, judge-Allowed c a closed (rw (e, l) at h))
    ]
  ]

  -- An enabled checker that fails closed lets a command that is not blank through only if it has run
  -- and answered that the command is allowed.
  pub check-Allowed :
      (run : Run)
      → c.enabled ≡ true
      → c.fail_closed ≡ true
      → check loads c command run ≡ none
      → Blank command ⊎ Allowed loads run
  unfolding check unavailable_as
  check-Allowed run on closed h = elim (Bool-cases (is_empty command || is_empty (strip command))) [
    | inl e ↦ inl (ground (arith, is_empty-nil command, is_empty-nil (strip command), e))
    | inr e ↦ inr (finish run (rw (check, on, e) at h))
  ]
    where
      finish :
          (r : Run)
          → elim r [
            | missing ↦ unavailable_as c Cause.not_found
            | refused ↦ unavailable_as c Cause.not_launched
            | overdue ↦ unavailable_as c Cause.timed_out
            | ended out err ↦
                if is_empty (strip out)
                then unavailable_as c (Cause.no_output (strip err))
                else elim (loads (strip out)) [
                  | none ↦ unavailable_as c Cause.not_json
                  | some a ↦ judge c a
                ]
          ]
            ≡ none
          → Allowed loads r
      finish missing k = cc (rw closed at k)
      finish refused k = cc (rw closed at k)
      finish overdue k = cc (rw closed at k)
      finish (ended out err) k = ended-Allowed out err closed k

-- Whatever the configuration says, there is a command to run.
pub from_config_command :
    (cfg : Option (Option Yaml × Option Yaml × Option Yaml)) → (from_config cfg).command ≢ []
unfolding from_config
from_config_command none h = cc
from_config_command (some (e, k, f)) h = command_from_some _ h

-- A configured gate is open on failures only if the configuration has a `fail_closed` that is false.
pub from_config_open :
    (cfg : Option (Option Yaml × Option Yaml × Option Yaml))
    → (from_config cfg).fail_closed ≡ false
    → (e : Option Yaml) × (k : Option Yaml) × (v : Yaml) × (cfg ≡ some (e, k, some v))
      × (truthy v ≡ false)
unfolding from_config
from_config_open none h = cc
from_config_open (some (e, k, none)) h = cc
from_config_open (some (e, k, some v)) h = (e, k, v, refl, h)
