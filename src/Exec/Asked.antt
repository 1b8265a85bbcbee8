-- ===== src/Exec/Asked.antt =====
-- What a call of `remote_exec` of portal_mcp_server/cli.py that gives an answer was asked for and was
-- allowed.
use portal_mcp_server.Base.{
  ℕ, ◌<◌, ◌≡◌, refl, ap, sym, subst, ◌∙◌, ◌⊎◌, inl, inr, Text, text_eq, text_has_eq, ◌==◌, Bool,
  true, false, ◌&&◌, Option, none, some, List, [], ◌∷◌, ◌++◌, map, any, is_empty, length, leb,
  arith, if◌then◌else◌, Result, ok, err, Bool-cases,
}
use portal_mcp_server.Base.Dicts.{insert}
use portal_mcp_server.Policy.{Policy, Refusal, Counters, check_rate_limit, calls_of, recent}
use portal_mcp_server.Safety.{normalize_host_name}
use portal_mcp_server.Exec.{ExecAnswer, nobody_tagged}
use portal_mcp_server.Exec.Call.{
  CallFault, Site, ExecCall, HostArg, no_host, one_host, host_list, is_given, commit_rates,
  resolve_group, direct_targets, resolve_targets, resolve_commands, remote_exec,
}
use portal_mcp_server.Exec.Gate.{AllAllowed}
use portal_mcp_server.Exec.Whole.{runs, remote_exec-Ran}

-- At each host's turn fewer calls than the limit are in the window; the turns before it count.
abbrev pub RoomFor : ℕ → Policy → ℕ → Counters → List Text → Type 0
RoomFor second p now counters [] = Unit
RoomFor second p now counters (h ∷ hs) =
    (length (recent second now (calls_of h counters)) < p.per_second)
    × RoomFor second p now (insert h (recent second now (calls_of h counters) ++ now ∷ []) counters)
        hs

check_rate_limit-cases :
    (second : ℕ) (p : Policy) (host : Text) (now : ℕ) (counters : Counters)
    → ((length (recent second now (calls_of host counters)) < p.per_second)
        × (check_rate_limit second p host now counters ≡ (
          insert host (recent second now (calls_of host counters) ++ now ∷ []) counters,
          none,
        )))
      ⊎ ((e : Refusal) × ((check_rate_limit second p host now counters).1 ≡ some e))
unfolding check_rate_limit
check_rate_limit-cases second p host now counters =
    elim (Bool-cases (leb p.per_second (length (recent second now (calls_of host counters))))) [
      | inl full ↦ inr (Refusal.rate_exceeded host, rw (check_rate_limit, full) refl)
      | inr free ↦ inl (ground (arith, free), rw (check_rate_limit, free) refl)
    ]

commit_rates-RoomFor :
    (second : ℕ) (p : Policy) (now : ℕ) (hosts : List Text) (counters : Counters)
    → (commit_rates second p now hosts counters).1 ≡ none
    → RoomFor second p now counters hosts
unfolding commit_rates
commit_rates-RoomFor second p now [] counters h = tt
commit_rates-RoomFor second p now (host ∷ hosts) counters h =
    elim (check_rate_limit-cases second p host now counters) [
      | inr (e, full) ↦ cc (rw (commit_rates, full) at h)
      | inl (free, taken) ↦ (
        free,
        commit_rates-RoomFor second p now hosts
            (insert host (recent second now (calls_of host counters) ++ now ∷ []) counters)
            (subst (λ pair. (after pair).1 ≡ none) taken h),
      )
    ]
  where
    after : Counters × Option Refusal → Counters × Option Refusal
    after (c, e) = elim e [
      | some refusal ↦ (c, some refusal)
      | none ↦ commit_rates second p now hosts c
    ]

-- The registry has the host with the tag.
abbrev pub is_tagged : List (Text × List Text) → Text → Text → Bool
is_tagged registry tag n = any (λ (h, tags). text_eq h n && any (λ t. t == tag) tags) registry

resolve_group-is_tagged :
    (registry : List (Text × List Text)) (tag n : Text)
    → any (λ h. h == n) (resolve_group registry tag) ≡ is_tagged registry tag n
unfolding resolve_group
resolve_group-is_tagged [] tag n = refl
resolve_group-is_tagged ((h, tags) ∷ registry) tag n =
    ground (arith, resolve_group-is_tagged registry tag n)

-- What the call names: one host, a list of hosts, or the hosts that have a tag.
abbrev pub HostsNamed : List (Text × List Text) → Text → HostArg → List Text → Bool → Type 0
HostsNamed registry tag host hosts several =
    ((tag ≡ [])
      × (((h : Text) × ((host ≡ one_host h) × ((hosts ≡ h ∷ []) × (several ≡ false))))
          ⊎ ((host ≡ host_list hosts) × (several ≡ true))))
    ⊎ ((is_empty tag ≡ false)
        × ((is_given host ≡ false)
            × ((several ≡ true)
                × ((n : Text) → any (λ h. h == n) hosts ≡ is_tagged registry tag n))))

direct_targets-HostsNamed :
    (registry : List (Text × List Text)) (host : HostArg) (hosts : List Text) (several : Bool)
    → direct_targets host ≡ ok (hosts, several)
    → HostsNamed registry [] host hosts several
direct_targets-HostsNamed registry no_host hosts several e = cc
direct_targets-HostsNamed registry (one_host []) hosts several e = cc
direct_targets-HostsNamed registry (one_host (c ∷ h)) hosts several e =
    let given : List Text × Bool = ((c ∷ h) ∷ [], false) in
    let same : given ≡ (hosts, several) = cc in
    inl (refl, inl (c ∷ h, (refl, (sym (ap (λ r. r.0) same), sym (ap (λ r. r.1) same)))))
direct_targets-HostsNamed registry (host_list []) hosts several e = cc
direct_targets-HostsNamed registry (host_list (h ∷ hs)) hosts several e =
    let given : List Text × Bool = (h ∷ hs, true) in
    let same : given ≡ (hosts, several) = cc in
    inl (refl, inr (ap (λ r. host_list r.0) same, sym (ap (λ r. r.1) same)))

resolve_targets-HostsNamed :
    (registry : List (Text × List Text)) (tag : Text) (host : HostArg) (hosts : List Text)
    (several : Bool)
    → resolve_targets registry tag host ≡ ok (hosts, several)
    → HostsNamed registry tag host hosts several
resolve_targets-HostsNamed registry [] host hosts several e =
    direct_targets-HostsNamed registry host hosts several e
resolve_targets-HostsNamed registry (c ∷ tag) host hosts several e = decide (is_given host) refl e
  where
    Gives : Result CallFault (List Text × Bool) → Type 0
    Gives r = r ≡ ok (hosts, several)

    decide :
        (b : Bool)
        → is_given host ≡ b
        → Gives
            (if b then err CallFault.both_targets else ok (resolve_group registry (c ∷ tag), true))
        → HostsNamed registry (c ∷ tag) host hosts several
    decide true given w = cc
    decide false lacks w =
        let group : resolve_group registry (c ∷ tag) ≡ hosts = cc in
        let many : several ≡ true = cc in
        inr (
          refl,
          (
            lacks,
            (
              many,
              λ n.
                  ap (λ hs. any (λ h. h == n) hs) (sym group)
                  ∙ resolve_group-is_tagged registry (c ∷ tag) n,
            ),
          ),
        )

-- The list of commands, or the single one.
abbrev pub CommandsNamed : List Text → Text → List Text → Bool → Type 0
CommandsNamed commands command cmds several =
    ((is_empty commands ≡ false) × ((cmds ≡ commands) × (several ≡ true)))
    ⊎ ((commands ≡ []) × ((is_empty command ≡ false) × ((cmds ≡ command ∷ []) × (several ≡ false))))

resolve_commands-CommandsNamed :
    (commands : List Text) (command : Text) (cmds : List Text) (several : Bool)
    → resolve_commands commands command ≡ ok (cmds, several)
    → CommandsNamed commands command cmds several
resolve_commands-CommandsNamed (c ∷ cs) command cmds several e = inl (refl, (cc, cc))
resolve_commands-CommandsNamed [] (b ∷ command) cmds several e = inr (refl, (refl, (cc, cc)))
resolve_commands-CommandsNamed [] [] cmds several e = cc

module _ (site : Site) (call : ExecCall) (now : ℕ) (counters : Counters) where
  -- The call ran just the commands and hosts that it names: all are allowed, no host's name is empty
  -- once it is trimmed, and at each host's turn its rate has room.
  abbrev pub Asked : ExecAnswer → Type 0
  Asked answer =
      (hosts : List Text) × ((several : Bool) × ((cmds : List Text) × ((several_cmds : Bool)
            × (HostsNamed site.registry call.group_tag call.host hosts several
                × (CommandsNamed call.commands call.command cmds several_cmds
                    × ((any is_empty (map normalize_host_name hosts) ≡ false)
                        × (AllAllowed site.second site.lower site.policy site.verdict now
                              (map normalize_host_name hosts) cmds
                            × (RoomFor site.second site.policy now counters
                                  (map normalize_host_name hosts)
                                × (runs site call now counters (map normalize_host_name hosts)
                                      several cmds several_cmds
                                    ≡ ok answer)))))))))

  -- A call that gives an answer found no host with the tag; or else it ran the commands that it names on
  -- the host, on the list of hosts or on the hosts that have the tag, as it names them: every command and
  -- every host is allowed, no host's name is empty, and at each host's turn fewer calls than the limit were
  -- in its window, those of this call counted.
  pub remote_exec-Asked :
      (answer : ExecAnswer)
      → (remote_exec site call now counters).1 ≡ ok answer
      → (answer ≡ nobody_tagged call.group_tag) ⊎ Asked answer
  remote_exec-Asked answer went = elim (remote_exec-Ran site call now counters answer went) [
    | inl nobody ↦ inl nobody
    | inr
          (
            hosts,
            (
              several,
              (cmds, (several_cmds, (targets, (commands, (full, (allowed, (rates, ran))))))),
            ),
          ) ↦
        inr (
          hosts,
          (
            several,
            (
              cmds,
              (
                several_cmds,
                (
                  resolve_targets-HostsNamed site.registry call.group_tag call.host hosts several
                      targets,
                  (
                    resolve_commands-CommandsNamed call.commands call.command cmds several_cmds
                        commands,
                    (
                      full,
                      (
                        allowed,
                        (
                          commit_rates-RoomFor site.second site.policy now
                              (map normalize_host_name hosts) counters rates,
                          ran,
                        ),
                      ),
                    ),
                  ),
                ),
              ),
            ),
          ),
        )
  ]
