-- ===== src/Policy/Verdict.antt =====
-- What `enforce` of portal_mcp_server/security.py lets through.
use portal_mcp_server.Base.{
  ℕ, ◌≡◌, refl, ◌⊎◌, ◌↔◌, Text, Bool, true, false, Option, none, some, List, [], ◌∷◌, is_empty,
  strip, arith, if◌then◌else◌, any, All,
}
use portal_mcp_server.Policy.Glob.{fnmatch}
use portal_mcp_server.Policy.{
  Policy, Refusal, Counters, check_host, first_match, check_command, check_rate_limit, enforce,
}

-- Some pattern of the list matches.
abbrev pub Matched : (Text → Bool) → List Text → Type 0
Matched test [] = ⊥
Matched test (p ∷ ps) = (test p ≡ true) ⊎ Matched test ps

any-Matched : (test : Text → Bool) (ps : List Text) → any test ps ≡ true → Matched test ps
any-Matched test [] h = cc
any-Matched test (p ∷ ps) h = ground (arith, any-Matched test ps)

Matched-any : (test : Text → Bool) (ps : List Text) → Matched test ps → any test ps ≡ true
Matched-any test [] h = absurd h
Matched-any test (p ∷ ps) h = ground (arith, Matched-any test ps)

first_match-none :
    (lower : Text → Text) (s : Text) (ps : List Text)
    → first_match lower s ps ≡ none
    → All (λ pattern. fnmatch s (lower pattern) ≡ false) ps
first_match-none lower s [] h = tt
first_match-none lower s (p ∷ ps) h = ground (arith, first_match-none lower s ps)

first_match-All :
    (lower : Text → Text) (s : Text) (ps : List Text)
    → All (λ pattern. fnmatch s (lower pattern) ≡ false) ps
    → first_match lower s ps ≡ none
first_match-All lower s [] h = refl
first_match-All lower s (p ∷ ps) h = ground (arith, first_match-All lower s ps)

module _ (lower : Text → Text) (p : Policy) where
  -- The host list allows the name.
  abbrev pub HostAllowed : Text → Type 0
  HostAllowed host = (p.host_allowlist ≡ []) ⊎ Matched (fnmatch (strip host)) p.host_allowlist

  -- No blocked pattern matches, the command checker has no objection, and some pattern of the
  -- command list matches if there are any.
  abbrev pub CommandAllowed : Text → Option Text → Type 0
  CommandAllowed command verdict =
      let s = strip (lower command) in
      All (λ pattern. fnmatch s (lower pattern) ≡ false) p.command_blocklist
      × (verdict ≡ none)
      × ((p.command_allowlist ≡ [])
          ⊎ Matched (λ pattern. fnmatch s (lower pattern)) p.command_allowlist)

  pub check_host-HostAllowed : (host : Text) → (check_host p host ≡ none) ↔ HostAllowed host
  unfolding check_host
  check_host-HostAllowed host = allows p.host_allowlist
    where
      allows :
          (ps : List Text)
          → ((if is_empty ps
                then none
                else if any (fnmatch (strip host)) ps
                then none
                else some (Refusal.host_not_allowed (strip host)))
              ≡ none)
            ↔ ((ps ≡ []) ⊎ Matched (fnmatch (strip host)) ps)
      allows [] = ground arith
      allows (q ∷ qs) = ground (
        arith,
        any-Matched (fnmatch (strip host)) (q ∷ qs),
        Matched-any (fnmatch (strip host)) (q ∷ qs),
      )

  allow_all :
      (ps : List Text)
      → (test : Text → Bool)
      → ((if is_empty ps
            then none
            else if any test ps
            then none
            else some Refusal.command_not_allowed)
          ≡ none)
        ↔ ((ps ≡ []) ⊎ Matched test ps)
  allow_all [] test = ground arith
  allow_all (q ∷ qs) test = ground (arith, any-Matched test (q ∷ qs), Matched-any test (q ∷ qs))

  pub check_command-CommandAllowed :
      (command : Text) (verdict : Option Text)
      → (check_command lower p command verdict ≡ none) ↔ CommandAllowed command verdict
  unfolding check_command
  check_command-CommandAllowed command verdict =
      decide verdict (first_match lower (strip (lower command)) p.command_blocklist) refl
    where
      decide :
          (v : Option Text) (o : Option Text)
          → first_match lower (strip (lower command)) p.command_blocklist ≡ o
          → (check_command lower p command v ≡ none) ↔ CommandAllowed command v
      decide v (some q) hit =
          rw (check_command, hit)
            (
              (λ h. cc),
              λ (passed, _, h).
                  cc
                    (first_match-All lower (strip (lower command)) p.command_blocklist passed, hit),
            )
      decide (some reason) none free = rw (check_command, free) ((λ h. cc), λ (passed, h, _). cc)
      decide none none free =
          let listed =
            allow_all p.command_allowlist
              (λ pattern. fnmatch (strip (lower command)) (lower pattern)) in
          rw (check_command, free)
            (
              (λ h. (
                first_match-none lower (strip (lower command)) p.command_blocklist free,
                refl,
                listed.0 h,
              )),
              λ (passed, _, h). listed.1 h,
            )

  -- What `enforce` asks of a command: an empty one is not looked at.
  abbrev pub Permitted : Text → Text → Option Text → Type 0
  Permitted host command verdict =
      HostAllowed host × ((command ≡ []) ⊎ CommandAllowed command verdict)

  empty-nil : (s : Text) → (is_empty s ≡ true) ↔ (s ≡ [])
  empty-nil [] = ground arith
  empty-nil (c ∷ cs) = ground arith

  module _ (second : ℕ) (host command : Text) (verdict : Option Text) (now : ℕ)
      (counters : Counters) where
    -- A dry run never changes the counters, and passes just the hosts and commands that the lists and
    -- the command checker permit.
    pub enforce_dry_run :
        let run = enforce second lower p host command verdict false now counters in
        (run.0 ≡ counters) × ((run.1 ≡ none) ↔ Permitted host command verdict)
    unfolding enforce
    enforce_dry_run = ground (
      arith,
      check_host-HostAllowed host,
      check_command-CommandAllowed command verdict,
      empty-nil command,
    )

    -- A call passes if the lists and the command checker permit it and the rate allows it. Where
    -- they do not permit it, the counters stay as they were, so that a refusal costs nothing.
    pub enforce-Permitted :
        let run = enforce second lower p host command verdict true now counters in
        let limited = check_rate_limit second p host now counters in
        ((run.1 ≡ none) ↔ (Permitted host command verdict × (limited.1 ≡ none)))
        × ((Permitted host command verdict × (run.0 ≡ limited.0))
            ⊎ ((¬ Permitted host command verdict) × (run.0 ≡ counters)))
    unfolding enforce
    enforce-Permitted = ground (
      arith,
      check_host-HostAllowed host,
      check_command-CommandAllowed command verdict,
      empty-nil command,
    )
