-- ===== src/Exec/Gate.antt =====
-- What `_gate_exec` and `remote_exec` of portal_mcp_server/cli.py let through.
use portal_mcp_server.Base.{
  ℕ, ◌≡◌, refl, ◌⊎◌, ◌↔◌, inl, inr, Text, Option, none, some, List, [], ◌∷◌, arith, All,
}
use portal_mcp_server.Policy.{Policy, Refusal, Counters, check_host, check_command}
use portal_mcp_server.Policy.Verdict.{
  HostAllowed, CommandAllowed, check_host-HostAllowed, check_command-CommandAllowed,
}
use portal_mcp_server.Exec.Call.{first_error, commit_rates, gate_exec}

first_error-All :
    (check : Text → Option Refusal) (P : Text → Type 0)
    → ((x : Text) → (check x ≡ none) ↔ P x)
    → (xs : List Text) → (first_error check xs ≡ none) ↔ All P xs
first_error-All check P means [] = ground arith
first_error-All check P means (x ∷ xs) = decide (first_error-All check P means xs) (check x) refl
  where
    decide :
        ((first_error check xs ≡ none) ↔ All P xs)
        → (o : Option Refusal) → check x ≡ o
        → (first_error check (x ∷ xs) ≡ none) ↔ All P (x ∷ xs)
    decide later (some e) hit = rw (first_error, hit) ((λ h. cc), λ (p, _). cc ((means x).1 p, hit))
    decide later none free =
        rw (first_error, free) ((λ h. ((means x).0 free, later.0 h)), λ (_, ps). later.1 ps)

module _ (second : ℕ) (lower : Text → Text) (p : Policy) (verdict : Text → Option Text)
    (now : ℕ) where
  -- Every command and every host is allowed.
  abbrev pub AllAllowed : List Text → List Text → Type 0
  AllAllowed hosts commands =
      All (λ c. CommandAllowed lower p c (verdict c)) commands × All (HostAllowed lower p) hosts

  commands_free :
      (commands : List Text)
      → (first_error (λ c. check_command lower p c (verdict c)) commands ≡ none)
        ↔ All (λ c. CommandAllowed lower p c (verdict c)) commands
  commands_free =
      first_error-All (λ c. check_command lower p c (verdict c))
        (λ c. CommandAllowed lower p c (verdict c))
        (λ c. check_command-CommandAllowed lower p c (verdict c))

  hosts_free :
      (hosts : List Text)
      → (first_error (check_host p) hosts ≡ none) ↔ All (HostAllowed lower p) hosts
  hosts_free = first_error-All (check_host p) (HostAllowed lower p) (check_host-HostAllowed lower p)

  -- `_gate_exec` either goes on to take a token for each host in turn, every command and every host being
  -- allowed, or refuses with the counters as they were, some command or host not being allowed.
  pub gate_exec_lem :
      (hosts commands : List Text) (counters : Counters)
      → (AllAllowed hosts commands
          × (gate_exec second lower p verdict now hosts commands counters
              ≡ commit_rates second p now hosts counters))
        ⊎ ((¬ AllAllowed hosts commands)
            × ((e : Refusal) × (gate_exec second lower p verdict now hosts commands counters
                  ≡ (counters, some e))))
  unfolding gate_exec
  gate_exec_lem hosts commands counters =
      decide (first_error (λ c. check_command lower p c (verdict c)) commands) refl
        (first_error (check_host p) hosts) refl
    where
      decide :
          (o : Option Refusal)
          → first_error (λ c. check_command lower p c (verdict c)) commands ≡ o
          → (q : Option Refusal) → first_error (check_host p) hosts ≡ q
          → (AllAllowed hosts commands
              × (gate_exec second lower p verdict now hosts commands counters
                  ≡ commit_rates second p now hosts counters))
            ⊎ ((¬ AllAllowed hosts commands)
                × ((e : Refusal) × (gate_exec second lower p verdict now hosts commands counters
                      ≡ (counters, some e))))
      decide (some e) hit q _ =
          inr ((λ (cs, _). cc ((commands_free commands).1 cs, hit)), (e, rw (gate_exec, hit) refl))
      decide none free (some e) hit =
          inr ((λ (_, hs). cc ((hosts_free hosts).1 hs, hit)), (e, rw (gate_exec, free, hit) refl))
      decide none free none clear = inl (
        ((commands_free commands).0 free, (hosts_free hosts).0 clear),
        rw (gate_exec, free, clear) refl,
      )
