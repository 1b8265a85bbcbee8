-- ===== src/Pool/Account.antt =====
-- Every lease is counted, and every connection that was opened is accounted for.
use portal_mcp_server.Base.{
  ℕ, ◌+◌, ◌<◌, ◌≡◌, refl, sym, subst, ◌∙◌, ◌⊎◌, inl, inr, Bool, true, false, ◌||◌, Option, List, [],
  ◌∷◌, ◌++◌, All, nat_beq, arith, Option-cases, Bool-cases,
}
use portal_mcp_server.Pool.{
  Pooled, Limits, Slot, acquire, release, register, remove, close_all, release_connection,
  invalidate,
}
use portal_mcp_server.Pool.Leases.{
  Owned, Owned-mono, add_connection-Owned, release-Owned, invalidate-Owned, acquire-Served,
}
use portal_mcp_server.Pool.Closing.{
  conns, has, queued, queued-Pick, has-append, release-conns, invalidate-has, add_connection-has,
  acquire-has,
}
use portal_mcp_server.Pool.Bound.{All-Pick}
use portal_mcp_server.Pool.System.{
  Task, System, Pick, request, enter, connected, with_slot, released, Step, asks, enters, connects,
  fails, releases, registers, removes, closes_all, dies, releases_elsewhere, closes_next,
  shutdown_stops, start_closing, given_back-other, Reach, start, step, initial,
}

All-below : (n : ℕ) (cs : List ℕ) → All (λ c. c < n) cs → All (λ c. c < n + 1) cs
All-below n [] h = tt
All-below n (c ∷ cs) h = (omega arith, All-below n cs h.1)

module _ {C : Type 0} (l : Limits) (some_size : 0 < l.pool_size) where
  -- The connection is pooled, closed, waiting in a shutdown, or left by a cancelled one.
  abbrev pub is_known : ℕ → System C → Bool
  is_known c s =
      has c (conns s.slot.pool) || (has c s.closed || (queued c s.closing || has c s.lost))

  pub record Counted (s : System C) : Type 0 where
    pub owned : Owned s.next_conn s.held s.slot.pool
    pub held_below : All (λ c. c < s.next_conn) s.held
    pub kept : (c : ℕ) → c < s.next_conn → is_known c s ≡ true

  -- What an operation has dropped from the pool is closed.
  kept-after :
      (s : System C) (pool : List Pooled) (dropped : List ℕ)
      → Counted s
      → ((c : ℕ) → has c (conns s.slot.pool) ≡ true → (has c (conns pool) || has c dropped) ≡ true)
      → (c : ℕ) → c < s.next_conn
      → (has c (conns pool)
          || (has c (dropped ++ s.closed) || (queued c s.closing || has c s.lost)))
        ≡ true
  kept-after s pool dropped v moved c lt =
      rw (has-append c dropped s.closed) (ground (arith, v.kept c lt, moved c))

  enter-Counted :
      (now : ℕ) (t : Task) (waiting : List Task) (s : System C)
      → Counted s
      → Counted (enter l now t waiting s)
  unfolding enter
  enter-Counted now t waiting s v =
      let r = acquire l s.closed now s.slot.pool in
      let served = acquire-Served l s.closed now s.next_conn s.held s.slot.pool some_size v.owned in
      let kept' = kept-after s r.0 r.1 v (acquire-has l s.closed now s.slot.pool some_size) in
      elim (Option-cases r.2) [
        | inl e ↦
            rw (e, enter)
              (record { owned = rw e at served; held_below = v.held_below; kept = kept' })
        | inr (c, e) ↦
            let (o, lt) = (rw e at served) in
            rw (e, enter) (record { owned = o; held_below = (lt, v.held_below); kept = kept' })
      ]

  connected-Counted :
      (t : Task) (now : ℕ) (connecting : List (Task × ℕ)) (s : System C)
      → Counted s
      → Counted (connected t now connecting s)
  unfolding connected
  connected-Counted t now connecting s v =
      elim (Bool-cases (nat_beq s.slot.generation t.generation)) [
        | inl e ↦
            rw (e, connected)
              (record {
                owned =
                    add_connection-Owned s.next_conn now s.held s.slot.pool v.held_below v.owned;
                held_below = (omega arith, All-below s.next_conn s.held v.held_below);
                kept = λ c lt.
                    rw (add_connection-has c s.next_conn now s.slot.pool)
                      (pooled c (Bool-cases (nat_beq s.next_conn c)) lt);
              })
        | inr e ↦
            rw (e, connected)
              (record {
                owned =
                    Owned-mono s.next_conn (s.next_conn + 1) s.held s.slot.pool (omega arith)
                      v.owned;
                held_below = All-below s.next_conn s.held v.held_below;
                kept = λ c lt. dropped c (Bool-cases (nat_beq s.next_conn c)) lt;
              })
      ]
    where
      pooled :
          (c : ℕ)
          → (nat_beq s.next_conn c ≡ true) ⊎ (nat_beq s.next_conn c ≡ false)
          → c < s.next_conn + 1
          → ((has c (conns s.slot.pool) || nat_beq s.next_conn c)
              || (has c s.closed || (queued c s.closing || has c s.lost)))
            ≡ true
      pooled c (inl e) lt = rw e (ground arith)
      pooled c (inr e) lt = ground (arith, v.kept c)

      dropped :
          (c : ℕ)
          → (nat_beq s.next_conn c ≡ true) ⊎ (nat_beq s.next_conn c ≡ false)
          → c < s.next_conn + 1
          → (has c (conns s.slot.pool)
              || (has c (s.next_conn ∷ s.closed) || (queued c s.closing || has c s.lost)))
            ≡ true
      dropped c (inl e) lt = ground arith
      dropped c (inr e) lt = ground (arith, v.kept c)

  released-Counted :
      (c now : ℕ) (held : List ℕ) (s : System C)
      → Pick c s.held held
      → Counted s
      → Counted (released c now held s)
  unfolding released
  released-Counted c now held s p v = record {
    owned = release-Owned s.next_conn c now s.held held s.slot.pool p v.owned;
    held_below = (All-Pick (λ d. d < s.next_conn) c s.held held p v.held_below).1;
    kept =
        kept-after s (release c now s.slot.pool).0 (release c now s.slot.pool).1 v
          (λ d h. rw (release-conns c now s.slot.pool) (ground (arith, h)));
  }

  invalidated-Counted :
      (s : System C) (slot' : Slot C)
      → slot'.pool ≡ (invalidate s.slot.pool).0
      → Counted s
      → Counted (with_slot s (slot', (invalidate s.slot.pool).1))
  invalidated-Counted s slot' e v = record {
    owned = rw e (invalidate-Owned s.next_conn s.held s.slot.pool v.owned);
    held_below = v.held_below;
    kept = rw e (
        kept-after s (invalidate s.slot.pool).0 (invalidate s.slot.pool).1 v
          (λ d. invalidate-has d s.slot.pool));
  }

  remove-Counted : (s : System C) → Counted s → Counted (with_slot s (remove s.slot))
  unfolding remove
  remove-Counted s v = elim (Option-cases s.slot.config) [
    | inl e ↦ rw (e, remove) (record { owned = v.owned; held_below = v.held_below; kept = v.kept })
    | inr (cfg, e) ↦ rw (e, remove) (invalidated-Counted s _ refl v)
  ]

  -- Every step keeps the account.
  Step-Counted : {s u : System C} → Step l s u → Counted s → Counted u
  unfolding request register close_all start_closing release_connection
  Step-Counted {s} (asks alias cfg _ e) v =
      rw e (record { owned = v.owned; held_below = v.held_below; kept = v.kept })
  Step-Counted {s} (enters t now waiting p free e) v = rw e (enter-Counted now t waiting s v)
  Step-Counted {s} (connects t now connecting p e) v = rw e (connected-Counted t now connecting s v)
  Step-Counted {s} (fails t now connecting p e) v =
      rw e (record { owned = v.owned; held_below = v.held_below; kept = v.kept })
  Step-Counted {s} (releases c now held p e) v = rw e (released-Counted c now held s p v)
  Step-Counted {s} (registers cfg e) v = rw e (invalidated-Counted s _ refl v)
  Step-Counted {s} (removes e) v = rw e (remove-Counted s v)
  Step-Counted {s} (closes_all e) v =
      rw e (record {
        owned = tt;
        held_below = v.held_below;
        kept = λ c lt. ground (arith, v.kept c lt);
      })
  Step-Counted {s} (releases_elsewhere name raw c now other e) v =
      subst Counted (sym (e ∙ given_back-other name raw c now s other)) v
  Step-Counted {s} (closes_next c queue others p e) v = rw e (record {
    owned = v.owned;
    held_below = v.held_below;
    kept = λ d lt. ground (arith, v.kept d lt, queued-Pick d (c ∷ queue) s.closing others p);
  })
  Step-Counted {s} (shutdown_stops queue others p e) v = rw e (record {
    owned = v.owned;
    held_below = v.held_below;
    kept = λ d lt.
        rw (has-append d queue s.lost)
          (ground (arith, v.kept d lt, queued-Pick d queue s.closing others p));
  })
  Step-Counted {s} (dies c lt e) v = rw e (record {
    owned = v.owned;
    held_below = v.held_below;
    kept = λ d below. ground (arith, v.kept d below);
  })

  pub Reach-Counted : {s u : System C} → Counted s → Reach l s u → Counted u
  Reach-Counted v start = v
  Reach-Counted v (step r st) = Step-Counted st (Reach-Counted v r)

  pub initial-Counted : (config : Option C) → Counted (initial config)
  initial-Counted config = record {
    owned = tt;
    held_below = tt;
    kept = λ c lt. absurd (omega arith);
  }
