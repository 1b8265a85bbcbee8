-- ===== src/Pool/Safety.antt =====
-- What the account of the leases means for the clients of the pool.
use portal_mcp_server.Base.{
  ℕ, ◌<◌, ◌≡◌, subst, ◌∙◌, ◌⊎◌, inl, inr, true, Option, List, ◌++◌, nat_beq, arith, Option-cases,
  Bool-cases,
}
use portal_mcp_server.Pool.{
  Limits, acquire, release, release_connection, register, remove, close_all, invalidate,
}
use portal_mcp_server.Pool.Leases.{count, Owned, count-fresh}
use portal_mcp_server.Pool.Closing.{has, has-append, release-drops, invalidate-drops, acquire-drops}
use portal_mcp_server.Pool.Handout.{handed_out-open}
use portal_mcp_server.Pool.Account.{Counted, is_known, Reach-Counted, initial-Counted}
use portal_mcp_server.Pool.System.{
  Task, System, request, enter, connected, with_slot, released, Step, asks, enters, connects, fails,
  releases, registers, removes, closes_all, dies, releases_elsewhere, closes_next, shutdown_stops,
  start_closing, given_back-other, Reach, initial,
}

-- The steps other than that of a shutdown which closes a connection and a connection that dies by itself.
abbrev pub IsPoolStep : {C : Type 0} {l : Limits} {s u : System C} → Step l s u → Type 0
IsPoolStep (closes_next c queue others p e) = ⊥
IsPoolStep (dies c lt e) = ⊥
IsPoolStep _ = Unit {0}

module _ {C : Type 0} (l : Limits) (some_size : 0 < l.pool_size) (config : Option C) where
  -- With a pool size of at least 1, in every history in which clients give back only what they hold, the pool's entries are
  -- distinct connections, and each entry's counter is the number of times that its connection was handed out and not given
  -- back under the name of the pool, as a release under another spelling of the name does nothing.
  pub pool_accounted :
      {s : System C} → Reach l (initial config) s → Owned s.next_conn s.held s.slot.pool
  pool_accounted r = (Reach-Counted l some_size (initial-Counted l some_size config) r).owned

  -- With a pool size of at least 1, in every history each connection that was opened is in the pool, closed, waiting to be closed
  -- in a shutdown under way, or was left so by a shutdown that was cancelled.
  pub pool_keeps_all :
      {s : System C}
      → Reach l (initial config) s
      → (c : ℕ) → c < s.next_conn
      → is_known l some_size c s ≡ true
  pool_keeps_all r = (Reach-Counted l some_size (initial-Counted l some_size config) r).kept

  closed_before :
      (c : ℕ) (dropped closed held : List ℕ)
      → (has c dropped ≡ true → (has c closed ≡ true) ⊎ (count c held ≡ 0))
      → has c (dropped ++ closed) ≡ true
      → (has c closed ≡ true) ⊎ (count c held ≡ 0)
  closed_before c dropped closed held why h = elim (Bool-cases (has c dropped)) [
    | inl e ↦ why e
    | inr e ↦ inl (rw (has-append c dropped closed, e) at h)
  ]

  enter_closes :
      (now : ℕ) (t : Task) (waiting : List Task) (s : System C) (c : ℕ)
      → Counted l some_size s
      → has c (enter l now t waiting s).closed ≡ true
      → (has c s.closed ≡ true) ⊎ (count c (enter l now t waiting s).held ≡ 0)
  unfolding enter
  enter_closes now t waiting s c v h =
      let r = acquire l s.closed now s.slot.pool in
      elim (Bool-cases (has c r.1)) [
        | inr e ↦ inl (rw (has-append c r.1 s.closed, e) at h)
        | inl e ↦
            elim (acquire-drops l s.closed now s.slot.pool some_size s.next_conn c s.held v.owned
              e) [
                | inl dead ↦ inl dead
                | inr free ↦ inr (elim (Option-cases r.2) [
                  | inl z ↦ rw (z, enter) free
                  | inr (d, z) ↦
                      let ne =
                        handed_out-open l s.closed now s.slot.pool s.next_conn c d s.held some_size
                          v.owned e z in
                      rw (z, enter) (ground arith)
                ])
              ]
      ]

  connected_closes :
      (t : Task) (now : ℕ) (connecting : List (Task × ℕ)) (s : System C) (c : ℕ)
      → Counted l some_size s
      → has c (connected t now connecting s).closed ≡ true
      → (has c s.closed ≡ true) ⊎ (count c (connected t now connecting s).held ≡ 0)
  unfolding connected
  connected_closes t now connecting s c v h =
      elim (Bool-cases (nat_beq s.slot.generation t.generation)) [
        | inl e ↦ inl (rw (e, connected) at h)
        | inr e ↦ elim (Bool-cases (nat_beq s.next_conn c)) [
          | inl same ↦
              let eq : s.next_conn ≡ c = ground arith in
              inr (rw (e, connected) (rw eq at (count-fresh s.next_conn s.held v.held_below)))
          | inr other ↦ inl (rw (e, connected, other) at h)
        ]
      ]

  remove_closes :
      (s : System C) (c : ℕ)
      → Counted l some_size s
      → has c (with_slot s (remove s.slot)).closed ≡ true
      → (has c s.closed ≡ true) ⊎ (count c s.held ≡ 0)
  unfolding remove
  remove_closes s c v h = elim (Option-cases s.slot.config) [
    | inl e ↦ inl (rw (e, remove) at h)
    | inr (cfg, e) ↦
        closed_before c (invalidate s.slot.pool).1 s.closed s.held
          (λ d. inr (invalidate-drops s.next_conn c s.held s.slot.pool v.owned d))
          (rw (e, remove) at h)
  ]

  -- With a pool size of at least 1, in every history, a step other than a shutdown or the death of a
  -- connection closes only connections that no client holds when it is done: pruning, release,
  -- reconfiguration and removal never take a live connection from under a client.
  pub held_stays_open :
      {s u : System C}
      → Reach l (initial config) s
      → (st : Step l s u) → IsPoolStep st
      → (c : ℕ) → has c u.closed ≡ true
      → (has c s.closed ≡ true) ⊎ (count c u.held ≡ 0)
  unfolding request register released release_connection start_closing close_all
  held_stays_open {s} r st ok =
      go st ok (Reach-Counted l some_size (initial-Counted l some_size config) r)
    where
      go :
          {s u : System C} (st : Step l s u)
          → IsPoolStep st
          → Counted l some_size s
          → (c : ℕ) → has c u.closed ≡ true
          → (has c s.closed ≡ true) ⊎ (count c u.held ≡ 0)
      go {s} (asks alias cfg _ e) ok v c h = inl (ground arith)
      go {s} (enters t now waiting p free e) ok v c h =
          rw e (enter_closes now t waiting s c v (rw e at h))
      go {s} (connects t now connecting p e) ok v c h =
          rw e (connected_closes t now connecting s c v (rw e at h))
      go {s} (fails t now connecting p e) ok v c h = inl (rw e at h)
      go {s} (releases d now held p e) ok v c h = rw e (
          closed_before c (release d now s.slot.pool).1 s.closed held
            (λ x. inr (release-drops s.next_conn d now c s.held held s.slot.pool p v.owned x))
            (rw e at h))
      go {s} (registers cfg e) ok v c h = rw e (
          closed_before c (invalidate s.slot.pool).1 s.closed s.held
            (λ x. inr (invalidate-drops s.next_conn c s.held s.slot.pool v.owned x)) (rw e at h))
      go {s} (removes e) ok v c h = rw e (remove_closes s c v (rw e at h))
      go {s} (closes_all e) ok v c h = inl (rw e at h)
      go {s} (releases_elsewhere name raw d now other e) ok v c h =
          inl (subst (λ t. has c t.closed ≡ true) (e ∙ given_back-other name raw d now s other) h)
      go {s} (shutdown_stops queue others p e) ok v c h = inl (rw e at h)
      go (closes_next d queue others p e) ok v c h = elim ok [ ]
      go (dies d lt e) ok v c h = elim ok [ ]
