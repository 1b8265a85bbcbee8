-- ===== src/Pool/Bound.antt =====
-- The pool never holds more usable connections than its size, in whatever order tasks interleave.
use portal_mcp_server.Base.{
  ℕ, ◌+◌, ◌≤◌, ◌<◌, ◌≡◌, ◌≢◌, refl, sym, subst, ◌∙◌, inl, inr, true, false, Option, some, List, [],
  ◌∷◌, any, All, nat_beq, arith, Option-cases, Bool-cases,
}
use portal_mcp_server.Pool.{Limits, Slot, acquire, register, remove, close_all}
use portal_mcp_server.Pool.Usable.{
  count_usable, acquire-usable, acquire-room, add_connection-usable, release-usable,
  invalidate-usable,
}
use portal_mcp_server.Pool.System.{
  Task, System, Pick, here, there, get_lock, request, enter, connected, lock_is_free, with_slot,
  released, Step, asks, enters, connects, fails, releases, registers, removes, closes_all, dies,
  releases_elsewhere, closes_next, shutdown_stops, start_closing, given_back-other, Reach, start,
  step, initial,
}

module _ {ℓ κ} {A : Type ℓ} (P : A → Type κ) where
  pub All-Pick : (a : A) (xs ys : List A) → Pick a xs ys → All P xs → P a × All P ys
  All-Pick a [] ys p h = elim p [ ]
  All-Pick a (x ∷ xs) ys here h = h
  All-Pick a (x ∷ xs) (x' ∷ ys) (there p) h =
      let (pa, rest) = All-Pick a xs ys p h.1 in (pa, (h.0, rest))

All-map {ℓ κ μ} :
    {A : Type ℓ} {P : A → Type κ} {Q : A → Type μ} (xs : List A)
    → ((a : A) → P a → Q a)
    → All P xs
    → All Q xs
All-map [] f h = tt
All-map (x ∷ xs) f h = (f x h.0, All-map xs f h.1)

All-map₂ {ℓ κ μ ν} :
    {A : Type ℓ} {P : A → Type κ} {Q : A → Type μ} {R : A → Type ν} (xs : List A)
    → ((a : A) → P a → Q a → R a)
    → All P xs
    → All Q xs
    → All R xs
All-map₂ [] f h k = tt
All-map₂ (x ∷ xs) f h k = (f x h.0 k.0, All-map₂ xs f h.1 k.1)

-- No two tasks connect under one lock.
abbrev Exclusive : List (Task × ℕ) → Type 0
Exclusive [] = Unit {0}
Exclusive ((t, now) ∷ ts) = All (λ (u, _). u.lock ≢ t.lock) ts × Exclusive ts

Exclusive-Pick :
    (a : Task × ℕ) (xs ys : List (Task × ℕ))
    → Pick a xs ys
    → Exclusive xs
    → Exclusive ys × All (λ (u, _). u.lock ≢ a.0.lock) ys
Exclusive-Pick a [] ys p h = elim p [ ]
Exclusive-Pick a (x ∷ xs) ys here h = (h.1, h.0)
Exclusive-Pick a (x ∷ xs) (x' ∷ ys) (there p) h =
    let (apart, rest) = All-Pick (λ (u, _). u.lock ≢ x.0.lock) a xs ys p h.0 in
    let (ex, others) = Exclusive-Pick a xs ys p h.1 in ((rest, ex), ((λ e. apart (sym e)), others))

lock_is_free-apart :
    (t : Task) (ts : List (Task × ℕ))
    → any (λ (u, _). nat_beq u.lock t.lock) ts ≡ false
    → All (λ (u, _). u.lock ≢ t.lock) ts
lock_is_free-apart t [] h = tt
lock_is_free-apart t ((u, _) ∷ ts) h = (ground arith, lock_is_free-apart t ts (ground arith))

module _ {C : Type 0} (l : Limits) (some_size : 0 < l.pool_size) where
  -- A task whose generation is the current one has the current lock.
  abbrev Current : Slot C → Task → Type 0
  Current slot t =
      (t.generation ≤ slot.generation) × (t.generation ≡ slot.generation → slot.lock ≡ some t.lock)

  -- While such a task connects, there is room for its connection.
  abbrev HasRoom : Slot C → Task × ℕ → Type 0
  HasRoom slot (t, now) =
      Current slot t × (t.generation ≡ slot.generation → count_usable slot.pool < l.pool_size)

  pub record Inv (s : System C) : Type 0 where
    pub bounded : count_usable s.slot.pool ≤ l.pool_size
    pub current : All (Current s.slot) s.waiting
    pub has_room : All (HasRoom s.slot) s.connecting
    pub exclusive : Exclusive s.connecting

  -- Such a change makes no pool fuller, and keeps the generation and the lock.
  Milder : Slot C → Slot C → Type 0
  Milder slot slot' =
      (slot'.generation ≡ slot.generation)
      × (slot'.lock ≡ slot.lock)
      × (count_usable slot'.pool ≤ count_usable slot.pool)

  Current-Milder :
      (slot slot' : Slot C) (t : Task) → Milder slot slot' → Current slot t → Current slot' t
  unfolding Milder
  Current-Milder slot slot' t (g, k, c) (le, eq) = (omega arith, λ e. k ∙ eq (e ∙ g))

  HasRoom-Milder :
      (slot slot' : Slot C) (a : Task × ℕ) → Milder slot slot' → HasRoom slot a → HasRoom slot' a
  unfolding Milder
  HasRoom-Milder slot slot' (t, now) m (cur, room) =
      (Current-Milder slot slot' t m cur, λ e. let r = room (e ∙ m.0) in omega arith)

  -- After a change of the configuration every task is behind, and nothing is usable.
  Current-next :
      (slot slot' : Slot C) (t : Task)
      → slot'.generation ≡ slot.generation + 1
      → Current slot t
      → Current slot' t
  Current-next slot slot' t g (le, eq) = (omega arith, λ e. absurd (omega arith))

  HasRoom-next :
      (slot slot' : Slot C) (a : Task × ℕ)
      → slot'.generation ≡ slot.generation + 1
      → HasRoom slot a
      → HasRoom slot' a
  HasRoom-next slot slot' (t, now) g (cur, room) =
      (Current-next slot slot' t g cur, λ e. absurd (omega (arith, cur.0)))

  Inv-mild :
      (s : System C) (slot' : Slot C) (held closed : List ℕ)
      → Milder s.slot slot'
      → Inv s
      → Inv (record s { slot = slot'; held = held; closed = closed })
  unfolding Milder
  Inv-mild s slot' held closed m v = record {
    bounded = omega (arith, m.2, v.bounded);
    current = All-map s.waiting (λ t. Current-Milder s.slot slot' t m) v.current;
    has_room = All-map s.connecting (λ a. HasRoom-Milder s.slot slot' a m) v.has_room;
    exclusive = v.exclusive;
  }

  Inv-next :
      (s : System C) (slot' : Slot C) (closed : List ℕ)
      → slot'.generation ≡ s.slot.generation + 1
      → count_usable slot'.pool ≡ 0
      → Inv s
      → Inv (record s { slot = slot'; closed = closed })
  Inv-next s slot' closed g z v = record {
    bounded = omega arith;
    current = All-map s.waiting (λ t. Current-next s.slot slot' t g) v.current;
    has_room = All-map s.connecting (λ a. HasRoom-next s.slot slot' a g) v.has_room;
    exclusive = v.exclusive;
  }

  -- The lock that a task was given is the current one.
  request-Inv : (alias : Option C) (s : System C) → Inv s → Inv (request alias s)
  unfolding request
  request-Inv alias s v = record {
    bounded = v.bounded;
    current = ((omega arith, λ e. refl), All-map s.waiting (λ t. keeps t) v.current);
    has_room = All-map s.connecting (λ (t, now) h. (keeps t h.0, h.1)) v.has_room;
    exclusive = v.exclusive;
  }
    where
      keeps :
          (t : Task)
          → Current s.slot t
          → (t.generation ≤ s.slot.generation)
            × (t.generation ≡ s.slot.generation → some (get_lock s) ≡ some t.lock)
      keeps t (le, eq) = (le, λ e. ground (arith, eq e))

  enter-Inv :
      (now : ℕ) (t : Task) (waiting : List Task) (s : System C)
      → Pick t s.waiting waiting
      → lock_is_free t.lock s ≡ true
      → Inv s
      → Inv (enter l now t waiting s)
  unfolding enter
  enter-Inv now t waiting s p free v =
      let r = acquire l s.closed now s.slot.pool in
      let slot' : Slot C = record s.slot { pool = r.0 } in
      let m : Milder s.slot slot' =
        unfold Milder in (refl, refl, acquire-usable l s.closed now s.slot.pool some_size) in
      let (mine, others) = All-Pick (Current s.slot) t s.waiting waiting p v.current in
      let v' =
        Inv-mild (record s { waiting = waiting }) slot' s.held s.closed m
          (record {
            bounded = v.bounded;
            current = others;
            has_room = v.has_room;
            exclusive = v.exclusive;
          }) in
      elim (Option-cases r.2) [
        | inr (c, e) ↦
            rw (e, enter)
              (record {
                bounded = v'.bounded;
                current = v'.current;
                has_room = v'.has_room;
                exclusive = v'.exclusive;
              })
        | inl e ↦
            rw (e, enter)
              (record {
                bounded = v'.bounded;
                current = v'.current;
                has_room = (
                  (
                    Current-Milder s.slot slot' t m mine,
                    λ _. acquire-room l s.closed now s.slot.pool some_size e,
                  ),
                  v'.has_room,
                );
                exclusive = (lock_is_free-apart t s.connecting (ground arith), v.exclusive);
              })
      ]

  connected-Inv :
      (t : Task) (now : ℕ) (connecting : List (Task × ℕ)) (s : System C)
      → Pick (t, now) s.connecting connecting
      → Inv s
      → Inv (connected t now connecting s)
  unfolding connected
  connected-Inv t now connecting s p v =
      let (mine, others) =
        All-Pick (HasRoom s.slot) (t, now) s.connecting connecting p v.has_room in
      let (alone, apart) = Exclusive-Pick (t, now) s.connecting connecting p v.exclusive in
      elim (Bool-cases (nat_beq s.slot.generation t.generation)) [
        | inr behind ↦
            rw (behind, connected)
              (record {
                bounded = v.bounded;
                current = v.current;
                has_room = others;
                exclusive = alone;
              })
        | inl up ↦
            let same : t.generation ≡ s.slot.generation = ground arith in
            rw (up, connected)
              (record {
                bounded =
                    omega (arith, add_connection-usable s.next_conn now s.slot.pool, mine.1 same);
                current = v.current;
                has_room =
                    All-map₂ connecting
                      (λ (u, later) h ne.
                        (h.0, λ e. absurd (ne (one_lock u (h.0.1 e) (mine.0.1 same)))))
                      others apart;
                exclusive = alone;
              })
      ]
    where
      one_lock :
          (u : Task) → s.slot.lock ≡ some u.lock → s.slot.lock ≡ some t.lock → u.lock ≡ t.lock
      one_lock u a b = cc

  with_slot-Inv :
      (s : System C) (slot' : Slot C) (dropped : List ℕ)
      → slot'.generation ≡ s.slot.generation + 1
      → count_usable slot'.pool ≡ 0
      → Inv s
      → Inv (with_slot s (slot', dropped))
  with_slot-Inv s slot' dropped g z v = Inv-next s slot' _ g z v

  remove-Inv : (s : System C) → Inv s → Inv (with_slot s (remove s.slot))
  unfolding remove
  remove-Inv s v = elim (Option-cases s.slot.config) [
    | inl e ↦
        rw (e, remove)
          (record {
            bounded = v.bounded;
            current = v.current;
            has_room = v.has_room;
            exclusive = v.exclusive;
          })
    | inr (cfg, e) ↦ rw (e, remove) (with_slot-Inv s _ _ refl (invalidate-usable s.slot.pool) v)
  ]

  -- Every step keeps the invariant.
  pub Step-Inv : {s u : System C} → Step l s u → Inv s → Inv u
  unfolding register close_all released start_closing Milder
  Step-Inv {s} (asks alias cfg _ e) v = rw e (request-Inv alias s v)
  Step-Inv {s} (enters t now waiting p free e) v = rw e (enter-Inv now t waiting s p free v)
  Step-Inv {s} (connects t now connecting p e) v = rw e (connected-Inv t now connecting s p v)
  Step-Inv {s} (fails t now connecting p e) v = rw e (record {
    bounded = v.bounded;
    current = v.current;
    has_room = (All-Pick (HasRoom s.slot) (t, now) s.connecting connecting p v.has_room).1;
    exclusive = (Exclusive-Pick (t, now) s.connecting connecting p v.exclusive).0;
  })
  Step-Inv {s} (releases c now held p e) v =
      rw e (Inv-mild s _ held _ (refl, refl, omega (arith, release-usable c now s.slot.pool)) v)
  Step-Inv {s} (registers cfg e) v =
      rw e (with_slot-Inv s _ _ refl (invalidate-usable s.slot.pool) v)
  Step-Inv {s} (removes e) v = rw e (remove-Inv s v)
  Step-Inv {s} (closes_all e) v =
      let w = Inv-mild s (close_all s.slot).0 s.held s.closed (refl, refl, omega arith) v in
      rw e (record {
        bounded = w.bounded;
        current = w.current;
        has_room = w.has_room;
        exclusive = w.exclusive;
      })
  Step-Inv {s} (releases_elsewhere name raw c now other e) v =
      subst Inv (sym (e ∙ given_back-other name raw c now s other)) v
  Step-Inv {s} (closes_next c queue others p e) v = rw e (record {
    bounded = v.bounded;
    current = v.current;
    has_room = v.has_room;
    exclusive = v.exclusive;
  })
  Step-Inv {s} (shutdown_stops queue others p e) v = rw e (record {
    bounded = v.bounded;
    current = v.current;
    has_room = v.has_room;
    exclusive = v.exclusive;
  })
  Step-Inv {s} (dies c _ e) v = rw e (Inv-mild s s.slot s.held _ (refl, refl, omega arith) v)

  Reach-Inv : {s u : System C} → Inv s → Reach l s u → Inv u
  Reach-Inv v start = v
  Reach-Inv v (step r st) = Step-Inv st (Reach-Inv v r)

  initial-Inv : (config : Option C) → Inv (initial config)
  initial-Inv config = record { bounded = omega arith; current = tt; has_room = tt; exclusive = tt }

  -- With a pool size of at least 1, in every history of requests, waits, failures, releases,
  -- reconfigurations, shutdowns and dying connections, at most `pool_size` connections of a host are usable.
  pub pool_bounded :
      (config : Option C) {s : System C}
      → Reach l (initial config) s
      → count_usable s.slot.pool ≤ l.pool_size
  pool_bounded config r = (Reach-Inv (initial-Inv config) r).bounded
