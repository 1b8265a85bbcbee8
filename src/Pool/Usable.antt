-- ===== src/Pool/Usable.antt =====
-- How the operations change the number of connections that may still be handed out.
use portal_mcp_server.Base.{
  ℕ, ◌+◌, ◌≤◌, ◌<◌, ◌≡◌, refl, inl, inr, true, false, not, ◌&&◌, Option, none, some, List, [], ◌∷◌,
  length, leb, is_empty, arith, Option-cases, Bool-cases,
}
use portal_mcp_server.Pool.{
  Pooled, Limits, prune, reuse_first, least_busy, update_conn, bump, usable, acquire,
  add_connection, release, invalidate,
}

abbrev pub count_usable : List Pooled → ℕ
count_usable pool = length (usable pool)

prune-usable :
    (l : Limits) (closed : List ℕ) (now : ℕ) (pool : List Pooled)
    → count_usable (prune l closed now pool).0 ≤ count_usable pool
unfolding prune
prune-usable l closed now [] = omega arith
prune-usable l closed now (pc ∷ pool) = ground (arith, prune-usable l closed now pool)

reuse_first-usable :
    (l : Limits) (now : ℕ) (pool : List Pooled) (c : ℕ) (pool' : List Pooled)
    → reuse_first l now pool ≡ some (c, pool')
    → count_usable pool' ≡ count_usable pool
unfolding reuse_first
reuse_first-usable l now [] c pool' h = cc
reuse_first-usable l now (pc ∷ pool) c pool' h = elim (Option-cases (reuse_first l now pool)) [
  | inl e ↦ ground arith
  | inr ((d, rest), e) ↦ ground (arith, reuse_first-usable l now pool d rest e)
]

update_conn-usable :
    (c now : ℕ) (pool : List Pooled)
    → count_usable (update_conn c (bump now) pool) ≡ count_usable pool
unfolding update_conn
update_conn-usable c now [] = refl
update_conn-usable c now (pc ∷ pool) = ground (arith, update_conn-usable c now pool)

least_busy-none : (pool : List Pooled) → least_busy pool ≡ none → usable pool ≡ []
unfolding least_busy
least_busy-none [] h = refl
least_busy-none (pc ∷ pool) h = elim (Option-cases (least_busy pool)) [
  | inl e ↦ ground (arith, least_busy-none pool e)
  | inr (q, e) ↦ ground arith
]

module _ (l : Limits) (closed : List ℕ) (now : ℕ) (pool : List Pooled) where
  abbrev alive : List Pooled
  alive = (prune l closed now pool).0

  abbrev dropped : List ℕ
  dropped = (prune l closed now pool).1

  -- The three ways in which `get_connection` goes on under the lock.
  pub data Acquired : List Pooled × List ℕ × Option ℕ → Type 0 where
    reused :
        (c : ℕ) (pool' : List Pooled)
        → reuse_first l now alive ≡ some (c, pool')
        → Acquired (pool', dropped, some c)
    overloaded :
        (q : Pooled)
        → least_busy alive ≡ some q
        → Acquired (update_conn q.conn (bump now) alive, dropped, some q.conn)
    room : count_usable alive < l.pool_size → Acquired (alive, dropped, none)

  pub acquire-Acquired : 0 < l.pool_size → Acquired (acquire l closed now pool)
  unfolding acquire
  acquire-Acquired h = elim (Option-cases (reuse_first l now alive)) [
    | inr ((c, pool'), e) ↦ rw (e, acquire) (reused c pool' e)
    | inl e ↦
        elim (Bool-cases
          (not (is_empty (usable alive)) && leb l.pool_size (length (usable alive)))) [
            | inr b ↦ rw (e, acquire, b) (room (has_room (usable alive) b))
            | inl b ↦ elim (Option-cases (least_busy alive)) [
              | inr (q, m) ↦ rw (e, acquire, b, m) (overloaded q m)
              | inl m ↦ absurd (full (usable alive) (least_busy-none alive m) b)
            ]
          ]
  ]
    where
      has_room :
          (us : List Pooled)
          → (not (is_empty us) && leb l.pool_size (length us)) ≡ false
          → length us < l.pool_size
      has_room [] b = h
      has_room (u ∷ us) b = ground arith

      full :
          (us : List Pooled)
          → us ≡ []
          → (not (is_empty us) && leb l.pool_size (length us)) ≡ true
          → ⊥
      full us n b = cc (rw n at b)

  -- Handing out a connection makes none usable.
  pub acquire-usable :
      0 < l.pool_size → count_usable (acquire l closed now pool).0 ≤ count_usable pool
  acquire-usable h = go (acquire-Acquired h)
    where
      go : {r : List Pooled × List ℕ × Option ℕ} → Acquired r → count_usable r.0 ≤ count_usable pool
      go (reused c pool' e) =
          omega (arith, reuse_first-usable l now alive c pool' e, prune-usable l closed now pool)
      go (overloaded q e) =
          omega (arith, update_conn-usable q.conn now alive, prune-usable l closed now pool)
      go (room k) = prune-usable l closed now pool

  -- A task goes on to connect only while the pool has room.
  pub acquire-room :
      0 < l.pool_size
      → (acquire l closed now pool).2 ≡ none
      → count_usable (acquire l closed now pool).0 < l.pool_size
  acquire-room h = go (acquire-Acquired h)
    where
      go :
          {r : List Pooled × List ℕ × Option ℕ}
          → Acquired r
          → r.2 ≡ none
          → count_usable r.0 < l.pool_size
      go (reused c pool' e) n = cc
      go (overloaded q e) n = cc
      go (room k) n = k

pub add_connection-usable :
    (c now : ℕ) (pool : List Pooled)
    → count_usable (add_connection c now pool) ≡ count_usable pool + 1
unfolding add_connection
add_connection-usable c now [] = omega arith
add_connection-usable c now (pc ∷ pool) = ground (arith, add_connection-usable c now pool)

pub release-usable :
    (c now : ℕ) (pool : List Pooled) → count_usable (release c now pool).0 ≡ count_usable pool
unfolding release
release-usable c now [] = refl
release-usable c now (pc ∷ pool) = ground (arith, release-usable c now pool)

-- A host that is configured anew or removed has no usable connection left.
pub invalidate-usable : (pool : List Pooled) → count_usable (invalidate pool).0 ≡ 0
unfolding invalidate
invalidate-usable [] = refl
invalidate-usable (pc ∷ pool) = ground (arith, invalidate-usable pool)
