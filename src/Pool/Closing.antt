-- ===== src/Pool/Closing.antt =====
-- Which connections the operations on a pool close or leave to a shutdown, and that none is forgotten.
use portal_mcp_server.Base.{
  ℕ, ◌<◌, ◌≡◌, refl, sym, ap, ◌∙◌, ◌⊎◌, inl, inr, Bool, true, false, ◌||◌, Option, some, List, [],
  ◌∷◌, ◌++◌, map, nat_beq, arith, Bool-cases,
}
use portal_mcp_server.Pool.{
  Pooled, Limits, prune, is_expired, is_closed, reuse_first, update_conn, bump, acquire,
  add_connection, release, invalidate,
}
use portal_mcp_server.Pool.System.{Pick, here, there}
use portal_mcp_server.Pool.Usable.{Acquired, reused, overloaded, room, acquire-Acquired}
use portal_mcp_server.Pool.Leases.{count, count-Pick, Owned, reuse_first-cons}

abbrev pub conns : List Pooled → List ℕ
conns = map (λ pc. pc.conn)

-- `c` is among the connections.
abbrev pub has : ℕ → List ℕ → Bool
has c cs = is_closed cs c

-- The connections that shutdowns have still to close.
abbrev pub queued : ℕ → List (List ℕ) → Bool
queued c [] = false
queued c (q ∷ qs) = has c q || queued c qs

pub queued-Pick :
    (c : ℕ) (q : List ℕ) (qs others : List (List ℕ))
    → Pick q qs others
    → queued c qs ≡ (has c q || queued c others)
queued-Pick c q [] ys p = elim p [ ]
queued-Pick c q (x ∷ xs) ys here = refl
queued-Pick c q (x ∷ xs) (x' ∷ ys) (there p) = ground (arith, queued-Pick c q xs ys p)

pub has-append : (c : ℕ) (xs ys : List ℕ) → has c (xs ++ ys) ≡ (has c xs || has c ys)
has-append c [] ys = refl
has-append c (x ∷ xs) ys = ground (arith, has-append c xs ys)

-- Each connection in the pool stays there or is dropped.
prune-has :
    (l : Limits) (closed : List ℕ) (now c : ℕ) (pool : List Pooled)
    → has c (conns pool) ≡ true
    → (has c (conns (prune l closed now pool).0) || has c (prune l closed now pool).1) ≡ true
unfolding prune
prune-has l closed now c [] h = cc
prune-has l closed now c (pc ∷ pool) h = ground (arith, prune-has l closed now c pool)

expired_unused :
    (l : Limits) (closed : List ℕ) (now : ℕ) (pc : Pooled)
    → is_expired l closed now pc ≡ true
    → (is_closed closed pc.conn ≡ true) ⊎ (pc.in_use ≡ 0)
unfolding is_expired
expired_unused l closed now pc h = elim (Bool-cases (is_closed closed pc.conn)) [
  | inl e ↦ inl e
  | inr e ↦ inr (ground arith)
]

-- A connection that pruning drops is dead or held by nobody.
prune-drops :
    (l : Limits) (closed : List ℕ) (now n c : ℕ) (held : List ℕ) (pool : List Pooled)
    → Owned n held pool
    → has c (prune l closed now pool).1 ≡ true
    → (has c closed ≡ true) ⊎ (count c held ≡ 0)
unfolding prune
prune-drops l closed now n c held [] o h = cc
prune-drops l closed now n c held (pc ∷ pool) o h = elim (Bool-cases (is_expired l closed now pc)) [
  | inr e ↦ prune-drops l closed now n c held pool o.3 (rw (e, prune) at h)
  | inl e ↦ elim (Bool-cases (nat_beq pc.conn c)) [
    | inr other ↦ prune-drops l closed now n c held pool o.3 (ground arith)
    | inl same ↦
        let eq : pc.conn ≡ c = ground arith in
        elim (expired_unused l closed now pc e) [
          | inl dead ↦ inl (rw eq at dead)
          | inr free ↦ inr (rw eq at (sym o.1 ∙ free))
        ]
  ]
]

reuse_first-conns :
    (l : Limits) (closed : List ℕ) (now : ℕ) (pool : List Pooled) (c : ℕ) (pool' : List Pooled)
    → reuse_first l now pool ≡ some (c, pool')
    → conns pool' ≡ conns pool
unfolding reuse_first
reuse_first-conns l closed now [] c pool' e = cc
reuse_first-conns l closed now (pc ∷ pool) c pool' e =
    elim (reuse_first-cons l closed now pc pool c pool' e) [
      | inl (same, q) ↦ rw q
      | inr (rest, m, q) ↦ rw q (ap (◌∷◌ pc.conn) (reuse_first-conns l closed now pool c rest m))
    ]

update_conn-conns :
    (c now : ℕ) (pool : List Pooled) → conns (update_conn c (bump now) pool) ≡ conns pool
unfolding update_conn
update_conn-conns c now [] = refl
update_conn-conns c now (pc ∷ pool) = ground (arith, update_conn-conns c now pool)

pub release-conns : (c now : ℕ) (pool : List Pooled) → conns (release c now pool).0 ≡ conns pool
unfolding release
release-conns c now [] = refl
release-conns c now (pc ∷ pool) = ground (arith, release-conns c now pool)

-- A release closes only the connection that it gives back, and only if nobody holds it any more.
pub release-drops :
    (n c now d : ℕ) (held held' : List ℕ) (pool : List Pooled)
    → Pick c held held'
    → Owned n held pool
    → has d (release c now pool).1 ≡ true
    → count d held' ≡ 0
unfolding release
release-drops n c now d held held' [] p o h = cc
release-drops n c now d held held' (pc ∷ pool) p o h =
    ground (arith, count-Pick c pc.conn held held' p, release-drops n c now d held held' pool p o.3)

pub invalidate-has :
    (c : ℕ) (pool : List Pooled)
    → has c (conns pool) ≡ true
    → (has c (conns (invalidate pool).0) || has c (invalidate pool).1) ≡ true
unfolding invalidate
invalidate-has c [] h = cc
invalidate-has c (pc ∷ pool) h = ground (arith, invalidate-has c pool)

pub invalidate-drops :
    (n c : ℕ) (held : List ℕ) (pool : List Pooled)
    → Owned n held pool
    → has c (invalidate pool).1 ≡ true
    → count c held ≡ 0
unfolding invalidate
invalidate-drops n c held [] o h = cc
invalidate-drops n c held (pc ∷ pool) o h = ground (arith, invalidate-drops n c held pool o.3)

pub add_connection-has :
    (c n now : ℕ) (pool : List Pooled)
    → has c (conns (add_connection n now pool)) ≡ (has c (conns pool) || nat_beq n c)
unfolding add_connection
add_connection-has c n now [] = ground arith
add_connection-has c n now (pc ∷ pool) = ground (arith, add_connection-has c n now pool)

module _ (l : Limits) (closed : List ℕ) (now : ℕ) (pool : List Pooled)
    (size : 0 < l.pool_size) where
  pub acquire-has :
      (c : ℕ)
      → has c (conns pool) ≡ true
      → (has c (conns (acquire l closed now pool).0) || has c (acquire l closed now pool).1) ≡ true
  acquire-has c h = go (acquire-Acquired l closed now pool size)
    where
      go :
          {r : List Pooled × List ℕ × Option ℕ}
          → Acquired l closed now pool r
          → (has c (conns r.0) || has c r.1) ≡ true
      go (reused d pool' e) =
          rw (reuse_first-conns l closed now _ d pool' e) (prune-has l closed now c pool h)
      go (overloaded q e) =
          rw (update_conn-conns q.conn now (prune l closed now pool).0)
            (prune-has l closed now c pool h)
      go (room k) = prune-has l closed now c pool h

  pub acquire-drops :
      (n c : ℕ) (held : List ℕ)
      → Owned n held pool
      → has c (acquire l closed now pool).1 ≡ true
      → (has c closed ≡ true) ⊎ (count c held ≡ 0)
  acquire-drops n c held o = go (acquire-Acquired l closed now pool size)
    where
      go :
          {r : List Pooled × List ℕ × Option ℕ}
          → Acquired l closed now pool r
          → has c r.1 ≡ true
          → (has c closed ≡ true) ⊎ (count c held ≡ 0)
      go (reused d pool' e) h = prune-drops l closed now n c held pool o h
      go (overloaded q e) h = prune-drops l closed now n c held pool o h
      go (room k) h = prune-drops l closed now n c held pool o h
