-- ===== src/Pool.antt =====
-- The connection pool of portal_mcp_server/connection_manager.py, for one host name: what
-- `ConnectionManager` keeps under that name in `_registry`, `_pool`, `_generation` and `_locks`.
-- Connections are numbers, as the program tells them apart by identity only; times are whole
-- numbers of some unit. `C` is the type of host configurations.
pub mod System
pub mod Usable
pub mod Bound
pub mod Leases
pub mod Closing
pub mod Account
pub mod Handout
pub mod Safety
use portal_mcp_server.Base.{
  ℕ, ◌+◌, ◌-◌, Bool, true, false, not, ◌&&◌, ◌||◌, Option, none, some, List, [], ◌∷◌, ◌++◌, length,
  keep_if, is_empty, any, ltb, leb, nat_beq, max, if◌then◌else◌, map, Text, text_has_eq, ◌==◌,
}

-- `PooledConnection`
pub record Pooled : Type 0 where
  pub conn : ℕ
  pub created_at : ℕ
  pub last_used : ℕ
  pub in_use : ℕ
  pub stale : Bool

-- The manager's settings.
pub record Limits : Type 0 where
  pub pool_size : ℕ
  pub max_channels : ℕ
  pub max_idle : ℕ
  pub max_age : ℕ

-- `ConnectionManager.__init__`: the pool size is at least 1.
unfoldable pub limits : ℕ → ℕ → ℕ → ℕ → Limits
limits pool_size max_channels max_idle max_age = record {
  pool_size = max 1 pool_size;
  max_channels = max_channels;
  max_idle = max_idle;
  max_age = max_age;
}

-- What is kept under one name. A name without a pool, a generation or a lock has `[]`, 0, `none`.
pub record Slot (C : Type 0) : Type 0 where
  pub config : Option C
  pub pool : List Pooled
  pub generation : ℕ
  pub lock : Option ℕ

-- `is_closed`, from the connections that are closed.
abbrev pub is_closed : List ℕ → ℕ → Bool
is_closed closed c = any (λ d. nat_beq d c) closed

-- The test by which `get_connection` drops a connection: dead, idle or aged.
unfoldable pub is_expired : Limits → List ℕ → ℕ → Pooled → Bool
is_expired l closed now pc =
    is_closed closed pc.conn
    || nat_beq pc.in_use 0 && ltb (pc.last_used + l.max_idle) now
    || nat_beq pc.in_use 0 && ltb (pc.created_at + l.max_age) now

-- The loop that prunes: what stays, and what is closed.
unfoldable pub prune : Limits → List ℕ → ℕ → List Pooled → List Pooled × List ℕ
prune l closed now [] = ([], [])
prune l closed now (pc ∷ pool) =
    let (alive, dropped) = prune l closed now pool in
    if is_expired l closed now pc then (alive, pc.conn ∷ dropped) else (pc ∷ alive, dropped)

-- A connection is handed out once more.
abbrev pub bump : ℕ → Pooled → Pooled
bump now pc = record pc { last_used = now; in_use = pc.in_use + 1 }

-- The first usable connection with a free channel, handed out.
unfoldable pub reuse_first : Limits → ℕ → List Pooled → Option (ℕ × List Pooled)
reuse_first l now [] = none
reuse_first l now (pc ∷ pool) =
    let rest = reuse_first l now pool in
    if not pc.stale && ltb pc.in_use l.max_channels
    then some (pc.conn, bump now pc ∷ pool)
    else elim rest [ none ↦ none | some (c, pool') ↦ some (c, pc ∷ pool') ]

-- `min(usable, key=lambda p: p.in_use)`: the first of the least busy.
unfoldable pub least_busy : List Pooled → Option Pooled
least_busy [] = none
least_busy (pc ∷ pool) = elim (least_busy pool) [
  | none ↦ if pc.stale then none else some pc
  | some q ↦ if pc.stale then some q else if leb pc.in_use q.in_use then some pc else some q
]

-- The entry of a connection is changed where it is.
unfoldable pub update_conn : ℕ → (Pooled → Pooled) → List Pooled → List Pooled
update_conn c f [] = []
update_conn c f (pc ∷ pool) = if nat_beq pc.conn c then f pc ∷ pool else pc ∷ update_conn c f pool

abbrev pub usable : List Pooled → List Pooled
usable = keep_if (λ pc. not pc.stale)

-- What `get_connection` does under the lock, up to a new connection: the pool, what it closed, and
-- the connection that it hands out, or `none` if it goes on to connect.
unfoldable pub acquire : Limits → List ℕ → ℕ → List Pooled → List Pooled × List ℕ × Option ℕ
acquire l closed now pool =
    let (alive, dropped) = prune l closed now pool in
    elim (reuse_first l now alive) [
      | some (c, alive') ↦ (alive', dropped, some c)
      | none ↦
          if not (is_empty (usable alive)) && leb l.pool_size (length (usable alive))
          then elim (least_busy alive) [
            | some q ↦ (update_conn q.conn (bump now) alive, dropped, some q.conn)
            | none ↦ (alive, dropped, none)
          ]
          else (alive, dropped, none)
    ]

-- A connection that was made while the generation stood still is pooled.
unfoldable pub add_connection : ℕ → ℕ → List Pooled → List Pooled
add_connection c now pool =
    pool ++ record { conn = c; created_at = now; last_used = now; in_use = 1; stale = false } ∷ []

-- The loop of `release_connection`: the pool, and what it closed.
unfoldable pub release : ℕ → ℕ → List Pooled → List Pooled × List ℕ
release c now [] = ([], [])
release c now (pc ∷ pool) =
    if nat_beq pc.conn c
    then (
      record pc { in_use = pc.in_use - 1; last_used = now } ∷ pool,
      if pc.stale && nat_beq (pc.in_use - 1) 0 then c ∷ [] else [],
    )
    else (let (pool', dropped) = release c now pool in (pc ∷ pool', dropped))

-- `release_connection` under the spelling `raw`, for the pool that is kept under `name`, with the blanks
-- around it removed: `raw` is looked up as it stands.
unfoldable pub release_connection : Text → Text → ℕ → ℕ → List Pooled → List Pooled × List ℕ
release_connection name raw c now pool = if raw == name then release c now pool else (pool, [])

-- `_invalidate_pool`: idle connections are closed, and the others are stale from now on.
unfoldable pub invalidate : List Pooled → List Pooled × List ℕ
invalidate [] = ([], [])
invalidate (pc ∷ pool) =
    let (keep, dropped) = invalidate pool in
    if nat_beq pc.in_use 0
    then (keep, pc.conn ∷ dropped)
    else (record pc { stale = true } ∷ keep, dropped)

module _ {C : Type 0} where
  -- `register_host`
  unfoldable pub register : C → Slot C → Slot C × List ℕ
  register cfg s =
      let (keep, dropped) = invalidate s.pool in
      (record s { config = some cfg; pool = keep; generation = s.generation + 1 }, dropped)

  -- `remove_host`: a name that is not registered stays as it is.
  unfoldable pub remove : Slot C → Slot C × List ℕ
  remove s = elim s.config [
    | none ↦ (s, [])
    | some cfg ↦
        let (keep, dropped) = invalidate s.pool in
        (
          record s { config = none; pool = keep; generation = s.generation + 1; lock = none },
          dropped,
        )
  ]

  -- The start of `close_all`: the pool is emptied, and its connections are to be closed one by one.
  unfoldable pub close_all : Slot C → Slot C × List ℕ
  close_all s = (record s { pool = [] }, map (λ pc. pc.conn) s.pool)
