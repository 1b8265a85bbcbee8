-- ===== src/Pool/Leases.antt =====
-- What the operations on a pool do to its leases: each entry's `in_use` against the list of the
-- connections that clients hold.
use portal_mcp_server.Base.{
  ℕ, ◌+◌, ◌≤◌, ◌<◌, ◌≡◌, ◌≢◌, refl, ◌⊎◌, inl, inr, not, ◌&&◌, Option, none, some, List, [], ◌∷◌,
  All, suc, nat_beq, ltb, arith, if◌then◌else◌, Option-cases, Bool-cases,
}
use portal_mcp_server.Pool.{
  Pooled, Limits, prune, is_expired, reuse_first, least_busy, update_conn, bump, acquire,
  add_connection, release, invalidate,
}
use portal_mcp_server.Pool.System.{Pick, here, there}
use portal_mcp_server.Pool.Usable.{Acquired, reused, overloaded, room, acquire-Acquired}

abbrev pub count : ℕ → List ℕ → ℕ
count c [] = 0
count c (d ∷ ds) = if nat_beq d c then suc (count c ds) else count c ds

abbrev pub Absent : ℕ → List Pooled → Type 0
Absent c pool = All (λ q. q.conn ≢ c) pool

-- Entries are distinct connections below `n`, each used as often as clients hold it.
abbrev pub Owned : ℕ → List ℕ → List Pooled → Type 0
Owned n held [] = Unit {0}
Owned n held (pc ∷ pool) =
    (pc.conn < n) × (pc.in_use ≡ count pc.conn held) × Absent pc.conn pool × Owned n held pool

pub count-Pick :
    (c d : ℕ) (held held' : List ℕ)
    → Pick c held held'
    → count d held ≡ (if nat_beq c d then suc (count d held') else count d held')
count-Pick c d [] ys p = elim p [ ]
count-Pick c d (x ∷ xs) ys here = refl
count-Pick c d (x ∷ xs) (x' ∷ ys) (there p) = ground (arith, count-Pick c d xs ys p)

pub count-fresh : (n : ℕ) (held : List ℕ) → All (λ c. c < n) held → count n held ≡ 0
count-fresh n [] h = refl
count-fresh n (c ∷ held) h = ground (arith, count-fresh n held h.1)

-- Entries for other connections do not notice.
Owned-cons :
    (n c : ℕ) (held : List ℕ) (pool : List Pooled)
    → Absent c pool
    → Owned n held pool
    → Owned n (c ∷ held) pool
Owned-cons n c held [] a o = tt
Owned-cons n c held (pc ∷ pool) a o = (o.0, ground arith, o.2, Owned-cons n c held pool a.1 o.3)

Owned-Pick :
    (n c : ℕ) (held held' : List ℕ) (pool : List Pooled)
    → Pick c held held'
    → Absent c pool
    → Owned n held pool
    → Owned n held' pool
Owned-Pick n c held held' [] p a o = tt
Owned-Pick n c held held' (pc ∷ pool) p a o = (
  o.0,
  ground (arith, count-Pick c pc.conn held held' p),
  o.2,
  Owned-Pick n c held held' pool p a.1 o.3,
)

pub Owned-mono :
    (n m : ℕ) (held : List ℕ) (pool : List Pooled) → n ≤ m → Owned n held pool → Owned m held pool
Owned-mono n m held [] h o = tt
Owned-mono n m held (pc ∷ pool) h o = (omega arith, o.1, o.2, Owned-mono n m held pool h o.3)

module _ (l : Limits) (closed : List ℕ) (now : ℕ) where
  pub prune-Absent :
      (c : ℕ) (pool : List Pooled) → Absent c pool → Absent c (prune l closed now pool).0
  unfolding prune
  prune-Absent c [] a = tt
  prune-Absent c (pc ∷ pool) a = elim (Bool-cases (is_expired l closed now pc)) [
    | inl e ↦ rw e (prune-Absent c pool a.1)
    | inr e ↦ rw e (a.0, prune-Absent c pool a.1)
  ]

  prune-Owned :
      (n : ℕ) (held : List ℕ) (pool : List Pooled)
      → Owned n held pool
      → Owned n held (prune l closed now pool).0
  unfolding prune
  prune-Owned n held [] o = tt
  prune-Owned n held (pc ∷ pool) o = elim (Bool-cases (is_expired l closed now pc)) [
    | inl e ↦ rw e (prune-Owned n held pool o.3)
    | inr e ↦ rw e (o.0, o.1, prune-Absent pc.conn pool o.2, prune-Owned n held pool o.3)
  ]

  -- Either the first entry is handed out, or one behind it.
  pub reuse_first-cons :
      (pc : Pooled) (pool : List Pooled) (d : ℕ) (pool' : List Pooled)
      → reuse_first l now (pc ∷ pool) ≡ some (d, pool')
      → ((d ≡ pc.conn) × (pool' ≡ bump now pc ∷ pool))
        ⊎ ((rest : List Pooled) × (reuse_first l now pool ≡ some (d, rest)) × (pool' ≡ pc ∷ rest))
  unfolding reuse_first
  reuse_first-cons pc pool d pool' e =
      elim (Bool-cases (not pc.stale && ltb pc.in_use l.max_channels)) [
        | inl t ↦ inl (ground arith)
        | inr t ↦ elim (Option-cases (reuse_first l now pool)) [
          | inl m ↦ absurd (ground arith)
          | inr ((c, rest), m) ↦ inr (rest, ground arith, ground arith)
        ]
      ]

  pub reuse_first-Absent :
      (c : ℕ) (pool : List Pooled) (d : ℕ) (pool' : List Pooled)
      → reuse_first l now pool ≡ some (d, pool')
      → Absent c pool
      → Absent c pool' × (d ≢ c)
  unfolding reuse_first
  reuse_first-Absent c [] d pool' e a = cc
  reuse_first-Absent c (pc ∷ pool) d pool' e a = elim (reuse_first-cons pc pool d pool' e) [
    | inl (same, q) ↦ rw (q, same) (a, a.0)
    | inr (rest, m, q) ↦ let (b, ne) = reuse_first-Absent c pool d rest m a.1 in rw q ((a.0, b), ne)
  ]

  -- The connection handed out is held once more.
  reuse_first-Owned :
      (n : ℕ) (held : List ℕ) (pool : List Pooled) (c : ℕ) (pool' : List Pooled)
      → reuse_first l now pool ≡ some (c, pool')
      → Owned n held pool
      → Owned n (c ∷ held) pool' × (c < n)
  unfolding reuse_first
  reuse_first-Owned n held [] c pool' e o = cc
  reuse_first-Owned n held (pc ∷ pool) c pool' e o = elim (reuse_first-cons pc pool c pool' e) [
    | inl (same, q) ↦
        rw q
          ((o.0, ground arith, o.2, Owned-cons n c held pool (rw (← same) at o.2) o.3), omega arith)
    | inr (rest, m, q) ↦
        let (b, lt) = reuse_first-Owned n held pool c rest m o.3 in
        let (absent, ne) = reuse_first-Absent pc.conn pool c rest m o.2 in
        rw q ((o.0, ground arith, absent, b), lt)
  ]

least_busy-below :
    (n : ℕ) (held : List ℕ) (pool : List Pooled) (q : Pooled)
    → least_busy pool ≡ some q
    → Owned n held pool
    → q.conn < n
unfolding least_busy
least_busy-below n held [] q e o = cc
least_busy-below n held (pc ∷ pool) q e o = elim (Option-cases (least_busy pool)) [
  | inl m ↦ ground arith
  | inr (r, m) ↦ ground (arith, least_busy-below n held pool r m o.3)
]

update_conn-Absent :
    (c d now : ℕ) (pool : List Pooled) → Absent c pool → Absent c (update_conn d (bump now) pool)
unfolding update_conn
update_conn-Absent c d now [] a = tt
update_conn-Absent c d now (pc ∷ pool) a = elim (Bool-cases (nat_beq pc.conn d)) [
  | inl e ↦ rw e a
  | inr e ↦ rw e (a.0, update_conn-Absent c d now pool a.1)
]

update_conn-Owned :
    (n c now : ℕ) (held : List ℕ) (pool : List Pooled)
    → Owned n held pool
    → Owned n (c ∷ held) (update_conn c (bump now) pool)
unfolding update_conn
update_conn-Owned n c now held [] o = tt
update_conn-Owned n c now held (pc ∷ pool) o = elim (Bool-cases (nat_beq pc.conn c)) [
  | inl e ↦
      let same : pc.conn ≡ c = ground arith in
      rw e (o.0, ground arith, o.2, Owned-cons n c held pool (rw same at o.2) o.3)
  | inr e ↦ rw e (
    o.0,
    ground arith,
    update_conn-Absent pc.conn c now pool o.2,
    update_conn-Owned n c now held pool o.3,
  )
]

add-Absent :
    (c d now : ℕ) (pool : List Pooled)
    → d ≢ c
    → Absent c pool
    → Absent c (add_connection d now pool)
unfolding add_connection
add-Absent c d now [] h a = (h, tt)
add-Absent c d now (pc ∷ pool) h a = (a.0, add-Absent c d now pool h a.1)

pub add_connection-Owned :
    (n now : ℕ) (held : List ℕ) (pool : List Pooled)
    → All (λ c. c < n) held
    → Owned n held pool
    → Owned (n + 1) (n ∷ held) (add_connection n now pool)
unfolding add_connection
add_connection-Owned n now held [] h o = (omega arith, ground (arith, count-fresh n held h), tt, tt)
add_connection-Owned n now held (pc ∷ pool) h o =
    let ne : n ≢ pc.conn = omega arith in
    (
      omega arith,
      ground arith,
      add-Absent pc.conn n now pool ne o.2,
      add_connection-Owned n now held pool h o.3,
    )

release-Absent :
    (c d now : ℕ) (pool : List Pooled) → Absent c pool → Absent c (release d now pool).0
unfolding release
release-Absent c d now [] a = tt
release-Absent c d now (pc ∷ pool) a = elim (Bool-cases (nat_beq pc.conn d)) [
  | inl e ↦ rw e a
  | inr e ↦ rw e (a.0, release-Absent c d now pool a.1)
]

pub release-Owned :
    (n c now : ℕ) (held held' : List ℕ) (pool : List Pooled)
    → Pick c held held'
    → Owned n held pool
    → Owned n held' (release c now pool).0
unfolding release
release-Owned n c now held held' [] p o = tt
release-Owned n c now held held' (pc ∷ pool) p o = elim (Bool-cases (nat_beq pc.conn c)) [
  | inl e ↦
      let same : pc.conn ≡ c = ground arith in
      rw e (
        o.0,
        ground (arith, count-Pick c pc.conn held held' p),
        o.2,
        Owned-Pick n c held held' pool p (rw same at o.2) o.3,
      )
  | inr e ↦ rw e (
    o.0,
    ground (arith, count-Pick c pc.conn held held' p),
    release-Absent pc.conn c now pool o.2,
    release-Owned n c now held held' pool p o.3,
  )
]

invalidate-Absent : (c : ℕ) (pool : List Pooled) → Absent c pool → Absent c (invalidate pool).0
unfolding invalidate
invalidate-Absent c [] a = tt
invalidate-Absent c (pc ∷ pool) a = elim (Bool-cases (nat_beq pc.in_use 0)) [
  | inl e ↦ rw e (invalidate-Absent c pool a.1)
  | inr e ↦ rw e (a.0, invalidate-Absent c pool a.1)
]

pub invalidate-Owned :
    (n : ℕ) (held : List ℕ) (pool : List Pooled)
    → Owned n held pool
    → Owned n held (invalidate pool).0
unfolding invalidate
invalidate-Owned n held [] o = tt
invalidate-Owned n held (pc ∷ pool) o = elim (Bool-cases (nat_beq pc.in_use 0)) [
  | inl e ↦ rw e (invalidate-Owned n held pool o.3)
  | inr e ↦ rw e (o.0, o.1, invalidate-Absent pc.conn pool o.2, invalidate-Owned n held pool o.3)
]

-- What `get_connection` hands out from the pool is held once more; the rest is as it was.
abbrev pub Served : ℕ → List ℕ → List Pooled → Option ℕ → Type 0
Served n held pool none = Owned n held pool
Served n held pool (some c) = Owned n (c ∷ held) pool × (c < n)

pub acquire-Served :
    (l : Limits) (closed : List ℕ) (now n : ℕ) (held : List ℕ) (pool : List Pooled)
    → 0 < l.pool_size
    → Owned n held pool
    → Served n held (acquire l closed now pool).0 (acquire l closed now pool).2
acquire-Served l closed now n held pool h o = go (acquire-Acquired l closed now pool h)
  where
    go :
        {r : List Pooled × List ℕ × Option ℕ} → Acquired l closed now pool r → Served n held r.0 r.2
    go (reused c pool' e) =
        reuse_first-Owned l closed now n held _ c pool' e (prune-Owned l closed now n held pool o)
    go (overloaded q e) = (
      update_conn-Owned n q.conn now held _ (prune-Owned l closed now n held pool o),
      least_busy-below n held _ q e (prune-Owned l closed now n held pool o),
    )
    go (room k) = prune-Owned l closed now n held pool o
