-- ===== src/Pool/Handout.antt =====
-- The connection that is handed out is not one that the same call has closed.
use portal_mcp_server.Base.{
  ℕ, ◌<◌, ◌≡◌, ◌≢◌, refl, inl, inr, true, false, Option, some, List, [], ◌∷◌, nat_beq, arith,
  Option-cases, Bool-cases,
}
use portal_mcp_server.Pool.{Pooled, Limits, prune, is_expired, least_busy, acquire}
use portal_mcp_server.Pool.Usable.{Acquired, reused, overloaded, room, acquire-Acquired}
use portal_mcp_server.Pool.Leases.{Owned, Absent, prune-Absent, reuse_first-Absent}
use portal_mcp_server.Pool.Closing.{has}

least_busy-Absent :
    (c : ℕ) (pool : List Pooled) (q : Pooled)
    → least_busy pool ≡ some q
    → Absent c pool
    → q.conn ≢ c
unfolding least_busy
least_busy-Absent c [] q e a = cc
least_busy-Absent c (pc ∷ pool) q e a = elim (Option-cases (least_busy pool)) [
  | inl m ↦ ground arith
  | inr (r, m) ↦ ground (arith, least_busy-Absent c pool r m a.1)
]

module _ (l : Limits) (closed : List ℕ) (now : ℕ) where
  dropped-Absent :
      (c : ℕ) (pool : List Pooled) → Absent c pool → has c (prune l closed now pool).1 ≡ false
  unfolding prune
  dropped-Absent c [] a = refl
  dropped-Absent c (pc ∷ pool) a = ground (arith, dropped-Absent c pool a.1)

  prune-apart :
      (n c : ℕ) (held : List ℕ) (pool : List Pooled)
      → Owned n held pool
      → has c (prune l closed now pool).1 ≡ true
      → Absent c (prune l closed now pool).0
  unfolding prune
  prune-apart n c held [] o h = cc
  prune-apart n c held (pc ∷ pool) o h = elim (Bool-cases (nat_beq pc.conn c)) [
    | inr other ↦ elim (Bool-cases (is_expired l closed now pc)) [
      | inl e ↦ rw (e, prune) (prune-apart n c held pool o.3 (rw (e, prune, other) at h))
      | inr e ↦
          rw (e, prune)
            ((λ q. ground (arith, q)), prune-apart n c held pool o.3 (rw (e, prune) at h))
    ]
    | inl same ↦
        let eq : pc.conn ≡ c = ground arith in
        let gone : Absent c pool = rw eq at o.2 in
        elim (Bool-cases (is_expired l closed now pc)) [
          | inl e ↦ rw (e, prune) (prune-Absent l closed now c pool gone)
          | inr e ↦ cc (rw (e, prune) at h, dropped-Absent c pool gone)
        ]
  ]

  pub handed_out-open :
      (pool : List Pooled) (n c d : ℕ) (held : List ℕ)
      → 0 < l.pool_size
      → Owned n held pool
      → has c (acquire l closed now pool).1 ≡ true
      → (acquire l closed now pool).2 ≡ some d
      → d ≢ c
  handed_out-open pool n c d held size o = go (acquire-Acquired l closed now pool size)
    where
      go :
          {r : List Pooled × List ℕ × Option ℕ}
          → Acquired l closed now pool r
          → has c r.1 ≡ true
          → r.2 ≡ some d
          → d ≢ c
      go (reused e pool' m) h k =
          let ne =
            (reuse_first-Absent l closed now c _ e pool' m (prune-apart n c held pool o h)).1 in
          λ q. ne (cc)
      go (overloaded q m) h k =
          let ne = least_busy-Absent c _ q m (prune-apart n c held pool o h) in λ z. ne (cc)
      go (room z) h k = cc
