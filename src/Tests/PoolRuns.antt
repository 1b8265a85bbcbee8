-- ===== src/Tests/PoolRuns.antt =====
-- A history of one host's pool: a request that connects, one that waits while the host is
-- reconfigured, and a release.
use portal_mcp_server.Base.{ℕ, ◌≤◌, ◌≡◌, refl, true, [], ◌∷◌, none, some, arith, ◌⊎◌}
use portal_mcp_server.Pool.{
  Limits, acquire, prune, is_expired, reuse_first, add_connection, release, register, invalidate,
}
use portal_mcp_server.Pool.System.{
  Task, System, here, request, enter, connected, with_slot, released, Step, asks, enters, connects,
  releases, registers, Reach, start, step, initial,
}
use portal_mcp_server.Pool.Usable.{count_usable}
use portal_mcp_server.Pool.Bound.{pool_bounded}
use portal_mcp_server.Pool.Leases.{Owned, count}
use portal_mcp_server.Pool.Closing.{has}
use portal_mcp_server.Pool.Account.{is_known}
use portal_mcp_server.Pool.Safety.{pool_accounted, pool_keeps_all, held_stays_open}

abbrev small : Limits
small = record { pool_size = 1; max_channels = 2; max_idle = 600; max_age = 3600 }

abbrev first : Task
first = record { generation = 0; lock = 0 }

abbrev idle : System ℕ
idle = initial (some 7)

abbrev asked : System ℕ
asked = request none idle

abbrev entered : System ℕ
entered = enter small 5 first [] asked

abbrev pooled : System ℕ
pooled = connected first 5 [] entered

abbrev renewed : System ℕ
renewed = with_slot pooled (register 8 pooled.slot)

abbrev given_back : System ℕ
given_back = released 0 9 [] renewed

Reach-pooled : Reach small idle pooled
unfolding request enter connected acquire prune reuse_first
Reach-pooled =
    step (step (step start (asks none 7 refl refl)) (enters first 5 [] here refl refl))
      (connects first 5 [] here refl)

Reach-renewed : Reach small idle renewed
Reach-renewed = step Reach-pooled (registers 8 refl)

last_step : Step small renewed given_back
unfolding request enter connected acquire prune reuse_first add_connection register invalidate
    released
last_step = releases 0 9 [] here refl

-- The stale connection is closed when its last user is done with it.
stale_closed : given_back.closed ≡ 0 ∷ []
unfolding request enter connected acquire prune reuse_first add_connection register invalidate
    released release is_expired
stale_closed = refl

pool_bounded_example : count_usable renewed.slot.pool ≤ 1
pool_bounded_example = pool_bounded small (omega arith) (some 7) Reach-renewed

pool_accounted_example : Owned renewed.next_conn renewed.held renewed.slot.pool
pool_accounted_example = pool_accounted small (omega arith) (some 7) Reach-renewed

pool_keeps_all_example : is_known small (omega arith) 0 pooled ≡ true
unfolding request enter connected acquire prune reuse_first
pool_keeps_all_example = pool_keeps_all small (omega arith) (some 7) Reach-pooled 0 (omega arith)

held_stays_open_example : (has 0 renewed.closed ≡ true) ⊎ (count 0 given_back.held ≡ 0)
unfolding request enter connected acquire prune reuse_first add_connection register invalidate
    released release is_expired last_step
held_stays_open_example =
    held_stays_open small (omega arith) (some 7) Reach-renewed last_step tt 0 refl
