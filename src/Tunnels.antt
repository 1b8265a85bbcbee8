-- ===== src/Tunnels.antt =====
-- The registry of tunnels in portal_mcp_server/network_tools.py and the pooled connections that it holds.
-- A connection is a number; two tunnels may share one.
pub mod Leases
use portal_mcp_server.Base.{ℕ, ◌+◌, ◌≡◌, Text, text_has_eq, Option, none, some, List, [], ◌∷◌, ◌++◌}
use portal_mcp_server.Base.Dicts.{Dict, lookup, insert, erase}

-- `ActiveTunnel`
pub data TunnelType : Type 0 where
  local_forward remote_forward dynamic_proxy : TunnelType

pub record ActiveTunnel : Type 0 where
  pub tunnel_type : TunnelType
  pub host_name : Text
  pub conn : ℕ

-- The tunnels, and the connections of calls that are under way: those of `open_local_forward`,
-- `open_remote_forward` and `open_dynamic_proxy` that wait for the listener, and those of `close_tunnel`
-- that wait for it to close; and each connection acquired and released so far, once for each time.
pub record TunnelManager : Type 0 where
  pub tunnels : Dict Text ActiveTunnel
  pub opening : List ℕ
  pub closing : List ℕ
  pub acquired : List ℕ
  pub released : List ℕ

abbrev pub no_tunnels : TunnelManager
no_tunnels = record { tunnels = []; opening = []; closing = []; acquired = []; released = [] }

-- `get_connection` at the start of an `open_*` method.
abbrev pub open_tunnel : ℕ → TunnelManager → TunnelManager
open_tunnel conn m = record m { opening = conn ∷ m.opening; acquired = conn ∷ m.acquired }

-- The listener is there, and the tunnel gets its identifier.
abbrev pub register_tunnel : Text → ActiveTunnel → List ℕ → TunnelManager → TunnelManager
register_tunnel tid t opening m = record m { tunnels = insert tid t m.tunnels; opening = opening }

-- The listener cannot be had.
abbrev pub give_up : ℕ → List ℕ → TunnelManager → TunnelManager
give_up conn opening m = record m { opening = opening; released = conn ∷ m.released }

-- `close_tunnel` up to where it waits; `none` where it answers that there is no such tunnel.
unfoldable pub start_close : Text → TunnelManager → Option TunnelManager
start_close tid m = elim (lookup tid m.tunnels) [
  | none ↦ none
  | some t ↦ some (record m { tunnels = erase tid m.tunnels; closing = t.conn ∷ m.closing })
]

-- The rest of `close_tunnel`, however waiting ends.
abbrev pub end_close : ℕ → List ℕ → TunnelManager → TunnelManager
end_close conn closing m = record m { closing = closing; released = conn ∷ m.released }

-- What the calls do between two places where they wait, in any order. A new identifier is not in use.
pub data TunnelStep (m u : TunnelManager) : Type 0 where
  acquires : (conn : ℕ) → u ≡ open_tunnel conn m → TunnelStep m u
  registers :
      (tid : Text) (t : ActiveTunnel) (before after : List ℕ)
      → m.opening ≡ before ++ t.conn ∷ after
      → lookup tid m.tunnels ≡ none
      → u ≡ register_tunnel tid t (before ++ after) m
      → TunnelStep m u
  gives_up :
      (conn : ℕ) (before after : List ℕ)
      → m.opening ≡ before ++ conn ∷ after
      → u ≡ give_up conn (before ++ after) m
      → TunnelStep m u
  starts_close : (tid : Text) → start_close tid m ≡ some u → TunnelStep m u
  ends_close :
      (conn : ℕ) (before after : List ℕ)
      → m.closing ≡ before ++ conn ∷ after
      → u ≡ end_close conn (before ++ after) m
      → TunnelStep m u

pub data TunnelReach : TunnelManager → Type 0 where
  begin : TunnelReach no_tunnels
  next : {m u : TunnelManager} → TunnelReach m → TunnelStep m u → TunnelReach u
