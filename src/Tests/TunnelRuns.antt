-- ===== src/Tests/TunnelRuns.antt =====
-- portal_mcp_server/network_tools.py on one tunnel that is opened and closed, and on one that cannot be
-- opened; and portal_mcp_server/session_manager.py on one session.
use portal_mcp_server.Base.{◌≡◌, refl, text_eq, text_has_eq, codes, some, [], ◌∷◌}
use portal_mcp_server.Base.Dicts.{lookup, insert, erase}
use portal_mcp_server.Tunnels.{
  local_forward, ActiveTunnel, TunnelManager, no_tunnels, open_tunnel, register_tunnel, give_up,
  start_close, end_close, TunnelStep, acquires, registers, gives_up, starts_close, ends_close,
  TunnelReach, begin, next,
}
use portal_mcp_server.Session.Registry.{ShellSession, SessionManager}

abbrev tunnel : ActiveTunnel
tunnel = record { tunnel_type = local_forward; host_name = codes "h"; conn = 5 }

abbrev opened : TunnelManager
opened = register_tunnel (codes "t") tunnel [] (open_tunnel 5 no_tunnels)

abbrev closing : TunnelManager
closing = record opened { tunnels = []; closing = 5 ∷ [] }

abbrev over : TunnelManager
over = give_up 7 [] (open_tunnel 7 (end_close 5 [] closing))

close_started : TunnelStep opened closing
unfolding start_close lookup insert erase text_eq
close_started = starts_close (codes "t") refl

reached : TunnelReach over
unfolding start_close lookup insert erase text_eq
reached =
    next
      (next
        (next
          (next
            (next (next begin (acquires 5 refl))
              (registers (codes "t") tunnel [] [] refl refl refl))
            close_started)
          (ends_close 5 [] [] refl refl))
        (acquires 7 refl))
      (gives_up 7 [] [] refl refl)

abbrev session : ShellSession
session = record { host_name = codes "h"; conn = 5 }

abbrev manager : SessionManager
manager = record { sessions = (codes "s", session) ∷ []; released = [] }

there : lookup (codes "s") manager.sessions ≡ some session
unfolding lookup text_eq
there = refl
