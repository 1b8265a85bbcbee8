-- ===== src/Hosts/Dial.antt =====
-- The attempts of `get_connection` of portal_mcp_server/connection_manager.py to connect to a host. What
-- `asyncssh.connect` answers is an argument.
use portal_mcp_server.Base.{
  ◌≡◌, ◌≢◌, ◌⊎◌, Text, true, false, Option, none, some, List, [], ◌∷◌, if◌then◌else◌, Result, ok,
  err,
}
use portal_mcp_server.Hosts.{HostConfig, SshConfig}
use portal_mcp_server.Hosts.Load.{is_password}
use portal_mcp_server.Hosts.Options.{
  ConnectKwargs, ConnectFault, Credentials, resolve_ssh_password, build_connect_kwargs,
}
use portal_mcp_server.Hosts.Secure.{Secure}

-- What `asyncssh.connect` does: a connection, `PermissionDenied`, or any other exception.
pub data ConnectReply : Type 0 where
  accepted permission_denied connect_raises : ConnectReply

-- How the attempts end.
pub data Dialled : Type 0 where
  opened denied raised : Dialled
  not_tried : ConnectFault → Dialled

abbrev pub dialled : ConnectReply → Dialled
dialled accepted = opened
dialled permission_denied = denied
dialled connect_raises = raised

-- `pw_kwargs`
abbrev pub retry_kwargs : Text → ConnectKwargs → ConnectKwargs
retry_kwargs pw kwargs = record kwargs {
  password = some pw;
  client_keys = some [];
  passphrase = none;
}

-- After the refusal of a host without password login: what the chain gives decides.
abbrev pub retry_login :
    (ConnectKwargs → ConnectReply)
    → Result ConnectFault (Option Text)
    → ConnectKwargs
    → List ConnectKwargs × Dialled
retry_login reply (err e) kwargs = (kwargs ∷ [], not_tried e)
retry_login reply (ok none) kwargs = (kwargs ∷ [], denied)
retry_login reply (ok (some pw)) kwargs =
    (kwargs ∷ retry_kwargs pw kwargs ∷ [], dialled (reply (retry_kwargs pw kwargs)))

-- The first attempt and what follows; the arguments of each are kept.
abbrev pub first_try :
    (ConnectKwargs → ConnectReply)
    → Credentials
    → HostConfig
    → ConnectKwargs
    → ConnectReply
    → List ConnectKwargs × Dialled
first_try reply c cfg kwargs accepted = (kwargs ∷ [], opened)
first_try reply c cfg kwargs connect_raises = (kwargs ∷ [], raised)
first_try reply c cfg kwargs permission_denied =
    if is_password cfg.auth
    then (kwargs ∷ [], denied)
    else retry_login reply (resolve_ssh_password c cfg) kwargs

abbrev pub dial_with :
    (ConnectKwargs → ConnectReply)
    → Credentials
    → HostConfig
    → Result ConnectFault ConnectKwargs
    → List ConnectKwargs × Dialled
dial_with reply later cfg (err e) = ([], not_tried e)
dial_with reply later cfg (ok kwargs) = first_try reply later cfg kwargs (reply kwargs)

-- The part of `get_connection` that creates a connection: the arguments of the attempts, and their end.
-- The chain of the password is asked again before the second one, when the caches may hold something else.
unfoldable pub dial :
    (Text → Text)
    → (Text → Text)
    → SshConfig
    → Credentials
    → Credentials
    → HostConfig
    → (ConnectKwargs → ConnectReply)
    → List ConnectKwargs × Dialled
dial expand lower s c later cfg reply =
    dial_with reply later cfg (build_connect_kwargs expand lower s c cfg)

module _ (expand lower : Text → Text) (s : SshConfig) (c later : Credentials) (cfg : HostConfig)
    (reply : ConnectKwargs → ConnectReply) where
  -- No second attempt is due.
  abbrev pub Final : ConnectKwargs → Type 0
  Final k =
      (reply k ≢ permission_denied)
      ⊎ ((is_password cfg.auth ≡ true)
          ⊎ ((pw : Text) → resolve_ssh_password later cfg ≢ ok (some pw)))

  -- The second attempt is that of a host without password login whose first was denied: it passes the
  -- password that the chain gives, no key and no passphrase, to the same address under the same check of
  -- host keys.
  abbrev pub Retried : ConnectKwargs → ConnectKwargs → Type 0
  Retried k r =
      (reply k ≡ permission_denied)
      × ((is_password cfg.auth ≡ false)
          × (((pw : Text) × ((resolve_ssh_password later cfg ≡ ok (some pw))
                  × (r.password ≡ some pw)))
              × ((r.client_keys ≡ some [])
                  × ((r.passphrase ≡ none)
                      × ((r.host ≡ k.host)
                          × ((r.port ≡ k.port)
                              × ((r.username ≡ k.username)
                                  × ((r.config ≡ k.config)
                                      × ((r.tunnel ≡ k.tunnel)
                                          × (r.known_hosts ≡ k.known_hosts))))))))))

  abbrev pub Attempts : List ConnectKwargs → Type 0
  Attempts [] = (e : ConnectFault) × (build_connect_kwargs expand lower s c cfg ≡ err e)
  Attempts (k ∷ []) = Secure expand lower s c cfg k × Final k
  Attempts (k ∷ r ∷ []) = Secure expand lower s c cfg k × Retried k r
  Attempts (k ∷ r ∷ q ∷ more) = ⊥
