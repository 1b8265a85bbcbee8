-- ===== src/Hosts/Merge.antt =====
-- From one host of hosts.yaml to the options of its connection, in
-- portal_mcp_server/connection_manager.py.
use portal_mcp_server.Base.{
  ℤ, pos, ◌≡◌, refl, ap, sym, subst, ◌∙◌, inl, inr, Text, text_eq, text_has_eq, ◌==◌, codes, strip,
  Bool, true, false, ◌&&◌, Option, none, some, List, [], ◌∷◌, any, arith, if◌then◌else◌, Result, ok,
  err, ◌>>=◌, WhenOk, >>=-WhenOk,
}
use portal_mcp_server.Safety.{normalize_host_name}
use portal_mcp_server.Hosts.{HostConfig, SshConfig, Field, value_of, value_or, is_present}
use portal_mcp_server.Hosts.Load.{
  ConfigWarning, RawHost, LoadFault, null_number, flag_or, is_blank_jump, checked_jump, key_table,
  present_names, load_warnings, config_of, load_host,
}
use portal_mcp_server.Hosts.Options.{
  ConnectKwargs, ConnectFault, Credentials, is_specified, address_kwargs, tunnel_of, login_kwargs,
  with_options, build_connect_kwargs,
}
use portal_mcp_server.Hosts.Secure.{Secure, build_connect_kwargs-Secure}

any-present_names :
    (k : Text) (fields : List (Text × Bool))
    → any (λ f. f == k) (present_names fields)
      ≡ any (λ (name, is_there). text_eq name k && is_there) fields
any-present_names k [] = refl
any-present_names k ((name, is_there) ∷ fields) = ground (arith, any-present_names k fields)

if_same : (b : Bool) → (if b then true else false) ≡ b
if_same true = refl
if_same false = refl

any-key_table_user :
    (cfg : RawHost)
    → any (λ (name, is_there). text_eq name (codes "user") && is_there) (key_table cfg)
      ≡ is_present cfg.user
unfolding text_eq
any-key_table_user cfg = if_same (is_present cfg.user)

any-key_table_port :
    (cfg : RawHost)
    → any (λ (name, is_there). text_eq name (codes "port") && is_there) (key_table cfg)
      ≡ is_present cfg.port
unfolding text_eq
any-key_table_port cfg = if_same (is_present cfg.port)

module _ (expand lower : Text → Text) (s : SshConfig) (c : Credentials) (raw_name : Text)
    (cfg : RawHost) where
  abbrev pub connect :
      HostConfig × List ConfigWarning → Result LoadFault (Result ConnectFault ConnectKwargs)
  connect (config, _) = ok (build_connect_kwargs expand lower s c config)

  -- The connection to the host, once it is loaded.
  abbrev pub load_and_connect : Result LoadFault (Result ConnectFault ConnectKwargs)
  load_and_connect = load_host expand s raw_name cfg >>= connect

  is_specified-user :
      (port limit : ℤ)
      → is_specified (codes "user") (config_of expand (normalize_host_name raw_name) cfg port limit)
        ≡ is_present cfg.user
  is_specified-user port limit =
      any-present_names (codes "user") (key_table cfg) ∙ any-key_table_user cfg

  is_specified-port :
      (port limit : ℤ)
      → is_specified (codes "port") (config_of expand (normalize_host_name raw_name) cfg port limit)
        ≡ is_present cfg.port
  is_specified-port port limit =
      any-present_names (codes "port") (key_table cfg) ∙ any-key_table_port cfg

  -- The alias, and the user and the port where hosts.yaml has them.
  abbrev pub Deferred : ConnectKwargs → Type 0
  Deferred k =
      (k.host ≡ normalize_host_name raw_name)
      × ((k.username
            ≡ (if is_present cfg.user then some (value_or (codes "root") cfg.user) else none))
          × (k.port ≡ (if is_present cfg.port then value_or (pos 22) cfg.port else none)))

  -- A property of the connection, for a host that can be read.
  abbrev pub WhenLoaded : (Result ConnectFault ConnectKwargs → Type 0) → Type 0
  WhenLoaded P = WhenOk P load_and_connect

  -- The configuration is that of the mapping.
  abbrev FromRaw : HostConfig × List ConfigWarning → Type 0
  FromRaw (config, _) =
      (port : ℤ) × ((limit : ℤ) × ((value_or (pos 22) cfg.port ≡ some port)
          × (config_of expand (normalize_host_name raw_name) cfg port limit ≡ config)))

  load_host-FromRaw : WhenOk FromRaw (load_host expand s raw_name cfg)
  unfolding load_host
  load_host-FromRaw =
      decide (value_or (pos 22) cfg.port) refl (value_or (pos 30) cfg.connect_timeout)
    where
      decide :
          (o : Option ℤ)
          → value_or (pos 22) cfg.port ≡ o
          → (q : Option ℤ)
          → WhenOk FromRaw (elim o [
            | none ↦ err (null_number (codes "port"))
            | some port ↦ elim q [
              | none ↦ err (null_number (codes "connect_timeout"))
              | some limit ↦ ok (
                config_of expand (normalize_host_name raw_name) cfg port limit,
                load_warnings s (normalize_host_name raw_name) cfg,
              )
            ]
          ])
      decide none e q = tt
      decide (some port) e none = tt
      decide (some port) e (some limit) = (port, (limit, (e, refl)))

  loaded :
      (P : Result ConnectFault ConnectKwargs → Type 0)
      → ((port limit : ℤ)
          → value_or (pos 22) cfg.port ≡ some port
          → P (
              build_connect_kwargs expand lower s c
                (config_of expand (normalize_host_name raw_name) cfg port limit)))
      → WhenLoaded P
  loaded P each =
      >>=-WhenOk FromRaw P (load_host expand s raw_name cfg) connect load_host-FromRaw
        (λ (config, _) (port, (limit, (e, same))).
          subst (λ h. P (build_connect_kwargs expand lower s c h)) same (each port limit e))

  -- A merged host connects by its alias, and with a user or a port just where hosts.yaml has one: what it
  -- leaves out is left to the ssh config files.
  pub load_and_connect-Deferred :
      flag_or false cfg.use_ssh_config ≡ true → WhenLoaded (WhenOk Deferred)
  load_and_connect-Deferred merged = loaded (WhenOk Deferred) (λ port limit e.
      decide port limit e
        (build_connect_kwargs expand lower s c
          (config_of expand (normalize_host_name raw_name) cfg port limit))
        (build_connect_kwargs-Secure expand lower s c
          (config_of expand (normalize_host_name raw_name) cfg port limit)))
    where
      port_set :
          (port : ℤ)
          → value_or (pos 22) cfg.port ≡ some port
          → (if is_present cfg.port then some port else none)
            ≡ (if is_present cfg.port then value_or (pos 22) cfg.port else none)
      port_set port e = ap (λ o. if is_present cfg.port then o else none) (sym e)

      decide :
          (port limit : ℤ)
          → value_or (pos 22) cfg.port ≡ some port
          → (r : Result ConnectFault ConnectKwargs)
          → WhenOk
              (Secure expand lower s c
                (config_of expand (normalize_host_name raw_name) cfg port limit))
              r
          → WhenOk Deferred r
      decide port limit e (err f) secure = tt
      decide port limit e (ok k) (inl (plain, _), _) = cc (plain, merged)
      decide port limit e (ok k) (inr (_, (host, (at, (user, _)))), _) = (
        host,
        (
          user
              ∙ ap (λ b. if b then some (value_or (codes "root") cfg.user) else none)
                  (is_specified-user port limit),
          at
              ∙ ap (λ b. if b then some port else none) (is_specified-port port limit)
              ∙ port_set port e,
        ),
      )

  -- No arguments.
  abbrev pub Refused : Result ConnectFault ConnectKwargs → Type 0
  Refused r = (e : ConnectFault) × (r ≡ err e)

  checked_jump-blank :
      (field : Field Text) → is_blank_jump field ≡ true → checked_jump field ≡ some []
  checked_jump-blank field blank = ap (λ b. if b then some [] else value_of field) blank

  -- A blank jump is refused at every connection, never taken for a direct one.
  pub load_and_connect-Refused : is_blank_jump cfg.proxy_jump ≡ true → WhenLoaded Refused
  unfolding build_connect_kwargs strip
  load_and_connect-Refused blank = loaded Refused (λ port limit _.
      decide port limit
        (address_kwargs expand s (config_of expand (normalize_host_name raw_name) cfg port limit))
        (checked_jump cfg.proxy_jump) (checked_jump-blank cfg.proxy_jump blank))
    where
      decide :
          (port limit : ℤ) (a : Result ConnectFault ConnectKwargs) (j : Option Text)
          → j ≡ some []
          → Refused (
              a >>= λ kwargs. tunnel_of lower j >>= λ tunnel.
              login_kwargs c (config_of expand (normalize_host_name raw_name) cfg port limit) (
                with_options
                  (config_of expand (normalize_host_name raw_name) cfg port limit)
                  tunnel
                  kwargs))
      decide port limit (err f) j e = (f, refl)
      decide port limit (ok k) none e = cc
      decide port limit (ok k) (some []) e = (_, refl)
      decide port limit (ok k) (some (x ∷ t)) e = cc
