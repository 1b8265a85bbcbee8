-- ===== src/Hosts/Secure.antt =====
-- What the options of a connection of portal_mcp_server/connection_manager.py keep to.
use portal_mcp_server.Base.{
  ◌≡◌, refl, ap, sym, ◌∙◌, ◌⊎◌, ◌↔◌, inl, inr, Text, text_has_eq, codes, Bool, true, false, not,
  ◌&&◌, Option, none, some, [], ◌∷◌, arith, if◌then◌else◌, Result, ok, err, ◌>>=◌, WhenOk,
  >>=-WhenOk,
}
use portal_mcp_server.Hosts.{HostConfig, SshConfig}
use portal_mcp_server.Hosts.Load.{is_password, has_text}
use portal_mcp_server.Hosts.Options.{
  unverified, known_hosts_arg, ConnectKwargs, ConnectFault, Credentials, resolve_ssh_password,
  resolve_ssh_passphrase, guard_hostname_merge, is_specified, merged_kwargs, plain_kwargs,
  address_kwargs, tunnel_of, with_options, password_kwargs, only_agent, key_kwargs,
  passphrase_kwargs, login_kwargs, build_connect_kwargs,
}

known_hosts_arg-unverified :
    (expand : Text → Text) (cfg : HostConfig)
    → (known_hosts_arg expand cfg ≡ unverified) ↔ (cfg.strict_host_key_checking ≡ false)
known_hosts_arg-unverified expand cfg = ground arith

module _ (expand lower : Text → Text) (s : SshConfig) (c : Credentials) (cfg : HostConfig) where
  -- The address: the host's own, or its alias with what hosts.yaml sets.
  abbrev pub Addressed : ConnectKwargs → Type 0
  Addressed k =
      ((cfg.use_ssh_config ≡ false)
        × ((k.host ≡ cfg.host)
            × ((k.port ≡ some cfg.port) × ((k.username ≡ some cfg.user) × (k.config ≡ none)))))
      ⊎ ((cfg.use_ssh_config ≡ true)
          × ((k.host ≡ cfg.name)
              × ((k.port ≡ (if is_specified (codes "port") cfg then some cfg.port else none))
                  × ((k.username
                        ≡ (if is_specified (codes "user") cfg then some cfg.user else none))
                      × (k.config ≡ some s.files)))))

  -- The arguments before those for the login.
  abbrev Open : ConnectKwargs → Type 0
  Open k =
      Addressed k
      × ((k.known_hosts ≡ known_hosts_arg expand cfg)
          × ((k.password ≡ none)
              × ((k.client_keys ≡ none) × ((k.passphrase ≡ none) × (k.ignore_encrypted ≡ false)))))

  -- The login with a password, which offers no key.
  abbrev pub ByPassword : ConnectKwargs → Type 0
  ByPassword k =
      (pw : Text) × ((resolve_ssh_password c cfg ≡ ok (some pw))
        × ((k.password ≡ some pw) × ((k.client_keys ≡ some []) × (k.passphrase ≡ none))))

  -- The login with keys, which offers no password: those that the agent has alone, or, the passphrase
  -- being that of the chain, the host's own key or asyncssh's default ones.
  abbrev pub ByKey : ConnectKwargs → Type 0
  ByKey k =
      (k.password ≡ none)
      × (((only_agent cfg.use_ssh_agent ≡ true) × ((k.client_keys ≡ none) × (k.passphrase ≡ none)))
          ⊎ ((only_agent cfg.use_ssh_agent ≡ false)
              × ((resolve_ssh_passphrase c cfg ≡ ok k.passphrase)
                  × (k.client_keys ≡ (if has_text cfg.key then some (cfg.key ∷ []) else none)))))

  -- The login that the host is configured for, keys not being verified only where it says so.
  abbrev pub Secure : ConnectKwargs → Type 0
  Secure k =
      Addressed k
      × (((k.known_hosts ≡ unverified) ↔ (cfg.strict_host_key_checking ≡ false))
          × (((is_password cfg.auth ≡ true) × ByPassword k)
              ⊎ ((is_password cfg.auth ≡ false) × ByKey k)))

  address_kwargs-Open : WhenOk Open (address_kwargs expand s cfg)
  address_kwargs-Open = decide cfg.use_ssh_config refl (guard_hostname_merge s cfg)
    where
      decide :
          (b : Bool)
          → cfg.use_ssh_config ≡ b
          → (o : Option ConnectFault)
          → WhenOk Open (
              if b
              then elim o [ some e ↦ err e | none ↦ ok (merged_kwargs expand s cfg) ]
              else ok (plain_kwargs expand cfg))
      decide true is (some e) = tt
      decide true is none =
          (inr (is, (refl, (refl, (refl, refl)))), (refl, (refl, (refl, (refl, refl)))))
      decide false is o =
          (inl (is, (refl, (refl, (refl, refl)))), (refl, (refl, (refl, (refl, refl)))))

  with_options-Open :
      (tunnel : Option (Option Text)) (k : ConnectKwargs)
      → Open k
      → Open (with_options cfg tunnel k)
  with_options-Open tunnel k before = before

  checked :
      (k : ConnectKwargs)
      → k.known_hosts ≡ known_hosts_arg expand cfg
      → (k.known_hosts ≡ unverified) ↔ (cfg.strict_host_key_checking ≡ false)
  checked k same = rw same (known_hosts_arg-unverified expand cfg)

  by_password :
      (k : ConnectKwargs)
      → Open k
      → is_password cfg.auth ≡ true
      → WhenOk Secure (resolve_ssh_password c cfg >>= λ pw. password_kwargs pw k)
  by_password k (at, (files, (_, (_, (bare, _))))) is = decide (resolve_ssh_password c cfg) refl
    where
      decide :
          (r : Result ConnectFault (Option Text))
          → resolve_ssh_password c cfg ≡ r
          → WhenOk Secure (r >>= λ pw. password_kwargs pw k)
      decide (err e) _ = tt
      decide (ok none) _ = tt
      decide (ok (some pw)) found =
          (at, (checked k files, inl (is, (pw, (found, (refl, (refl, bare)))))))

  by_key :
      (k : ConnectKwargs)
      → Open k
      → is_password cfg.auth ≡ false
      → WhenOk Secure (
          if only_agent cfg.use_ssh_agent
          then ok (key_kwargs cfg k)
          else resolve_ssh_passphrase c cfg >>= λ pp.
              ok (passphrase_kwargs cfg pp (key_kwargs cfg k)))
  by_key k (at, (files, (no_pw, (_, (bare, _))))) is =
      decide (only_agent cfg.use_ssh_agent) refl (resolve_ssh_passphrase c cfg) refl
    where
      keys :
          (b : Bool)
          → only_agent cfg.use_ssh_agent ≡ b
          → (if not (only_agent cfg.use_ssh_agent) && has_text cfg.key
              then some (cfg.key ∷ [])
              else none)
            ≡ (if not b && has_text cfg.key then some (cfg.key ∷ []) else none)
      keys b e = ap (λ x. if not x && has_text cfg.key then some (cfg.key ∷ []) else none) e

      decide :
          (b : Bool)
          → only_agent cfg.use_ssh_agent ≡ b
          → (r : Result ConnectFault (Option Text)) → resolve_ssh_passphrase c cfg ≡ r
          → WhenOk Secure (
              if b
              then ok (key_kwargs cfg k)
              else r >>= λ pp. ok (passphrase_kwargs cfg pp (key_kwargs cfg k)))
      decide true only r _ =
          (at, (checked k files, inr (is, (no_pw, inl (only, (keys true only, bare))))))
      decide false both (err e) _ = tt
      decide false both (ok none) asked = (
        at,
        (
          checked k files,
          inr (is, (no_pw, inr (both, (asked ∙ ap (λ o. ok o) (sym bare), keys false both)))),
        ),
      )
      decide false both (ok (some pp)) asked =
          (at, (checked k files, inr (is, (no_pw, inr (both, (asked, keys false both))))))

  login_kwargs-Secure : (k : ConnectKwargs) → Open k → WhenOk Secure (login_kwargs c cfg k)
  login_kwargs-Secure k before = decide (is_password cfg.auth) refl
    where
      decide :
          (b : Bool)
          → is_password cfg.auth ≡ b
          → WhenOk Secure (
              if b
              then (resolve_ssh_password c cfg >>= λ pw. password_kwargs pw k)
              else if only_agent cfg.use_ssh_agent
              then ok (key_kwargs cfg k)
              else resolve_ssh_passphrase c cfg >>= λ pp.
                  ok (passphrase_kwargs cfg pp (key_kwargs cfg k)))
      decide true is = by_password k before is
      decide false is = by_key k before is

  -- The arguments of the first attempt to connect: host keys go unchecked just where the host turns the check off; a
  -- host with password login passes the password that its chain gives and offers no key; any other passes
  -- no password; a merged host passes its port and user only where hosts.yaml sets them.
  pub build_connect_kwargs-Secure : WhenOk Secure (build_connect_kwargs expand lower s c cfg)
  unfolding build_connect_kwargs
  build_connect_kwargs-Secure =
      >>=-WhenOk Open Secure (address_kwargs expand s cfg)
        (λ kwargs. tunnel_of lower cfg.proxy_jump >>= λ tunnel.
          login_kwargs c cfg (with_options cfg tunnel kwargs))
        address_kwargs-Open (λ k before. jump k before (tunnel_of lower cfg.proxy_jump))
    where
      jump :
          (k : ConnectKwargs)
          → Open k
          → (t : Result ConnectFault (Option (Option Text)))
          → WhenOk Secure (t >>= λ tunnel. login_kwargs c cfg (with_options cfg tunnel k))
      jump k before (err e) = tt
      jump k before (ok tunnel) =
          login_kwargs-Secure (with_options cfg tunnel k) (with_options-Open tunnel k before)
