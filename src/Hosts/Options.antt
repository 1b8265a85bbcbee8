-- ===== src/Hosts/Options.antt =====
-- The options that portal_mcp_server/connection_manager.py hands to asyncssh: `_build_connect_kwargs` and
-- the chains of credentials that it asks.
use portal_mcp_server.Base.{
  ℤ, pos, Text, text_eq, text_has_eq, ◌==◌, codes, strip, Bool, true, false, not, ◌&&◌, Option,
  none, some, List, [], ◌∷◌, any, is_empty, if◌then◌else◌, Result, ok, err, ◌>>=◌,
}
use portal_mcp_server.Hosts.{
  HostConfig, SshConfig, resolve_ssh_config_fields, resolve_path, has_ssh_config_alias, ssh_config,
}
use portal_mcp_server.Hosts.Load.{is_password, has_text}

-- The argument `known_hosts` of asyncssh.
pub data KnownHosts : Type 0 where
  default_files unverified : KnownHosts
  in_file : Option Text → KnownHosts

-- `_known_hosts_arg`
abbrev pub known_hosts_arg : (Text → Text) → HostConfig → KnownHosts
known_hosts_arg expand cfg =
    if not cfg.strict_host_key_checking
    then unverified
    else if has_text cfg.known_hosts
    then in_file (resolve_path expand cfg.known_hosts)
    else default_files

-- The arguments of `asyncssh.connect`; `none` is one that is not passed.
pub record ConnectKwargs : Type 0 where
  pub host : Text
  pub port : Option ℤ
  pub username : Option (Option Text)
  pub connect_timeout : ℤ
  pub known_hosts : KnownHosts
  pub config : Option (List Text)
  pub tunnel : Option (Option Text)
  pub keepalive_interval : Option ℤ
  pub agent_forwarding : Option Bool
  pub password : Option Text
  pub client_keys : Option (List (Option Text))
  pub agent_off : Bool
  pub passphrase : Option Text
  pub ignore_encrypted : Bool

-- Why no connection is made.
pub data ConnectFault : Type 0 where
  hosts_differ : Text → Text → ConnectFault
  empty_jump no_password_source : ConnectFault
  command_failed : Text → ConnectFault

-- What the caches hold for the host, and what becomes of a command.
pub record Credentials : Type 0 where
  pub cached_password : Option Text
  pub agent_password : Option Text
  pub cached_passphrase : Option Text
  pub agent_passphrase : Option Text
  pub run : Text → Result Text Text

-- A local cache, the credential agent, and a command if it is not empty.
abbrev pub run_source : (Text → Result Text Text) → Option Text → Result ConnectFault (Option Text)
run_source run none = ok none
run_source run (some command) =
    if is_empty command
    then ok none
    else elim (run command) [ ok value ↦ ok (some value) | err e ↦ err (command_failed e) ]

abbrev pub resolve_chain :
    Option Text
    → Option Text
    → (Text → Result Text Text)
    → Option Text
    → Result ConnectFault (Option Text)
resolve_chain (some value) agent run command = ok (some value)
resolve_chain none (some value) run command = ok (some value)
resolve_chain none none run command = run_source run command

-- `_resolve_ssh_password`
abbrev pub resolve_ssh_password : Credentials → HostConfig → Result ConnectFault (Option Text)
resolve_ssh_password c cfg =
    resolve_chain c.cached_password c.agent_password c.run cfg.password_command

-- `_resolve_ssh_passphrase`
abbrev pub resolve_ssh_passphrase : Credentials → HostConfig → Result ConnectFault (Option Text)
resolve_ssh_passphrase c cfg =
    resolve_chain c.cached_passphrase c.agent_passphrase c.run cfg.passphrase_command

-- Whether hosts.yaml sets the field.
abbrev pub is_specified : Text → HostConfig → Bool
is_specified field cfg = any (λ f. f == field) cfg.specified_fields

-- `_guard_hostname_merge`
abbrev pub guard_hostname_merge : SshConfig → HostConfig → Option ConnectFault
guard_hostname_merge s cfg =
    let shown = resolve_ssh_config_fields s cfg.name in
    if is_specified (codes "host") cfg
      && (not (is_empty shown.host) && not (text_eq cfg.host shown.host))
    then some (hosts_differ cfg.host shown.host)
    else none

-- The arguments for the address.
abbrev pub merged_kwargs : (Text → Text) → SshConfig → HostConfig → ConnectKwargs
merged_kwargs expand s cfg = record {
  host = cfg.name;
  port = if is_specified (codes "port") cfg then some cfg.port else none;
  username = if is_specified (codes "user") cfg then some cfg.user else none;
  connect_timeout = cfg.connect_timeout;
  known_hosts = known_hosts_arg expand cfg;
  config = some s.files;
  tunnel = none;
  keepalive_interval = none;
  agent_forwarding = none;
  password = none;
  client_keys = none;
  agent_off = false;
  passphrase = none;
  ignore_encrypted = false;
}

abbrev pub plain_kwargs : (Text → Text) → HostConfig → ConnectKwargs
plain_kwargs expand cfg = record {
  host = cfg.host;
  port = some cfg.port;
  username = some cfg.user;
  connect_timeout = cfg.connect_timeout;
  known_hosts = known_hosts_arg expand cfg;
  config = none;
  tunnel = none;
  keepalive_interval = none;
  agent_forwarding = none;
  password = none;
  client_keys = none;
  agent_off = false;
  passphrase = none;
  ignore_encrypted = false;
}

abbrev pub address_kwargs :
    (Text → Text) → SshConfig → HostConfig → Result ConnectFault ConnectKwargs
address_kwargs expand s cfg =
    if cfg.use_ssh_config
    then elim (guard_hostname_merge s cfg) [
      | some e ↦ err e
      | none ↦ ok (merged_kwargs expand s cfg)
    ]
    else ok (plain_kwargs expand cfg)

-- The jump: not set, forced off, refused, or a host.
abbrev pub tunnel_of : (Text → Text) → Option Text → Result ConnectFault (Option (Option Text))
tunnel_of lower none = ok none
tunnel_of lower (some jump) =
    if is_empty (strip jump)
    then err empty_jump
    else if text_eq (lower (strip jump)) (codes "none")
    then ok (some none)
    else ok (some (some jump))

-- The arguments with the jump, the keep-alive and the forwarding.
abbrev pub with_options : HostConfig → Option (Option Text) → ConnectKwargs → ConnectKwargs
with_options cfg tunnel kwargs = record kwargs {
  tunnel = tunnel;
  keepalive_interval = cfg.keepalive_interval;
  agent_forwarding = cfg.forward_agent;
}

-- The arguments for a password.
abbrev pub password_kwargs : Option Text → ConnectKwargs → Result ConnectFault ConnectKwargs
password_kwargs none kwargs = err no_password_source
password_kwargs (some pw) kwargs = ok (record kwargs { password = some pw; client_keys = some [] })

-- Whether the agent is to be used: not said, only the agent, or not at all.
abbrev pub only_agent : Option Bool → Bool
only_agent none = false
only_agent (some b) = b

abbrev pub never_agent : Option Bool → Bool
never_agent none = false
never_agent (some b) = not b

-- The arguments for keys, before the passphrase.
abbrev pub key_kwargs : HostConfig → ConnectKwargs → ConnectKwargs
key_kwargs cfg kwargs = record kwargs {
  agent_off = never_agent cfg.use_ssh_agent;
  client_keys =
      if not (only_agent cfg.use_ssh_agent) && has_text cfg.key then some (cfg.key ∷ []) else none;
}

-- The arguments for the passphrase that the chain gives, if any.
abbrev pub passphrase_kwargs : HostConfig → Option Text → ConnectKwargs → ConnectKwargs
passphrase_kwargs cfg (some pp) kwargs = record kwargs { passphrase = some pp }
passphrase_kwargs cfg none kwargs = record kwargs {
  ignore_encrypted = has_text cfg.key && not (never_agent cfg.use_ssh_agent);
}

-- The arguments for the way to log in.
abbrev pub login_kwargs :
    Credentials → HostConfig → ConnectKwargs → Result ConnectFault ConnectKwargs
login_kwargs c cfg kwargs =
    if is_password cfg.auth
    then (resolve_ssh_password c cfg >>= λ pw. password_kwargs pw kwargs)
    else if only_agent cfg.use_ssh_agent
    then ok (key_kwargs cfg kwargs)
    else (resolve_ssh_passphrase c cfg >>= λ pp.
        ok (passphrase_kwargs cfg pp (key_kwargs cfg kwargs)))

-- `_build_connect_kwargs`
unfoldable pub build_connect_kwargs :
    (Text → Text)
    → (Text → Text)
    → SshConfig
    → Credentials
    → HostConfig
    → Result ConnectFault ConnectKwargs
build_connect_kwargs expand lower s c cfg = address_kwargs expand s cfg >>= λ kwargs.
    tunnel_of lower cfg.proxy_jump >>= λ tunnel. login_kwargs c cfg (with_options cfg tunnel kwargs)

-- `_try_load_from_ssh_config`
abbrev pub try_load_from_ssh_config : SshConfig → Text → Option HostConfig
try_load_from_ssh_config s host_name =
    if not (has_ssh_config_alias s host_name)
    then none
    else some (record {
      name = host_name;
      host = host_name;
      port = pos 22;
      user = some (codes "root");
      key = none;
      connect_timeout = pos 30;
      known_hosts = none;
      strict_host_key_checking = true;
      tags = codes "ssh-config" ∷ [];
      use_ssh_config = true;
      auth = none;
      password_command = none;
      passphrase_command = none;
      sudo_password_command = none;
      sudo_password_same_as_ssh = false;
      proxy_jump = none;
      keepalive_interval = none;
      forward_agent = none;
      use_ssh_agent = none;
      login_shell = none;
      source = ssh_config;
      specified_fields = [];
    })
