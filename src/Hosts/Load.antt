-- ===== src/Hosts/Load.antt =====
-- How `_load_registry` of portal_mcp_server/connection_manager.py reads one host of hosts.yaml.
use portal_mcp_server.Base.{
  ℤ, pos, Text, text_eq, text_has_eq, codes, strip, Bool, true, false, not, ◌&&◌, Option, none,
  some, List, [], ◌∷◌, ◌++◌, is_empty, if◌then◌else◌, Result, ok, err,
}
use portal_mcp_server.Base.Dicts.{Dict, insert}
use portal_mcp_server.Safety.{normalize_host_name}
use portal_mcp_server.Hosts.{
  hosts_yaml, HostConfig, Field, absent, null, set_to, value_of, value_or, is_present, SshConfig,
  has_ssh_config_alias, resolve_ssh_config_fields, text_or, resolve_path,
}

-- One mapping under `hosts:`.
pub record RawHost : Type 0 where
  pub host : Field Text
  pub port : Field ℤ
  pub user : Field Text
  pub key : Field Text
  pub connect_timeout : Field ℤ
  pub known_hosts : Field Text
  pub strict_host_key_checking : Field Bool
  pub tags : Field (List Text)
  pub use_ssh_config : Field Bool
  pub auth : Field Text
  pub password : Field Text
  pub password_command : Field Text
  pub passphrase_command : Field Text
  pub sudo_password_command : Field Text
  pub sudo_password_same_as_ssh : Field Bool
  pub proxy_jump : Field Text
  pub keepalive_interval : Field ℤ
  pub forward_agent : Field Bool
  pub use_ssh_agent : Field Bool
  pub login_shell : Field Bool

-- What `list_hosts` warns of.
pub data ConfigWarning : Type 0 where
  plaintext_password no_password_command empty_proxy_jump no_such_alias in_both : ConfigWarning
  unknown_auth : Text → ConfigWarning
  hosts_disagree : Text → Text → ConfigWarning

-- A number that is null cannot be converted.
pub data LoadFault : Type 0 where
  null_number : Text → LoadFault

abbrev warn_if : Bool → ConfigWarning → List ConfigWarning
warn_if b w = if b then w ∷ [] else []

-- `bool(cfg.get(key, default))`; null is false.
abbrev pub flag_or : Bool → Field Bool → Bool
flag_or d absent = d
flag_or d null = false
flag_or d (set_to b) = b

-- Whether there is a text that is not empty.
abbrev pub has_text : Option Text → Bool
has_text none = false
has_text (some t) = not (is_empty t)

-- The mode as it is kept, and the warning where it is not known.
abbrev pub checked_auth : Option Text → Option Text × List ConfigWarning
checked_auth none = (none, [])
checked_auth (some mode) =
    if text_eq mode (codes "password") then (some mode, []) else (none, unknown_auth mode ∷ [])

-- Whether the mode asks for a password.
abbrev pub is_password : Option Text → Bool
is_password none = false
is_password (some mode) = text_eq mode (codes "password")

-- Present, and nothing but spaces.
abbrev pub is_blank_jump : Field Text → Bool
is_blank_jump absent = false
is_blank_jump null = true
is_blank_jump (set_to t) = is_empty (strip t)

-- The jump as it is kept: one that is blank is the empty text.
abbrev pub checked_jump : Field Text → Option Text
checked_jump field = if is_blank_jump field then some [] else value_of field

-- `_overlay_warnings`
abbrev pub overlay_warnings : SshConfig → Text → Bool → List ConfigWarning
overlay_warnings c name use_ssh_config =
    if use_ssh_config && not (has_ssh_config_alias c name)
    then no_such_alias ∷ []
    else if not use_ssh_config && has_ssh_config_alias c name
    then in_both ∷ []
    else []

-- The warning where the host differs from that of the alias.
abbrev pub merge_warnings : SshConfig → Text → Bool → Option Text → List ConfigWarning
merge_warnings c name use_ssh_config none = []
merge_warnings c name use_ssh_config (some h) =
    let shown = resolve_ssh_config_fields c name in
    if use_ssh_config
      && (not (is_empty h) && (not (is_empty shown.host) && not (text_eq h shown.host)))
    then hosts_disagree h shown.host ∷ []
    else []

-- The fields of a mapping, each with whether it is there.
abbrev pub key_table : RawHost → List (Text × Bool)
key_table cfg =
    (codes "host", is_present cfg.host)
    ∷ (codes "port", is_present cfg.port)
    ∷ (codes "user", is_present cfg.user)
    ∷ (codes "key", is_present cfg.key)
    ∷ (codes "connect_timeout", is_present cfg.connect_timeout)
    ∷ (codes "known_hosts", is_present cfg.known_hosts)
    ∷ (codes "strict_host_key_checking", is_present cfg.strict_host_key_checking)
    ∷ (codes "tags", is_present cfg.tags)
    ∷ (codes "use_ssh_config", is_present cfg.use_ssh_config)
    ∷ (codes "auth", is_present cfg.auth)
    ∷ (codes "password", is_present cfg.password)
    ∷ (codes "password_command", is_present cfg.password_command)
    ∷ (codes "passphrase_command", is_present cfg.passphrase_command)
    ∷ (codes "sudo_password_command", is_present cfg.sudo_password_command)
    ∷ (codes "sudo_password_same_as_ssh", is_present cfg.sudo_password_same_as_ssh)
    ∷ (codes "proxy_jump", is_present cfg.proxy_jump)
    ∷ (codes "keepalive_interval", is_present cfg.keepalive_interval)
    ∷ (codes "forward_agent", is_present cfg.forward_agent)
    ∷ (codes "use_ssh_agent", is_present cfg.use_ssh_agent)
    ∷ (codes "login_shell", is_present cfg.login_shell)
    ∷ []

abbrev pub present_names : List (Text × Bool) → List Text
present_names [] = []
present_names ((name, is_there) ∷ fields) =
    if is_there then name ∷ present_names fields else present_names fields

-- `frozenset(cfg.keys())`, for the keys that have a field.
abbrev pub keys_of : RawHost → List Text
keys_of cfg = present_names (key_table cfg)

-- The warnings for one host, in their order.
abbrev pub load_warnings : SshConfig → Text → RawHost → List ConfigWarning
load_warnings c name cfg =
    let use_ssh_config = flag_or false cfg.use_ssh_config in
    warn_if (is_present cfg.password) plaintext_password
    ++ warn_if (is_password (value_of cfg.auth) && not (has_text (value_of cfg.password_command)))
        no_password_command
    ++ (checked_auth (value_of cfg.auth)).1
    ++ warn_if (is_blank_jump cfg.proxy_jump) empty_proxy_jump
    ++ overlay_warnings c name use_ssh_config
    ++ merge_warnings c name use_ssh_config (value_of cfg.host)

-- The configuration of one host. Tags that are null are taken as none; Python keeps the null.
abbrev pub config_of : (Text → Text) → Text → RawHost → ℤ → ℤ → HostConfig
config_of expand name cfg port connect_timeout = record {
  name = name;
  host = text_or name (value_of cfg.host);
  port = port;
  user = value_or (codes "root") cfg.user;
  key = resolve_path expand (value_of cfg.key);
  connect_timeout = connect_timeout;
  known_hosts = value_of cfg.known_hosts;
  strict_host_key_checking = flag_or true cfg.strict_host_key_checking;
  tags = elim cfg.tags [ absent ↦ [] | null ↦ [] | set_to ts ↦ ts ];
  use_ssh_config = flag_or false cfg.use_ssh_config;
  auth = (checked_auth (value_of cfg.auth)).0;
  password_command = value_of cfg.password_command;
  passphrase_command = value_of cfg.passphrase_command;
  sudo_password_command = value_of cfg.sudo_password_command;
  sudo_password_same_as_ssh = flag_or false cfg.sudo_password_same_as_ssh;
  proxy_jump = checked_jump cfg.proxy_jump;
  keepalive_interval = value_of cfg.keepalive_interval;
  forward_agent = value_of cfg.forward_agent;
  use_ssh_agent = value_of cfg.use_ssh_agent;
  login_shell = value_of cfg.login_shell;
  source = hosts_yaml;
  specified_fields = keys_of cfg;
}

-- One turn of the loop of `_load_registry`.
unfoldable pub load_host :
    (Text → Text) → SshConfig → Text → RawHost → Result LoadFault (HostConfig × List ConfigWarning)
load_host expand c raw_name cfg =
    let name = normalize_host_name raw_name in
    elim (value_or (pos 22) cfg.port) [
      | none ↦ err (null_number (codes "port"))
      | some port ↦ elim (value_or (pos 30) cfg.connect_timeout) [
        | none ↦ err (null_number (codes "connect_timeout"))
        | some limit ↦ ok (config_of expand name cfg port limit, load_warnings c name cfg)
      ]
    ]

-- The loop of `_load_registry`, over the hosts of hosts.yaml.
unfoldable pub load_registry :
    (Text → Text)
    → SshConfig
    → List (Text × RawHost)
    → Dict Text HostConfig
    → Dict Text (List ConfigWarning)
    → Result LoadFault (Dict Text HostConfig × Dict Text (List ConfigWarning))
load_registry expand c [] registry warned = ok (registry, warned)
load_registry expand c ((raw_name, cfg) ∷ hosts) registry warned =
    let name = normalize_host_name raw_name in
    elim (load_host expand c raw_name cfg) [
      | err e ↦ err e
      | ok (config, ws) ↦
          load_registry expand c hosts (insert name config registry)
            (if is_empty ws then warned else insert name ws warned)
    ]
