-- ===== src/Hosts/Listing.antt =====
-- `list_hosts` of portal_mcp_server/connection_manager.py, and the questions about one host.
use portal_mcp_server.Base.{
  ℤ, Text, text_eq, text_has_eq, ◌==◌, codes, strip, Bool, true, false, not, Option, none, some,
  List, [], ◌∷◌, ◌++◌, any, if◌then◌else◌, Result, ok,
}
use portal_mcp_server.Base.Dicts.{Dict, lookup}
use portal_mcp_server.Safety.{normalize_host_name}
use portal_mcp_server.Hosts.{
  Source, hosts_yaml, runtime, ssh_config, HostConfig, SshConfig, resolve_ssh_config_fields,
  enumerate_ssh_config_aliases, has_ssh_config_alias,
}
use portal_mcp_server.Hosts.Load.{ConfigWarning}
use portal_mcp_server.Hosts.Options.{ConnectFault, run_source}

-- `_display_source`
abbrev pub source_label : Source → Text
source_label hosts_yaml = codes "hosts.yaml"
source_label runtime = codes "runtime"
source_label ssh_config = codes "ssh-config"

abbrev pub display_source : Source → Bool → Text
display_source ssh_config merged = source_label ssh_config
display_source hosts_yaml merged =
    if merged then source_label hosts_yaml ++ codes "+ssh-config" else source_label hosts_yaml
display_source runtime merged =
    if merged then source_label runtime ++ codes "+ssh-config" else source_label runtime

-- An element of the list; no warnings are an empty list.
pub record HostEntry : Type 0 where
  pub name : Text
  pub host : Text
  pub port : ℤ
  pub user : Option Text
  pub tags : List Text
  pub source : Text
  pub warnings : List ConfigWarning

-- The entry of a registered host.
abbrev pub registry_entry : SshConfig → Dict Text (List ConfigWarning) → HostConfig → HostEntry
registry_entry c warned h =
    let shown = resolve_ssh_config_fields c h.name in
    record {
      name = h.name;
      host = if h.use_ssh_config then shown.host else h.host;
      port = if h.use_ssh_config then shown.port else h.port;
      user = if h.use_ssh_config then some shown.user else h.user;
      tags = h.tags;
      source = display_source h.source h.use_ssh_config;
      warnings = elim (lookup h.name warned) [ none ↦ [] | some ws ↦ ws ];
    }

-- The entry of an alias.
abbrev pub alias_entry : SshConfig → Text → HostEntry
alias_entry c name =
    let shown = resolve_ssh_config_fields c name in
    record {
      name = name;
      host = shown.host;
      port = shown.port;
      user = some shown.user;
      tags = codes "ssh-config" ∷ [];
      source = codes "ssh-config";
      warnings = [];
    }

-- The entries of the aliases whose names are not seen.
unfoldable pub add_aliases : SshConfig → List Text → List Text → List HostEntry
add_aliases c seen [] = []
add_aliases c seen (n ∷ ns) =
    let skipped = add_aliases c seen ns in
    let rest = add_aliases c (n ∷ seen) ns in
    if any (λ m. m == n) seen then skipped else alias_entry c n ∷ rest

-- The names of the registry's hosts.
abbrev pub registry_names : Dict Text HostConfig → List Text
registry_names [] = []
registry_names ((_, h) ∷ registry) = h.name ∷ registry_names registry

abbrev pub registry_entries :
    SshConfig → Dict Text (List ConfigWarning) → Dict Text HostConfig → List HostEntry
registry_entries c warned [] = []
registry_entries c warned ((_, h) ∷ registry) =
    registry_entry c warned h ∷ registry_entries c warned registry

-- `list_hosts`
unfoldable pub list_hosts :
    SshConfig → Dict Text HostConfig → Dict Text (List ConfigWarning) → List HostEntry
list_hosts c registry warned =
    registry_entries c warned registry
    ++ add_aliases c (registry_names registry) (enumerate_ssh_config_aliases c)

-- `knows_host`
abbrev pub knows_host : SshConfig → Dict Text HostConfig → Text → Bool
knows_host c registry name = elim (lookup (normalize_host_name name) registry) [
  | some h ↦ true
  | none ↦ has_ssh_config_alias c name
]

-- `should_cache_ssh_password_as_sudo`
abbrev pub should_cache_ssh_password_as_sudo : Dict Text HostConfig → Text → Bool
should_cache_ssh_password_as_sudo registry name =
    elim (lookup (normalize_host_name name) registry) [
      | some h ↦ h.sudo_password_same_as_ssh
      | none ↦ false
    ]

-- `login_shell_for`
abbrev pub login_shell_for : Dict Text HostConfig → Text → Option Bool
login_shell_for registry name = elim (lookup (normalize_host_name name) registry) [
  | some h ↦ h.login_shell
  | none ↦ none
]

-- `sudo_password_command_for`; `local_command` is that of the section `<local>`.
abbrev pub sudo_password_command_for :
    (Text → Result Text Text)
    → Option Text
    → Dict Text HostConfig
    → Text
    → Result ConnectFault (Option Text)
sudo_password_command_for run local_command registry raw_name =
    let name = normalize_host_name raw_name in
    if text_eq name (codes "<local>")
    then run_source run local_command
    else elim (lookup name registry) [
      | none ↦ ok none
      | some h ↦ run_source run h.sudo_password_command
    ]

-- `_login_shell_default` of portal_mcp_server/cli.py, for the value of PORTAL_LOGIN_SHELL.
abbrev pub login_shell_default : (Text → Text) → Text → Bool
login_shell_default lower raw = not (
    any (λ word. word == lower (strip raw))
      (codes "0" ∷ codes "false" ∷ codes "no" ∷ codes "off" ∷ []))

-- `_resolve_login` of portal_mcp_server/cli.py
abbrev pub resolve_login : (Text → Text) → Text → Dict Text HostConfig → Option Bool → Text → Bool
resolve_login lower raw registry (some login) host = login
resolve_login lower raw registry none host = elim (login_shell_for registry host) [
  | some b ↦ b
  | none ↦ login_shell_default lower raw
]
