-- ===== src/Tests/HostRuns.antt =====
-- portal_mcp_server/connection_manager.py's hosts: two of hosts.yaml, and an ssh config file.
use portal_mcp_server.Base.{
  pos, ◌≡◌, refl, Text, codes, true, false, [], ◌∷◌, Option, none, some, ok, err, WhenOk, text_eq,
  strip, lstrip,
}
use portal_mcp_server.Editor.Lines.{splitlines}
use portal_mcp_server.Hosts.{
  HostConfig, SshConfig, Stanza, absent, null, set_to, regex_harvest_aliases, words,
  is_concrete_alias, distinct_aliases, enumerate_ssh_config_aliases,
}
use portal_mcp_server.Hosts.Load.{RawHost, load_registry, config_of}
use portal_mcp_server.Hosts.Options.{
  Credentials, ConnectKwargs, default_files, build_connect_kwargs,
}
use portal_mcp_server.Hosts.Dial.{ConnectReply, accepted, permission_denied, opened, dial}
use portal_mcp_server.Hosts.Registry.{ListsOnce, load_registry-ListsOnce}
use portal_mcp_server.Hosts.Merge.{
  WhenLoaded, Deferred, Refused, load_and_connect-Deferred, load_and_connect-Refused,
}

abbrev as_is : Text → Text
as_is s = s

abbrev config_text : Text
config_text = codes "# all\nHost web db *.org !x\n  User me\nhost  web\n"

abbrev stanza_of : Text → Option Stanza
stanza_of name = none

abbrev config_files : SshConfig
config_files = record {
  files = codes "config" ∷ [];
  contents = none ∷ some config_text ∷ [];
  stanza = stanza_of;
  harvest = none;
  login = none;
}

-- Patterns and negations are no aliases.
harvested :
    regex_harvest_aliases config_files.contents ≡ codes "web" ∷ codes "db" ∷ codes "web" ∷ []
unfolding regex_harvest_aliases words is_concrete_alias splitlines strip lstrip text_eq
harvested = refl

listed_once : enumerate_ssh_config_aliases config_files ≡ codes "web" ∷ codes "db" ∷ []
unfolding regex_harvest_aliases words is_concrete_alias distinct_aliases splitlines strip lstrip
    text_eq
listed_once = refl

abbrev raw : RawHost
raw = record {
  host = absent;
  port = absent;
  user = set_to (codes "me");
  key = absent;
  connect_timeout = absent;
  known_hosts = absent;
  strict_host_key_checking = absent;
  tags = absent;
  use_ssh_config = set_to true;
  auth = set_to (codes "password");
  password = absent;
  password_command = absent;
  passphrase_command = absent;
  sudo_password_command = absent;
  sudo_password_same_as_ssh = absent;
  proxy_jump = absent;
  keepalive_interval = absent;
  forward_agent = absent;
  use_ssh_agent = absent;
  login_shell = absent;
}

abbrev blank_jump : RawHost
blank_jump = record raw { proxy_jump = null }

abbrev credentials : Credentials
credentials = record {
  cached_password = none;
  agent_password = some (codes "pw");
  cached_passphrase = none;
  agent_passphrase = none;
  run = λ command. err command;
}

-- The port is left to the ssh config file, and no key is offered.
abbrev expected : ConnectKwargs
expected = record {
  host = codes "web";
  port = none;
  username = some (some (codes "me"));
  connect_timeout = pos 30;
  known_hosts = default_files;
  config = some (codes "config" ∷ []);
  tunnel = none;
  keepalive_interval = none;
  agent_forwarding = none;
  password = some (codes "pw");
  client_keys = some [];
  agent_off = false;
  passphrase = none;
  ignore_encrypted = false;
}

abbrev web : HostConfig
web = config_of as_is (codes "web") raw (pos 22) (pos 30)

connected : build_connect_kwargs as_is as_is config_files credentials web ≡ ok expected
unfolding build_connect_kwargs text_eq
connected = refl

-- The same host without password login, whose keys are denied.
abbrev keyed : HostConfig
keyed = config_of as_is (codes "web") (record raw { auth = absent }) (pos 22) (pos 30)

abbrev only_password : ConnectKwargs → ConnectReply
only_password k = elim k.password [ none ↦ permission_denied | some pw ↦ accepted ]

dials_twice :
    dial as_is as_is config_files credentials credentials keyed only_password
    ≡ (record expected { password = none; client_keys = none } ∷ expected ∷ [], opened)
unfolding dial build_connect_kwargs text_eq
dials_twice = refl

load_registry-ListsOnce_example :
    WhenOk (ListsOnce as_is config_files) (
      load_registry as_is config_files ((codes "web ", raw) ∷ (codes "lab", blank_jump) ∷ []) [] [])
load_registry-ListsOnce_example =
    load_registry-ListsOnce as_is config_files
      ((codes "web ", raw) ∷ (codes "lab", blank_jump) ∷ [])

load_and_connect-Deferred_example :
    WhenLoaded as_is as_is config_files credentials
      (codes "web ")
      raw
      (WhenOk (Deferred as_is as_is config_files credentials (codes "web ") raw))
load_and_connect-Deferred_example =
    load_and_connect-Deferred as_is as_is config_files credentials (codes "web ") raw refl

load_and_connect-Refused_example :
    WhenLoaded as_is as_is config_files credentials
      (codes "lab")
      blank_jump
      (Refused as_is as_is config_files credentials (codes "lab") blank_jump)
load_and_connect-Refused_example =
    load_and_connect-Refused as_is as_is config_files credentials (codes "lab") blank_jump refl
