-- ===== src/Hosts.antt =====
-- The hosts of portal_mcp_server/connection_manager.py: what hosts.yaml says of a host, the aliases of the
-- ssh config files, the list of hosts and the options of a connection. asyncssh's parser of ssh config
-- files is a parameter.
pub mod Load
pub mod Options
pub mod Listing
pub mod Names
pub mod Registry
pub mod Merge
pub mod Dial
pub mod Secure
use portal_mcp_server.Base.{
  ℕ, ◌+◌, ℤ, pos, negsuc, Text, text_eq, text_has_eq, ◌==◌, codes, strip, is_space, Bool, true,
  false, not, ◌&&◌, ◌||◌, Option, none, some, List, [], ◌∷◌, ◌++◌, map, any, is_empty, keep_if,
  nat_beq, leb, if◌then◌else◌, join,
}
use portal_mcp_server.Base.Dicts.{Dict, lookup}
use portal_mcp_server.Editor.Lines.{splitlines}

pub data Source : Type 0 where
  hosts_yaml runtime ssh_config : Source

-- `HostConfig`
pub record HostConfig : Type 0 where
  pub name : Text
  pub host : Text
  pub port : ℤ
  pub user : Option Text
  pub key : Option Text
  pub connect_timeout : ℤ
  pub known_hosts : Option Text
  pub strict_host_key_checking : Bool
  pub tags : List Text
  pub use_ssh_config : Bool
  pub auth : Option Text
  pub password_command : Option Text
  pub passphrase_command : Option Text
  pub sudo_password_command : Option Text
  pub sudo_password_same_as_ssh : Bool
  pub proxy_jump : Option Text
  pub keepalive_interval : Option ℤ
  pub forward_agent : Option Bool
  pub use_ssh_agent : Option Bool
  pub login_shell : Option Bool
  pub source : Source
  pub specified_fields : List Text

-- A field of a mapping in hosts.yaml. A value of another type than the field's is not modelled.
pub data Field (A : Type 0) : Type 0 where
  absent : Field A
  null : Field A
  set_to : A → Field A

-- `cfg.get(key)`
abbrev pub value_of : {A : Type 0} → Field A → Option A
value_of absent = none
value_of null = none
value_of (set_to x) = some x

-- `cfg.get(key, default)`
abbrev pub value_or : {A : Type 0} → A → Field A → Option A
value_or d absent = some d
value_or d null = none
value_or d (set_to x) = some x

-- `key in cfg`
abbrev pub is_present : {A : Type 0} → Field A → Bool
is_present absent = false
is_present null = true
is_present (set_to x) = true

-- What asyncssh's parser finds for a name: the options that mark a stanza of its own, and the three
-- that the list shows.
pub record Stanza : Type 0 where
  pub markers : List (Option Text)
  pub hostname : Option Text
  pub user : Option Text
  pub port : Option ℤ

-- The ssh config files: their texts, what asyncssh makes of them, if it can, and the local user.
pub record SshConfig : Type 0 where
  pub files : List Text
  pub contents : List (Option Text)
  pub stanza : Text → Option Stanza
  pub harvest : Option (List Text)
  pub login : Option Text

-- `_is_concrete_alias`
abbrev is_negated : Text → Bool
is_negated [] = false
is_negated (c ∷ s) = nat_beq c b'!'

unfoldable pub is_concrete_alias : Text → Bool
is_concrete_alias token =
    not (is_empty token)
    && (not (any (λ c. nat_beq c b'*' || nat_beq c b'?') token) && not (is_negated token))

abbrev push_char : ℕ → List Text → List Text
push_char c [] = (c ∷ []) ∷ []
push_char c (w ∷ ws) = (c ∷ w) ∷ ws

-- `s.split()`; the flag says that the character before is no space.
abbrev starts_space : Text → Bool
starts_space [] = true
starts_space (c ∷ s) = is_space c

unfoldable pub words : Text → List Text
words [] = []
words (c ∷ s) =
    let rest = words s in
    if is_space c then rest else if starts_space s then (c ∷ []) ∷ rest else push_char c rest

-- `c` without the case of a Latin letter; the long s (U+017F) is an `s` then.
abbrev fold_char : ℕ → ℕ
fold_char c = if leb b'A' c && leb c b'Z' then c + 32 else if nat_beq c 383 then b's' else c

-- The rest after `Host` and a space, for `^Host\s+(.+)$` without case.
abbrev pub after_host : Text → Option Text
after_host (h ∷ o ∷ s ∷ t ∷ c ∷ rest) =
    if text_eq (map fold_char (h ∷ o ∷ s ∷ t ∷ [])) (codes "host") && is_space c
    then some rest
    else none
after_host _ = none

abbrev is_comment : Text → Bool
is_comment [] = true
is_comment (c ∷ s) = nat_beq c b'#'

-- The aliases of one line.
abbrev pub line_aliases : Text → List Text
line_aliases line =
    let s = strip line in
    if is_comment s
    then []
    else elim (after_host s) [ none ↦ [] | some rest ↦ keep_if is_concrete_alias (words rest) ]

-- `_regex_harvest_aliases`; a file that cannot be read has no text.
unfoldable pub regex_harvest_aliases : List (Option Text) → List Text
regex_harvest_aliases [] = []
regex_harvest_aliases (none ∷ files) = regex_harvest_aliases files
regex_harvest_aliases (some content ∷ files) =
    join (map line_aliases (splitlines content)) ++ regex_harvest_aliases files

abbrev pub sentinel : Text
sentinel = codes "zz-portal-mcp-sentinel-9d3f-no-such-host"

abbrev marker_eq : Option Text → Option Text → Bool
marker_eq none none = true
marker_eq (some a) (some b) = text_eq a b
marker_eq none (some b) = false
marker_eq (some a) none = false

abbrev markers_eq : List (Option Text) → List (Option Text) → Bool
markers_eq [] [] = true
markers_eq (a ∷ xs) (b ∷ ys) = marker_eq a b && markers_eq xs ys
markers_eq [] (b ∷ ys) = false
markers_eq (a ∷ xs) [] = false

-- `has_ssh_config_alias`
unfoldable pub has_ssh_config_alias : SshConfig → Text → Bool
has_ssh_config_alias c name = if is_empty c.files then false else elim (c.stanza sentinel) [
  | none ↦ any (λ a. a == name) (regex_harvest_aliases c.contents)
  | some base ↦ elim (c.stanza name) [
    | none ↦ any (λ a. a == name) (regex_harvest_aliases c.contents)
    | some found ↦ not (markers_eq found.markers base.markers)
  ]
]

-- The loop of `enumerate_ssh_config_aliases`: concrete aliases, each once.
unfoldable pub distinct_aliases : List Text → List Text → List Text
distinct_aliases seen [] = []
distinct_aliases seen (t ∷ ts) =
    let later = distinct_aliases seen ts in
    let rest = distinct_aliases (t ∷ seen) ts in
    if is_concrete_alias t && not (any (λ a. a == t) seen) then t ∷ rest else later

-- `enumerate_ssh_config_aliases`
abbrev pub enumerate_ssh_config_aliases : SshConfig → List Text
enumerate_ssh_config_aliases c =
    if is_empty c.files
    then []
    else distinct_aliases []
        (elim c.harvest [ none ↦ regex_harvest_aliases c.contents | some raw ↦ raw ])

-- What the list shows of a connection.
pub record Shown : Type 0 where
  pub host : Text
  pub user : Text
  pub port : ℤ

-- The text, if there is one that is not empty, else the other.
abbrev pub text_or : Text → Option Text → Text
text_or d none = d
text_or d (some t) = if is_empty t then d else t

-- `value or 22`
abbrev pub port_or_22 : Option ℤ → ℤ
port_or_22 none = pos 22
port_or_22 (some (pos n)) = if nat_beq n 0 then pos 22 else pos n
port_or_22 (some (negsuc n)) = negsuc n

-- `_resolve_ssh_config_fields`
abbrev pub login_user : SshConfig → Text
login_user c = elim c.login [ none ↦ codes "root" | some u ↦ u ]

abbrev pub resolve_ssh_config_fields : SshConfig → Text → Shown
resolve_ssh_config_fields c name = elim (if is_empty c.files then none else c.stanza name) [
  | none ↦ record { host = name; user = login_user c; port = pos 22 }
  | some s ↦ record {
    host = text_or name s.hostname;
    user = text_or (login_user c) s.user;
    port = port_or_22 s.port;
  }
]

-- `_resolve_path`; `expand` is `expanduser` on a path that is not empty.
abbrev pub resolve_path : (Text → Text) → Option Text → Option Text
resolve_path expand none = none
resolve_path expand (some p) = if is_empty p then none else some (expand p)
