-- ===== src/Hosts/Registry.antt =====
-- The registry that `_load_registry` of portal_mcp_server/connection_manager.py leaves, and its list.
use portal_mcp_server.Base.{
  ◌≡◌, refl, ap, sym, ◌∙◌, Text, text_eq, text_eq_iff, text_has_eq, Bool, true, false, ◌||◌, Option,
  none, some, List, [], ◌∷◌, arith, if◌then◌else◌, Result, ok, err, WhenOk, ℤ, pos, codes, is_empty,
}
use portal_mcp_server.Base.Dicts.{Dict, lookup, insert, Unique, Unique-insert}
use portal_mcp_server.Safety.{normalize_host_name}
use portal_mcp_server.Hosts.{value_or, HostConfig, SshConfig, enumerate_ssh_config_aliases}
use portal_mcp_server.Hosts.Load.{
  ConfigWarning, RawHost, LoadFault, load_host, load_registry, null_number, config_of,
  load_warnings,
}
use portal_mcp_server.Hosts.Listing.{registry_names, list_hosts}
use portal_mcp_server.Hosts.Names.{is_among, Distinct, names_listed, list_hosts-Distinct}

-- Every host is kept under its own name.
abbrev Named : Dict Text HostConfig → Type 0
Named [] = Unit
Named ((k, h) ∷ registry) = (h.name ≡ k) × Named registry

Named-insert :
    (k : Text) (h : HostConfig) (registry : Dict Text HostConfig)
    → h.name ≡ k
    → Named registry
    → Named (insert k h registry)
unfolding insert
Named-insert k h [] same named = (same, tt)
Named-insert k h ((j, g) ∷ registry) same (first, named) =
    decide (Named-insert k h registry same named) (text_eq j k) refl
  where
    decide :
        Named (insert k h registry)
        → (b : Bool) → text_eq j k ≡ b
        → Named (if b then (j, h) ∷ registry else (j, g) ∷ insert k h registry)
    decide later true e = (same ∙ sym ((text_eq_iff j k).0 e), named)
    decide later false e = (first, later)

is_among-lookup :
    (n : Text) (registry : Dict Text HostConfig)
    → Named registry
    → lookup n registry ≡ none
    → is_among n (registry_names registry) ≡ false
unfolding lookup
is_among-lookup n [] named gone = refl
is_among-lookup n ((k, h) ∷ registry) (same, named) gone =
    ground (arith, is_among-lookup n registry named, ap (λ t. text_eq t n) same)

Distinct-registry_names :
    (registry : Dict Text HostConfig)
    → Named registry
    → Unique registry
    → Distinct (registry_names registry)
Distinct-registry_names [] named unique = tt
Distinct-registry_names ((k, h) ∷ registry) (same, named) (fresh, unique) = (
  is_among-lookup h.name registry named (rw same fresh),
  Distinct-registry_names registry named unique,
)

module _ (expand : Text → Text) (c : SshConfig) where
  abbrev NamedAs : Text → HostConfig × List ConfigWarning → Type 0
  NamedAs name (config, ws) = config.name ≡ name

  load_host-NamedAs :
      (raw_name : Text) (cfg : RawHost)
      → WhenOk (NamedAs (normalize_host_name raw_name)) (load_host expand c raw_name cfg)
  unfolding load_host
  load_host-NamedAs raw_name cfg =
      decide (value_or (pos 22) cfg.port) (value_or (pos 30) cfg.connect_timeout)
    where
      decide :
          (o q : Option ℤ)
          → WhenOk (NamedAs (normalize_host_name raw_name)) (elim o [
            | none ↦ err (null_number (codes "port"))
            | some port ↦ elim q [
              | none ↦ err (null_number (codes "connect_timeout"))
              | some limit ↦ ok (
                config_of expand (normalize_host_name raw_name) cfg port limit,
                load_warnings c (normalize_host_name raw_name) cfg,
              )
            ]
          ])
      decide none q = tt
      decide (some port) none = tt
      decide (some port) (some limit) = refl

  -- What the loop keeps of the registry.
  abbrev Loaded : Dict Text HostConfig × Dict Text (List ConfigWarning) → Type 0
  Loaded (registry, warned) = Named registry × Unique registry

  load_registry-Loaded :
      (hosts : List (Text × RawHost)) (registry : Dict Text HostConfig)
      (warned : Dict Text (List ConfigWarning))
      → Named registry
      → Unique registry
      → WhenOk Loaded (load_registry expand c hosts registry warned)
  unfolding load_registry
  load_registry-Loaded [] registry warned named unique = (named, unique)
  load_registry-Loaded ((raw_name, cfg) ∷ hosts) registry warned named unique =
      decide (load_host expand c raw_name cfg) (load_host-NamedAs raw_name cfg) (λ config ws same.
        load_registry-Loaded hosts (insert (normalize_host_name raw_name) config registry)
          (if is_empty ws then warned else insert (normalize_host_name raw_name) ws warned)
          (Named-insert (normalize_host_name raw_name) config registry same named)
          (Unique-insert (normalize_host_name raw_name) config registry unique))
    where
      decide :
          (r : Result LoadFault (HostConfig × List ConfigWarning))
          → WhenOk (NamedAs (normalize_host_name raw_name)) r
          → ((config : HostConfig) (ws : List ConfigWarning)
              → config.name ≡ normalize_host_name raw_name
              → WhenOk Loaded (
                  load_registry expand c hosts
                    (insert (normalize_host_name raw_name) config registry)
                    (if is_empty ws
                      then warned
                      else insert (normalize_host_name raw_name) ws warned)))
          → WhenOk Loaded (elim r [
            | err e ↦ err e
            | ok (config, ws) ↦
                load_registry expand c hosts
                  (insert (normalize_host_name raw_name) config registry)
                  (if is_empty ws then warned else insert (normalize_host_name raw_name) ws warned)
          ])
      decide (err e) _ later = tt
      decide (ok (config, ws)) same later = later config ws same

  -- The list names every host once, those that are loaded and those of the ssh config files.
  abbrev pub ListsOnce : Dict Text HostConfig × Dict Text (List ConfigWarning) → Type 0
  ListsOnce (registry, warned) =
      Distinct (names_listed (list_hosts c registry warned))
      × ((n : Text)
          → is_among n (names_listed (list_hosts c registry warned))
            ≡ (is_among n (registry_names registry) || is_among n (enumerate_ssh_config_aliases c)))

  -- Of the hosts that are loaded from hosts.yaml, whatever it says, and the aliases of the ssh config
  -- files the list names each, no other, and none twice.
  pub load_registry-ListsOnce :
      (hosts : List (Text × RawHost)) → WhenOk ListsOnce (load_registry expand c hosts [] [])
  load_registry-ListsOnce hosts =
      decide (load_registry expand c hosts [] []) (load_registry-Loaded hosts [] [] tt tt)
    where
      decide :
          (r : Result LoadFault (Dict Text HostConfig × Dict Text (List ConfigWarning)))
          → WhenOk Loaded r
          → WhenOk ListsOnce r
      decide (err e) kept = tt
      decide (ok (registry, warned)) (named, unique) =
          list_hosts-Distinct c registry warned (Distinct-registry_names registry named unique)
