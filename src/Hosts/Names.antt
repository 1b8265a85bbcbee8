-- ===== src/Hosts/Names.antt =====
-- The names that `list_hosts` of portal_mcp_server/connection_manager.py lists.
use portal_mcp_server.Base.{
  ◌≡◌, refl, ap, ◌∙◌, Text, text_eq, text_eq_iff, text_has_eq, ◌==◌, Bool, true, false, not, ◌&&◌,
  ◌||◌, List, [], ◌∷◌, ◌++◌, any, arith,
}
use portal_mcp_server.Base.Dicts.{Dict}
use portal_mcp_server.Hosts.{HostConfig, SshConfig, enumerate_ssh_config_aliases}
use portal_mcp_server.Hosts.Load.{ConfigWarning}
use portal_mcp_server.Hosts.Listing.{
  HostEntry, add_aliases, registry_names, registry_entries, list_hosts,
}

-- Whether the name is among the names.
abbrev pub is_among : Text → List Text → Bool
is_among n names = any (λ m. m == n) names

-- No name occurs twice.
abbrev pub Distinct : List Text → Type 0
Distinct [] = Unit
Distinct (n ∷ ns) = (is_among n ns ≡ false) × Distinct ns

abbrev pub names_listed : List HostEntry → List Text
names_listed [] = []
names_listed (e ∷ es) = e.name ∷ names_listed es

is_among-same : (n m : Text) (ns : List Text) → text_eq n m ≡ true → is_among n ns ≡ is_among m ns
is_among-same n m ns e = ap (λ k. is_among k ns) ((text_eq_iff n m).0 e)

is_among-append :
    (n : Text) (xs ys : List Text) → is_among n (xs ++ ys) ≡ (is_among n xs || is_among n ys)
is_among-append n [] ys = refl
is_among-append n (x ∷ xs) ys = ground (arith, is_among-append n xs ys)

Distinct-append :
    (xs ys : List Text)
    → Distinct xs
    → Distinct ys
    → ((n : Text) → is_among n xs ≡ true → is_among n ys ≡ false)
    → Distinct (xs ++ ys)
Distinct-append [] ys dx dy apart = dy
Distinct-append (x ∷ xs) ys (fresh, dx) dy apart = (
  rw (is_among-append x xs ys, fresh) (apart x (ground (arith, (text_eq_iff x x).1 refl))),
  Distinct-append xs ys dx dy (λ n h. apart n (ground (arith, h))),
)

names-add_aliases :
    (c : SshConfig) (n : Text) (seen ns : List Text)
    → is_among n (names_listed (add_aliases c seen ns)) ≡ (is_among n ns && not (is_among n seen))
unfolding add_aliases
names-add_aliases c n seen [] = refl
names-add_aliases c n seen (m ∷ ns) = ground (
  arith,
  names-add_aliases c n seen ns,
  names-add_aliases c n (m ∷ seen) ns,
  is_among-same m n seen,
)

Distinct-add_aliases :
    (c : SshConfig) (seen ns : List Text) → Distinct (names_listed (add_aliases c seen ns))
unfolding add_aliases
Distinct-add_aliases c seen [] = tt
Distinct-add_aliases c seen (m ∷ ns) = ground (
  arith,
  Distinct-add_aliases c seen ns,
  Distinct-add_aliases c (m ∷ seen) ns,
  names-add_aliases c m (m ∷ seen) ns,
  (text_eq_iff m m).1 refl,
)

names-append :
    (xs ys : List HostEntry) → names_listed (xs ++ ys) ≡ names_listed xs ++ names_listed ys
names-append [] ys = refl
names-append (x ∷ xs) ys = ap (λ l. x.name ∷ l) (names-append xs ys)

names-registry_entries :
    (c : SshConfig) (warned : Dict Text (List ConfigWarning)) (registry : Dict Text HostConfig)
    → names_listed (registry_entries c warned registry) ≡ registry_names registry
names-registry_entries c warned [] = refl
names-registry_entries c warned ((_, h) ∷ registry) =
    ap (λ l. h.name ∷ l) (names-registry_entries c warned registry)

module _ (c : SshConfig) (registry : Dict Text HostConfig)
    (warned : Dict Text (List ConfigWarning)) where
  names-list_hosts :
      names_listed (list_hosts c registry warned)
      ≡ registry_names registry
        ++ names_listed (add_aliases c (registry_names registry) (enumerate_ssh_config_aliases c))
  unfolding list_hosts
  names-list_hosts =
      names-append (registry_entries c warned registry)
        (add_aliases c (registry_names registry) (enumerate_ssh_config_aliases c))
      ∙ ap
          (λ l.
            l
            ++ names_listed
                (add_aliases c (registry_names registry) (enumerate_ssh_config_aliases c)))
          (names-registry_entries c warned registry)

  -- Where the registry's names are distinct, the list names every registered host and every alias of the
  -- ssh config files, nothing else, and none twice.
  pub list_hosts-Distinct :
      Distinct (registry_names registry)
      → Distinct (names_listed (list_hosts c registry warned))
        × ((n : Text)
            → is_among n (names_listed (list_hosts c registry warned)) ≡ (
                is_among n (registry_names registry)
                || is_among n (enumerate_ssh_config_aliases c)))
  list_hosts-Distinct apart = (
    rw names-list_hosts (
        Distinct-append (registry_names registry)
          (names_listed (add_aliases c (registry_names registry) (enumerate_ssh_config_aliases c)))
          apart (Distinct-add_aliases c (registry_names registry) (enumerate_ssh_config_aliases c))
          (λ n h. ground (
            arith,
            names-add_aliases c n (registry_names registry) (enumerate_ssh_config_aliases c),
            h,
          ))),
    λ n. rw names-list_hosts (
        ground (
          arith,
          is_among-append n (registry_names registry) (
              names_listed
                (add_aliases c (registry_names registry) (enumerate_ssh_config_aliases c))),
          names-add_aliases c n (registry_names registry) (enumerate_ssh_config_aliases c),
        )),
  )
