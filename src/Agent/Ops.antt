-- ===== src/Agent/Ops.antt =====
-- The six operations of portal_mcp_server/credential_agent.py on the cache, and `dispatch`.
use portal_mcp_server.Base.{
  ℕ, ◌+◌, ◌-◌, ◌/◌, ◌*◌, Text, text_has_eq, ◌==◌, Bool, true, false, not, ◌&&◌, Option, none, some,
  List, [], ◌∷◌, is_empty, strip, leb, ltb, nat_beq, codes, if◌then◌else◌, length,
}
use portal_mcp_server.Base.Dicts.{lookup, insert, erase, retain}
use portal_mcp_server.Agent.{
  Kind, passphrase, secret, sudo, ssh, kind_eq, Key, key_has_eq, Cache, Ttl, absent, unusable,
  unreadable, lasting, Message, Entry, Response, done, missing, found, described, listed, counted,
  failed, invalid_kind, invalid_operation, key_required, key_and_value_required, unreadable_ttl,
}

-- `_key_from_msg`
unfoldable pub key_from_msg : Kind → Message → Option Text
key_from_msg kind m = elim (if kind_eq kind secret then m.name else m.host) [
  | none ↦ none
  | some value ↦ if is_empty (strip value) then none else some (strip value)
]

-- The value that `_set` stores: `none` if it is missing or empty.
abbrev pub value_from_msg : Kind → Message → Option Text
value_from_msg kind m = elim (if kind_eq kind secret then m.value else m.password) [
  | none ↦ none
  | some value ↦ if is_empty value then none else some value
]

-- The keys' order in `_list`, which is that of their code points.
abbrev text_leb : Text → Text → Bool
text_leb [] t = true
text_leb (c ∷ cs) [] = false
text_leb (c ∷ cs) (d ∷ ds) =
    let rest = text_leb cs ds in if ltb c d then true else nat_beq c d && rest

-- `entries.sort(key=lambda e: e["key"])`, a stable sort.
abbrev insert_entry : Entry → List Entry → List Entry
insert_entry e [] = e ∷ []
insert_entry e (f ∷ es) =
    let rest = insert_entry e es in if text_leb e.key f.key then e ∷ f ∷ es else f ∷ rest

abbrev pub sort_entries : List Entry → List Entry
sort_entries [] = []
sort_entries (e ∷ es) = insert_entry e (sort_entries es)

module _ (sha : Text → Text) (second : ℕ) where
  abbrev pub remaining : ℕ → ℕ → ℕ
  remaining now expiry = (expiry - now) / second

  -- `ttl`, with the default of 15 minutes for one that is no use.
  unfoldable pub usable_ttl : Ttl → Option ℕ
  usable_ttl absent = some (900 * second)
  usable_ttl unusable = some (900 * second)
  usable_ttl unreadable = none
  usable_ttl (lasting n) = some (if nat_beq n 0 then 900 * second else n)

  -- `_set`
  unfoldable pub set : Kind → Message → ℕ → Cache → Cache × Response
  set kind m now cache = elim (key_from_msg kind m) [
    | none ↦ (cache, failed key_and_value_required)
    | some key ↦ elim (value_from_msg kind m) [
      | none ↦ (cache, failed key_and_value_required)
      | some value ↦ elim (usable_ttl m.ttl) [
        | none ↦ (cache, failed unreadable_ttl)
        | some ttl ↦ (insert (record { kind = kind; name = key }) (value, now + ttl) cache, done)
      ]
    ]
  ]

  -- The part that `_get` and `_fingerprint` share: the value and expiry under a key, and the cache
  -- without the entry if it has expired.
  unfoldable pub fetch : Key → ℕ → Cache → Cache × Option (Text × ℕ)
  fetch key now cache = elim (lookup key cache) [
    | none ↦ (cache, none)
    | some (value, expiry) ↦
        if leb expiry now then (erase key cache, none) else (cache, some (value, expiry))
  ]

  -- `_get`
  unfoldable pub get : Kind → Message → ℕ → Cache → Cache × Response
  get kind m now cache = elim (key_from_msg kind m) [
    | none ↦ (cache, failed key_required)
    | some key ↦
        let (cache', item) = fetch (record { kind = kind; name = key }) now cache in
        (cache', elim item [ none ↦ missing | some (value, expiry) ↦ found value ])
  ]

  -- `_clear`
  unfoldable pub clear : Kind → Message → Cache → Cache × Response
  clear kind m cache = elim (key_from_msg kind m) [
    | some key ↦ (erase (record { kind = kind; name = key }) cache, done)
    | none ↦ (retain (λ k item. not (kind_eq k.kind kind)) cache, done)
  ]

  -- `_fingerprint`, which reads the clock again at `later`.
  unfoldable pub describe : Kind → Message → ℕ → ℕ → Cache → Cache × Response
  describe kind m now later cache = elim (key_from_msg kind m) [
    | none ↦ (cache, failed key_required)
    | some key ↦
        let (cache', item) = fetch (record { kind = kind; name = key }) now cache in
        (
          cache',
          elim item [
            | none ↦ missing
            | some (value, expiry) ↦ described (sha value) (remaining later expiry)
          ],
        )
  ]

  -- The entries of a kind that have not expired.
  abbrev pub live_entries : Kind → ℕ → Cache → List Entry
  live_entries kind now [] = []
  live_entries kind now ((k, (value, expiry)) ∷ cache) =
      let rest = live_entries kind now cache in
      if kind_eq k.kind kind && not (leb expiry now)
      then record { key = k.name; fingerprint = sha value; ttl_remaining = remaining now expiry }
        ∷ rest
      else rest

  -- `_list`: the entries of the kind that have expired go.
  unfoldable pub list : Kind → ℕ → Cache → Cache × Response
  list kind now cache = (
    retain (λ k (value, expiry). not (kind_eq k.kind kind && leb expiry now)) cache,
    listed (sort_entries (live_entries kind now cache)),
  )

  -- `_status`: all that has expired goes.
  unfoldable pub status : ℕ → Cache → Cache × Response
  status now cache =
      let count : Kind → Kind × ℕ = λ kind. (kind, length (live_entries kind now cache)) in
      (
        retain (λ k (value, expiry). not (leb expiry now)) cache,
        counted (count passphrase ∷ count secret ∷ count sudo ∷ count ssh ∷ []),
      )

  -- `dispatch`
  unfoldable pub dispatch : Message → ℕ → ℕ → Cache → Cache × Response
  dispatch m now later cache = elim m.op [
    | none ↦ elim m.kind [
      | none ↦ (cache, failed invalid_kind)
      | some kind ↦ (cache, failed invalid_operation)
    ]
    | some op ↦ if op == codes "status" then status now cache else elim m.kind [
      | none ↦ (cache, failed invalid_kind)
      | some kind ↦
          if op == codes "set"
          then set kind m now cache
          else if op == codes "get"
          then get kind m now cache
          else if op == codes "clear"
          then clear kind m cache
          else if op == codes "fingerprint"
          then describe kind m now later cache
          else if op == codes "list"
          then list kind now cache
          else (cache, failed invalid_operation)
    ]
  ]
