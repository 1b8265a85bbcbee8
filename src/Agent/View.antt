-- ===== src/Agent/View.antt =====
-- What the cache of portal_mcp_server/credential_agent.py means to its clients: at each time, a
-- partial function from keys to values.
use portal_mcp_server.Base.{
  ℕ, ◌+◌, ◌≤◌, ◌<◌, ◌≡◌, refl, sym, ap, ◌∙◌, Text, codes, text_has_eq, ◌==◌, Bool, true, not, ◌&&◌,
  Option, none, some, leb, arith, if◌then◌else◌, Bool-cases, Option-cases, inl, inr,
}
use portal_mcp_server.Base.Dicts.{
  lookup, insert, erase, retain, lookup-insert, lookup-erase, lookup-retain, Unique,
}
use portal_mcp_server.Agent.{Kind, kind_eq, Key, key_eq, key_eq_iff, key_has_eq, Cache, Message}
use portal_mcp_server.Agent.Ops.{
  key_from_msg, value_from_msg, usable_ttl, set, fetch, clear, list, status,
}

-- An item, unless it has expired.
abbrev pub fresh : ℕ → Option (Text × ℕ) → Option Text
fresh t none = none
fresh t (some (value, expiry)) = if leb expiry t then none else some value

-- What a client finds under a key at a time.
abbrev pub view : ℕ → Cache → Key → Option Text
view t cache k = fresh t (lookup k cache)

-- What a request is to do to the keys.
pub data Effect : Type 0 where
  store : Key → Text → ℕ → Effect
  forget : Key → Effect
  forget_kind : Kind → Effect
  nothing : Effect

abbrev pub applied : Effect → ℕ → (Key → Option Text) → Key → Option Text
applied (store j value expiry) t v k =
    if key_eq j k then (if leb expiry t then none else some value) else v k
applied (forget j) t v k = if key_eq j k then none else v k
applied (forget_kind kind) t v k = if kind_eq k.kind kind then none else v k
applied nothing t v k = v k

module _ (sha : Text → Text) (second : ℕ) where
  abbrev pub set_effect : Kind → Message → ℕ → Effect
  set_effect kind m now = elim (key_from_msg kind m) [
    | none ↦ nothing
    | some key ↦ elim (value_from_msg kind m) [
      | none ↦ nothing
      | some value ↦ elim (usable_ttl sha second m.ttl) [
        | none ↦ nothing
        | some ttl ↦ store (record { kind = kind; name = key }) value (now + ttl)
      ]
    ]
  ]

  abbrev pub clear_effect : Kind → Message → Effect
  clear_effect kind m = elim (key_from_msg kind m) [
    | none ↦ forget_kind kind
    | some key ↦ forget (record { kind = kind; name = key })
  ]

  -- Only `set` and `clear`, with a valid kind, are to change what clients find.
  abbrev pub effect : Message → ℕ → Effect
  effect m now = elim m.op [
    | none ↦ nothing
    | some op ↦ elim m.kind [
      | none ↦ nothing
      | some kind ↦
          if op == codes "set"
          then set_effect kind m now
          else if op == codes "clear"
          then clear_effect kind m
          else nothing
    ]
  ]

  view-insert :
      (t expiry : ℕ) (value : Text) (cache : Cache) (j k : Key)
      → view t (insert j (value, expiry) cache) k
        ≡ (if key_eq j k then (if leb expiry t then none else some value) else view t cache k)
  view-insert t expiry value cache j k = elim (Bool-cases (key_eq j k)) [
    | inl e ↦ rw (lookup-insert j k (value, expiry) cache, e) refl
    | inr e ↦ rw (lookup-insert j k (value, expiry) cache, e) refl
  ]

  view-erase :
      (t : ℕ) (cache : Cache) (j k : Key)
      → view t (erase j cache) k ≡ (if key_eq j k then none else view t cache k)
  view-erase t cache j k = elim (Bool-cases (key_eq j k)) [
    | inl e ↦ rw (lookup-erase j k cache, e) refl
    | inr e ↦ rw (lookup-erase j k cache, e) refl
  ]

  pub set-view :
      (kind : Kind) (m : Message) (now t : ℕ) (cache : Cache) (k : Key)
      → view t (set sha second kind m now cache).0 k
        ≡ applied (set_effect kind m now) t (view t cache) k
  unfolding set
  set-view kind m now t cache k = elim (Option-cases (key_from_msg kind m)) [
    | inl e ↦
        let w : set_effect kind m now ≡ nothing = rw (set_effect, e) refl in rw (set, e, w) refl
    | inr (key, e) ↦ elim (Option-cases (value_from_msg kind m)) [
      | inl f ↦
          let w : set_effect kind m now ≡ nothing = rw (set_effect, e, f) refl in
          rw (set, e, f, w) refl
      | inr (value, f) ↦ elim (Option-cases (usable_ttl sha second m.ttl)) [
        | inl g ↦
            let w : set_effect kind m now ≡ nothing = rw (set_effect, e, f, g) refl in
            rw (set, e, f, g, w) refl
        | inr (ttl, g) ↦
            let w : set_effect kind m now
                ≡ store (record { kind = kind; name = key }) value (now + ttl) =
              rw (set_effect, e, f, g) refl in
            rw (set, e, f, g, w)
              (view-insert t (now + ttl) value cache (record { kind = kind; name = key }) k)
      ]
    ]
  ]

  pub clear-view :
      (kind : Kind) (m : Message) (t : ℕ) (cache : Cache) (k : Key)
      → Unique cache
      → view t (clear sha second kind m cache).0 k
        ≡ applied (clear_effect kind m) t (view t cache) k
  unfolding clear
  clear-view kind m t cache k u = elim (Option-cases (key_from_msg kind m)) [
    | inr (key, e) ↦
        let w : clear_effect kind m ≡ forget (record { kind = kind; name = key }) =
          rw (clear_effect, e) refl in
        rw (clear, e, w) (view-erase t cache (record { kind = kind; name = key }) k)
    | inl e ↦
        let w : clear_effect kind m ≡ forget_kind kind = rw (clear_effect, e) refl in
        rw (clear, e, w) (others (lookup k cache) refl)
  ]
    where
      others :
          (o : Option (Text × ℕ))
          → lookup k cache ≡ o
          → view t (retain (λ k item. not (kind_eq k.kind kind)) cache) k
            ≡ (if kind_eq k.kind kind then none else view t cache k)
      others none l =
          rw (lookup-retain (λ k item. not (kind_eq k.kind kind)) k cache u, l) (ground arith)
      others (some item) l =
          rw (lookup-retain (λ k item. not (kind_eq k.kind kind)) k cache u, l) (ground arith)

  -- Expired entries that go are not missed.
  pub fetch-view :
      (key : Key) (now t : ℕ) (cache : Cache) (k : Key)
      → now ≤ t
      → view t (fetch sha second key now cache).0 k ≡ view t cache k
  unfolding fetch
  fetch-view key now t cache k le = elim (Option-cases (lookup key cache)) [
    | inl e ↦ rw (fetch, e) refl
    | inr ((value, expiry), e) ↦ elim (Bool-cases (leb expiry now)) [
      | inr f ↦ rw (fetch, e, f) refl
      | inl f ↦
          rw (fetch, e, f)
            (elim (Bool-cases (key_eq key k)) [
              | inr g ↦ view-erase t cache key k ∙ rw g refl
              | inl g ↦
                  let same : key ≡ k = (key_eq_iff key k).0 g in
                  let gone : leb expiry t ≡ true = ground arith in
                  view-erase t cache key k
                  ∙ rw (g, ap (λ j. lookup j cache) (sym same), e, gone) refl
            ])
    ]
  ]

  -- Entries that go only if they have expired are not missed.
  retain-view :
      (keeps : Key → Text × ℕ → Bool) (now t : ℕ) (cache : Cache) (k : Key)
      → ((j : Key) (value : Text) (expiry : ℕ) → now < expiry → keeps j (value, expiry) ≡ true)
      → Unique cache
      → now ≤ t
      → view t (retain keeps cache) k ≡ view t cache k
  retain-view keeps now t cache k live u le = elim (Option-cases (lookup k cache)) [
    | inl e ↦ rw (lookup-retain keeps k cache u, e) refl
    | inr ((value, expiry), e) ↦ elim (Bool-cases (keeps k (value, expiry))) [
      | inl f ↦ rw (lookup-retain keeps k cache u, e, f) refl
      | inr f ↦
          let gone : leb expiry t ≡ true = ground (arith, live k value expiry) in
          rw (lookup-retain keeps k cache u, e, f, gone) refl
    ]
  ]

  pub list-view :
      (kind : Kind) (now t : ℕ) (cache : Cache) (k : Key)
      → Unique cache
      → now ≤ t
      → view t (list sha second kind now cache).0 k ≡ view t cache k
  unfolding list
  list-view kind now t cache k u le =
      retain-view (λ k (value, expiry). not (kind_eq k.kind kind && leb expiry now)) now t cache k
        (λ j value expiry lt. ground arith) u le

  pub status-view :
      (now t : ℕ) (cache : Cache) (k : Key)
      → Unique cache
      → now ≤ t
      → view t (status sha second now cache).0 k ≡ view t cache k
  unfolding status
  status-view now t cache k u le =
      retain-view (λ k (value, expiry). not (leb expiry now)) now t cache k
        (λ j value expiry lt. ground arith) u le
