-- ===== src/Agent/Keys.antt =====
-- No key of the cache of portal_mcp_server/credential_agent.py has two entries.
use portal_mcp_server.Base.{
  ℕ, ◌≡◌, refl, Text, codes, text_eq, text_has_eq, Option, none, some, leb, Bool-cases,
  Option-cases, inl, inr,
}
use portal_mcp_server.Base.Dicts.{lookup, Unique, Unique-insert, Unique-erase, Unique-retain}
use portal_mcp_server.Agent.{Kind, Key, key_has_eq, Cache, Message}
use portal_mcp_server.Agent.Ops.{
  key_from_msg, value_from_msg, usable_ttl, set, fetch, get, clear, describe, list, status,
  dispatch,
}

module _ (sha : Text → Text) (second : ℕ) where
  set-Unique :
      (kind : Kind) (m : Message) (now : ℕ) (cache : Cache)
      → Unique cache
      → Unique (set sha second kind m now cache).0
  unfolding set
  set-Unique kind m now cache u = elim (Option-cases (key_from_msg kind m)) [
    | inl e ↦ rw (set, e) u
    | inr (key, e) ↦ elim (Option-cases (value_from_msg kind m)) [
      | inl f ↦ rw (set, e, f) u
      | inr (value, f) ↦ elim (Option-cases (usable_ttl sha second m.ttl)) [
        | inl g ↦ rw (set, e, f, g) u
        | inr (ttl, g) ↦ rw (set, e, f, g) (Unique-insert _ _ cache u)
      ]
    ]
  ]

  fetch-Unique :
      (key : Key) (now : ℕ) (cache : Cache)
      → Unique cache
      → Unique (fetch sha second key now cache).0
  unfolding fetch
  fetch-Unique key now cache u = elim (Option-cases (lookup key cache)) [
    | inl e ↦ rw (fetch, e) u
    | inr ((value, expiry), e) ↦ elim (Bool-cases (leb expiry now)) [
      | inl f ↦ rw (fetch, e, f) (Unique-erase key cache u)
      | inr f ↦ rw (fetch, e, f) u
    ]
  ]

  get-Unique :
      (kind : Kind) (m : Message) (now : ℕ) (cache : Cache)
      → Unique cache
      → Unique (get sha second kind m now cache).0
  unfolding get
  get-Unique kind m now cache u = elim (Option-cases (key_from_msg kind m)) [
    | inl e ↦ rw (get, e) u
    | inr (key, e) ↦ rw (get, e) (fetch-Unique _ now cache u)
  ]

  describe-Unique :
      (kind : Kind) (m : Message) (now later : ℕ) (cache : Cache)
      → Unique cache
      → Unique (describe sha second kind m now later cache).0
  unfolding describe
  describe-Unique kind m now later cache u = elim (Option-cases (key_from_msg kind m)) [
    | inl e ↦ rw (describe, e) u
    | inr (key, e) ↦ rw (describe, e) (fetch-Unique _ now cache u)
  ]

  clear-Unique :
      (kind : Kind) (m : Message) (cache : Cache)
      → Unique cache
      → Unique (clear sha second kind m cache).0
  unfolding clear
  clear-Unique kind m cache u = elim (Option-cases (key_from_msg kind m)) [
    | inl e ↦ rw (clear, e) (Unique-retain _ cache u)
    | inr (key, e) ↦ rw (clear, e) (Unique-erase _ cache u)
  ]

  list-Unique :
      (kind : Kind) (now : ℕ) (cache : Cache)
      → Unique cache
      → Unique (list sha second kind now cache).0
  unfolding list
  list-Unique kind now cache u = Unique-retain _ cache u

  status-Unique : (now : ℕ) (cache : Cache) → Unique cache → Unique (status sha second now cache).0
  unfolding status
  status-Unique now cache u = Unique-retain _ cache u

  -- No request gives a key a second entry.
  pub dispatch-Unique :
      (m : Message) (now later : ℕ) (cache : Cache)
      → Unique cache
      → Unique (dispatch sha second m now later cache).0
  unfolding dispatch
  dispatch-Unique m now later cache u = by_op m.op m.kind refl refl
    where
      by_op :
          (o : Option Text) (kind : Option Kind)
          → m.op ≡ o
          → m.kind ≡ kind
          → Unique (dispatch sha second m now later cache).0
      by_op none none p q = rw (dispatch, p, q) u
      by_op none (some kind) p q = rw (dispatch, p, q) u
      by_op (some op) none p q = elim (Bool-cases (text_eq op (codes "status"))) [
        | inl e ↦ rw (dispatch, p, q, e) (status-Unique now cache u)
        | inr e ↦ rw (dispatch, p, q, e) u
      ]
      by_op (some op) (some kind) p q = elim (Bool-cases (text_eq op (codes "status"))) [
        | inl e ↦ rw (dispatch, p, q, e) (status-Unique now cache u)
        | inr e ↦ elim (Bool-cases (text_eq op (codes "set"))) [
          | inl f ↦ rw (dispatch, p, q, e, f) (set-Unique kind m now cache u)
          | inr f ↦ elim (Bool-cases (text_eq op (codes "get"))) [
            | inl g ↦ rw (dispatch, p, q, e, f, g) (get-Unique kind m now cache u)
            | inr g ↦ elim (Bool-cases (text_eq op (codes "clear"))) [
              | inl h ↦ rw (dispatch, p, q, e, f, g, h) (clear-Unique kind m cache u)
              | inr h ↦ elim (Bool-cases (text_eq op (codes "fingerprint"))) [
                | inl i ↦
                    rw (dispatch, p, q, e, f, g, h, i) (describe-Unique kind m now later cache u)
                | inr i ↦ elim (Bool-cases (text_eq op (codes "list"))) [
                  | inl j ↦ rw (dispatch, p, q, e, f, g, h, i, j) (list-Unique kind now cache u)
                  | inr j ↦ rw (dispatch, p, q, e, f, g, h, i, j) u
                ]
              ]
            ]
          ]
        ]
      ]
