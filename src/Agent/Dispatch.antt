-- ===== src/Agent/Dispatch.antt =====
-- `dispatch` of portal_mcp_server/credential_agent.py against the effects of the requests.
use portal_mcp_server.Base.{
  ℕ, ◌≤◌, ◌≡◌, refl, sym, subst, text_eq_iff, Text, codes, text_eq, text_has_eq, ◌==◌, true, false,
  Option, none, some, if◌then◌else◌, Bool-cases, Option-cases, inl, inr,
}
use portal_mcp_server.Base.Dicts.{Unique}
use portal_mcp_server.Agent.{Kind, Key, key_has_eq, Cache, Message, Response, failed, Fault}
use portal_mcp_server.Agent.Ops.{key_from_msg, set, get, clear, describe, list, dispatch}
use portal_mcp_server.Agent.View.{
  view, nothing, applied, set_effect, clear_effect, effect, set-view, clear-view, fetch-view,
  list-view, status-view,
}

-- A word is one of two different words at most.
other_word : (op a b : Text) → text_eq a b ≡ false → text_eq op a ≡ true → text_eq op b ≡ false
other_word op a b differ h = subst (λ o. text_eq o b ≡ false) (sym ((text_eq_iff op a).0 h)) differ

module _ (sha : Text → Text) (second : ℕ) where
  get-view :
      (kind : Kind) (m : Message) (now t : ℕ) (cache : Cache) (k : Key)
      → now ≤ t
      → view t (get sha second kind m now cache).0 k ≡ view t cache k
  unfolding get
  get-view kind m now t cache k le = elim (Option-cases (key_from_msg kind m)) [
    | inl e ↦ rw (get, e) refl
    | inr (key, e) ↦
        rw (get, e) (fetch-view sha second (record { kind = kind; name = key }) now t cache k le)
  ]

  describe-view :
      (kind : Kind) (m : Message) (now later t : ℕ) (cache : Cache) (k : Key)
      → now ≤ t
      → view t (describe sha second kind m now later cache).0 k ≡ view t cache k
  unfolding describe
  describe-view kind m now later t cache k le = elim (Option-cases (key_from_msg kind m)) [
    | inl e ↦ rw (describe, e) refl
    | inr (key, e) ↦
        rw (describe, e)
          (fetch-view sha second (record { kind = kind; name = key }) now t cache k le)
  ]

  -- `dispatch` for a request with an operation and a valid kind.
  abbrev run_op : Text → Kind → Message → ℕ → ℕ → Cache → Cache × Response
  run_op op kind m now later cache =
      if op == codes "set"
      then set sha second kind m now cache
      else if op == codes "get"
      then get sha second kind m now cache
      else if op == codes "clear"
      then clear sha second kind m cache
      else if op == codes "fingerprint"
      then describe sha second kind m now later cache
      else if op == codes "list"
      then list sha second kind now cache
      else (cache, failed Fault.invalid_operation)

  run_op-view :
      (op : Text) (kind : Kind) (m : Message) (now later t : ℕ) (cache : Cache) (k : Key)
      → Unique cache
      → now ≤ t
      → view t (run_op op kind m now later cache).0 k
        ≡ applied
            (if op == codes "set"
              then set_effect sha second kind m now
              else if op == codes "clear"
              then clear_effect sha second kind m
              else nothing)
            t
            (view t cache)
            k
  unfolding text_eq
  run_op-view op kind m now later t cache k u le = elim (Bool-cases (text_eq op (codes "set"))) [
    | inl e ↦ rw e (set-view sha second kind m now t cache k)
    | inr e ↦ elim (Bool-cases (text_eq op (codes "clear"))) [
      | inl f ↦
          let g : text_eq op (codes "get") ≡ false =
            other_word op (codes "clear") (codes "get") refl f in
          rw (e, g, f) (clear-view sha second kind m t cache k u)
      | inr f ↦ elim (Bool-cases (text_eq op (codes "get"))) [
        | inl g ↦ rw (e, g, f) (get-view kind m now t cache k le)
        | inr g ↦ elim (Bool-cases (text_eq op (codes "fingerprint"))) [
          | inl h ↦ rw (e, g, f, h) (describe-view kind m now later t cache k le)
          | inr h ↦ elim (Bool-cases (text_eq op (codes "list"))) [
            | inl i ↦ rw (e, g, f, h, i) (list-view sha second kind now t cache k u le)
            | inr i ↦ rw (e, g, f, h, i) refl
          ]
        ]
      ]
    ]
  ]

  -- A request changes what clients find, then and later, just as its effect sha second says: reads, listings and
  -- refused requests change nothing, though they drop expired entries.
  pub dispatch-view :
      (m : Message) (now later t : ℕ) (cache : Cache) (k : Key)
      → Unique cache
      → now ≤ t
      → view t (dispatch sha second m now later cache).0 k
        ≡ applied (effect sha second m now) t (view t cache) k
  unfolding dispatch text_eq
  dispatch-view m now later t cache k u le = by_op m.op m.kind refl refl
    where
      by_op :
          (o : Option Text) (kind : Option Kind)
          → m.op ≡ o
          → m.kind ≡ kind
          → view t (dispatch sha second m now later cache).0 k
            ≡ applied (effect sha second m now) t (view t cache) k
      by_op none none p q = rw (dispatch, effect, p, q) refl
      by_op none (some kind) p q = rw (dispatch, effect, p, q) refl
      by_op (some op) none p q = elim (Bool-cases (text_eq op (codes "status"))) [
        | inl e ↦ rw (dispatch, effect, p, q, e) (status-view sha second now t cache k u le)
        | inr e ↦ rw (dispatch, effect, p, q, e) refl
      ]
      by_op (some op) (some kind) p q = elim (Bool-cases (text_eq op (codes "status"))) [
        | inl e ↦
            let f = other_word op (codes "status") (codes "set") refl e in
            let g = other_word op (codes "status") (codes "clear") refl e in
            rw (dispatch, effect, p, q, e, f, g) (status-view sha second now t cache k u le)
        | inr e ↦ rw (dispatch, effect, p, q, e) (run_op-view op kind m now later t cache k u le)
      ]
