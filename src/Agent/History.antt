-- ===== src/Agent/History.antt =====
-- Histories of requests to portal_mcp_server/credential_agent.py, from an empty cache.
use portal_mcp_server.Base.{
  ℕ, ◌≤◌, ◌≡◌, refl, ◌∙◌, Text, Option, none, some, List, [], ◌∷◌, leb, Bool-cases, Option-cases,
  inl, inr,
}
use portal_mcp_server.Base.Dicts.{lookup, Unique}
use portal_mcp_server.Agent.{
  Kind, Key, key_has_eq, Cache, Message, found, missing, failed, key_required,
}
use portal_mcp_server.Agent.Ops.{key_from_msg, fetch, get, dispatch}
use portal_mcp_server.Agent.View.{view, Effect, applied, effect}
use portal_mcp_server.Agent.Dispatch.{dispatch-view}
use portal_mcp_server.Agent.Keys.{dispatch-Unique}

-- A request and when the agent handles it.
pub record Request : Type 0 where
  pub message : Message
  pub now : ℕ
  pub later : ℕ

-- All requests were handled by the time `t`.
abbrev pub Before : ℕ → List Request → Type 0
Before t [] = Unit {0}
Before t (r ∷ rs) = (r.now ≤ t) × Before t rs

module _ (sha : Text → Text) (second : ℕ) where
  -- The cache after the requests, the last of which comes first.
  unfoldable pub serve : List Request → Cache
  serve [] = []
  serve (r ∷ rs) = (dispatch sha second r.message r.now r.later (serve rs)).0

  -- The effects of the requests, one after the other.
  abbrev pub replay : ℕ → List Request → Key → Option Text
  replay t [] k = none
  replay t (r ∷ rs) k = applied (effect sha second r.message r.now) t (replay t rs) k

  serve-Unique : (rs : List Request) → Unique (serve rs)
  unfolding serve
  serve-Unique [] = tt
  serve-Unique (r ∷ rs) =
      dispatch-Unique sha second r.message r.now r.later (serve rs) (serve-Unique rs)

  applied-cong :
      (e : Effect) (t : ℕ) (v w : Key → Option Text)
      → ((k : Key) → v k ≡ w k)
      → (k : Key) → applied e t v k ≡ applied e t w k
  applied-cong (Effect.store j value expiry) t v w h k = rw (h k) refl
  applied-cong (Effect.forget j) t v w h k = rw (h k) refl
  applied-cong (Effect.forget_kind kind) t v w h k = rw (h k) refl
  applied-cong Effect.nothing t v w h k = h k

  -- After any history of requests, what a client finds under a key at a later time is what the sets
  -- and clears alone make it: the value set last, if it has neither been cleared nor expired.
  pub serve-view :
      (rs : List Request) (t : ℕ) (k : Key) → Before t rs → view t (serve rs) k ≡ replay t rs k
  unfolding serve lookup
  serve-view [] t k h = refl
  serve-view (r ∷ rs) t k (le, h) =
      dispatch-view sha second r.message r.now r.later t (serve rs) k (serve-Unique rs) le
      ∙ applied-cong (effect sha second r.message r.now) t (view t (serve rs)) (replay t rs)
          (λ j. serve-view rs t j h) k

  -- A `get` answers with what is found under its key at that moment, and needs a key.
  pub get_lem :
      (kind : Kind) (m : Message) (now : ℕ) (cache : Cache)
      → (get sha second kind m now cache).1 ≡ elim (key_from_msg kind m) [
        | none ↦ failed key_required
        | some name ↦ elim (view now cache (record { kind = kind; name = name })) [
          | none ↦ missing
          | some value ↦ found value
        ]
      ]
  unfolding get fetch
  get_lem kind m now cache = elim (Option-cases (key_from_msg kind m)) [
    | inl e ↦ rw (get, e) refl
    | inr (name, e) ↦
        let key : Key = record { kind = kind; name = name } in
        rw (get, e) (answer key (lookup key cache) refl)
  ]
    where
      answer :
          (key : Key) (o : Option (Text × ℕ))
          → lookup key cache ≡ o
          → (elim (fetch sha second key now cache).1 [
            | none ↦ missing
            | some (value, expiry) ↦ found value
          ])
            ≡ (elim (view now cache key) [ none ↦ missing | some value ↦ found value ])
      answer key none l = rw (fetch, l) refl
      answer key (some (value, expiry)) l = elim (Bool-cases (leb expiry now)) [
        | inl e ↦ rw (fetch, l, e) refl
        | inr e ↦ rw (fetch, l, e) refl
      ]
