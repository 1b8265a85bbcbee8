-- ===== src/Pool/System.antt =====
-- The tasks that use one host's pool, as steps that interleave in any order. `get_connection` is cut
-- where it waits: for the host's lock, and for the new connection.
use portal_mcp_server.Base.{
  ℕ, ◌+◌, ◌<◌, ◌≡◌, refl, Bool, true, false, not, Option, none, some, List, [], ◌∷◌, ◌++◌, any,
  nat_beq, if◌then◌else◌, Text, text_has_eq, ◌==◌,
}
use portal_mcp_server.Pool.{
  Limits, Slot, acquire, add_connection, release, release_connection, register, remove, close_all,
}

-- A call of `get_connection` that has read the generation and has its lock object.
pub record Task : Type 0 where
  pub generation : ℕ
  pub lock : ℕ

-- The slot, all tasks, the connections that clients hold (one entry for each time that one was
-- handed out and not given back under the pool's name), those that are closed, those that each shutdown
-- under way has still to close, those that cancelled shutdowns left, and the next connection and lock.
pub record System (C : Type 0) : Type 0 where
  pub slot : Slot C
  pub waiting : List Task
  pub connecting : List (Task × ℕ)
  pub held : List ℕ
  pub closed : List ℕ
  pub closing : List (List ℕ)
  pub lost : List ℕ
  pub next_conn : ℕ
  pub next_lock : ℕ

-- One element of a list, and the others.
pub data Pick {ℓ} {A : Type ℓ} (a : A) : List A → List A → Type ℓ where
  here : {xs : List A} → Pick a (a ∷ xs) xs
  there : {x : A} {xs ys : List A} → Pick a xs ys → Pick a (x ∷ xs) (x ∷ ys)

module _ {C : Type 0} where
  -- `_get_lock`: the lock of the name, made if there is none.
  abbrev pub get_lock : System C → ℕ
  get_lock s = elim s.slot.lock [ none ↦ s.next_lock | some k ↦ k ]

  -- The registry as `get_connection` leaves it: an alias of the ssh config is registered.
  abbrev pub resolved : Option C → Option C → Option C
  resolved (some cfg) alias = some cfg
  resolved none alias = alias

  -- The start of `get_connection` for a name that resolves.
  unfoldable pub request : Option C → System C → System C
  request alias s = record s {
    slot = record s.slot { config = resolved s.slot.config alias; lock = some (get_lock s) };
    waiting = record { generation = s.slot.generation; lock = get_lock s } ∷ s.waiting;
    next_lock = s.next_lock + 1;
  }

  -- The locked part up to a connection from the pool, or to the wait for a new one.
  unfoldable pub enter : Limits → ℕ → Task → List Task → System C → System C
  enter l now t waiting s =
      let (pool, dropped, out) = acquire l s.closed now s.slot.pool in
      record s {
        slot = record s.slot { pool = pool };
        waiting = waiting;
        connecting = elim out [ none ↦ (t, now) ∷ s.connecting | some c ↦ s.connecting ];
        held = elim out [ none ↦ s.held | some c ↦ c ∷ s.held ];
        closed = dropped ++ s.closed;
      }

  -- The connection is there. If the generation has moved on it is closed, and the call starts again.
  unfoldable pub connected : Task → ℕ → List (Task × ℕ) → System C → System C
  connected t now connecting s =
      if nat_beq s.slot.generation t.generation
      then record s {
        slot = record s.slot { pool = add_connection s.next_conn now s.slot.pool };
        connecting = connecting;
        held = s.next_conn ∷ s.held;
        next_conn = s.next_conn + 1;
      }
      else record s {
        connecting = connecting;
        closed = s.next_conn ∷ s.closed;
        next_conn = s.next_conn + 1;
      }

  abbrev pub lock_is_free : ℕ → System C → Bool
  lock_is_free k s = not (any (λ (t, now). nat_beq t.lock k) s.connecting)

  -- A slot that has changed, and what the change has closed.
  abbrev pub with_slot : System C → Slot C × List ℕ → System C
  with_slot s (slot, dropped) = record s { slot = slot; closed = dropped ++ s.closed }

  unfoldable pub released : ℕ → ℕ → List ℕ → System C → System C
  released c now held s =
      let (pool, dropped) = release c now s.slot.pool in
      record s { slot = record s.slot { pool = pool }; held = held; closed = dropped ++ s.closed }

  -- A release under a spelling, where the leases stay as they are.
  abbrev pub given_back : Text → Text → ℕ → ℕ → System C → System C
  given_back name raw c now s =
      let (pool, dropped) = release_connection name raw c now s.slot.pool in
      record s { slot = record s.slot { pool = pool }; closed = dropped ++ s.closed }

  pub given_back-other :
      (name raw : Text) (c now : ℕ) (s : System C)
      → (raw == name) ≡ false
      → given_back name raw c now s ≡ s
  unfolding release_connection
  given_back-other name raw c now s other = rw (release_connection, other) refl

  -- A shutdown begins: what was pooled is what it has to close.
  unfoldable pub start_closing : System C → System C
  start_closing s =
      let (slot, queue) = close_all s.slot in record s { slot = slot; closing = queue ∷ s.closing }

  -- Every step of the program, of its clients and of the peers. `waits` and `connects` are the
  -- two parts of the locked section: only one task at a time is in it under one lock. Clients give back only
  -- what they hold. A shutdown waits between two connections, and ends where it is cancelled.
  pub data Step (l : Limits) (s : System C) (u : System C) : Type 0 where
    asks :
        (alias : Option C) (cfg : C)
        → resolved s.slot.config alias ≡ some cfg
        → u ≡ request alias s
        → Step l s u
    enters :
        (t : Task) (now : ℕ) (waiting : List Task)
        → Pick t s.waiting waiting
        → lock_is_free t.lock s ≡ true
        → u ≡ enter l now t waiting s
        → Step l s u
    connects :
        (t : Task) (now : ℕ) (connecting : List (Task × ℕ))
        → Pick (t, now) s.connecting connecting
        → u ≡ connected t now connecting s
        → Step l s u
    fails :
        (t : Task) (now : ℕ) (connecting : List (Task × ℕ))
        → Pick (t, now) s.connecting connecting
        → u ≡ record s { connecting = connecting }
        → Step l s u
    releases :
        (c now : ℕ) (held : List ℕ) → Pick c s.held held → u ≡ released c now held s → Step l s u
    registers : (cfg : C) → u ≡ with_slot s (register cfg s.slot) → Step l s u
    removes : u ≡ with_slot s (remove s.slot) → Step l s u
    releases_elsewhere :
        (name raw : Text) (c now : ℕ)
        → (raw == name) ≡ false
        → u ≡ given_back name raw c now s
        → Step l s u
    closes_all : u ≡ start_closing s → Step l s u
    closes_next :
        (c : ℕ) (queue : List ℕ) (others : List (List ℕ))
        → Pick (c ∷ queue) s.closing others
        → u ≡ record s { closing = queue ∷ others; closed = c ∷ s.closed }
        → Step l s u
    shutdown_stops :
        (queue : List ℕ) (others : List (List ℕ))
        → Pick queue s.closing others
        → u ≡ record s { closing = others; lost = queue ++ s.lost }
        → Step l s u
    dies : (c : ℕ) → c < s.next_conn → u ≡ record s { closed = c ∷ s.closed } → Step l s u

  pub data Reach (l : Limits) (s : System C) : System C → Type 0 where
    start : Reach l s s
    step : {t u : System C} → Reach l s t → Step l t u → Reach l s u

  -- A manager that has loaded its registry.
  abbrev pub initial : Option C → System C
  initial config = record {
    slot = record { config = config; pool = []; generation = 0; lock = none };
    waiting = [];
    connecting = [];
    held = [];
    closed = [];
    closing = [];
    lost = [];
    next_conn = 0;
    next_lock = 0;
  }
