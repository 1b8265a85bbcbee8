-- ===== src/Base/Dicts.antt =====
-- Python's dictionaries as association lists in insertion order.
use mathlib.Core.Path.{◌≡◌, refl}
use mathlib.Core.Bool.{Bool, false}
use mathlib.Core.List.{List, [], ◌∷◌}
use mathlib.Core.Option.{Option, none, some}
use native.Mathlib.Omega.{arith}
use portal_mcp_server.Base.Tests.{EqTest, ◌==◌, if◌then◌else◌}

abbrev pub Dict {ℓ κ} : Type ℓ → Type κ → Type (ℓ ⊔ κ)
Dict K V = List (K × V)

module _ {ℓ κ} {K : Type ℓ} {V : Type κ} ⦃e : EqTest K⦄ where
  -- `d.get(k)`
  unfoldable pub lookup : K → Dict K V → Option V
  lookup k [] = none
  lookup k ((j, v) ∷ d) = if j == k then some v else lookup k d

  -- `d[k] = v`
  unfoldable pub insert : K → V → Dict K V → Dict K V
  insert k v [] = (k, v) ∷ []
  insert k v ((j, w) ∷ d) = if j == k then (j, v) ∷ d else (j, w) ∷ insert k v d

  -- `d.pop(k, None)`. Keys are distinct, so all entries may go.
  unfoldable pub erase : K → Dict K V → Dict K V
  erase k [] = []
  erase k ((j, w) ∷ d) = if j == k then erase k d else (j, w) ∷ erase k d

  -- Drops the entries that fail the test.
  unfoldable pub retain : (K → V → Bool) → Dict K V → Dict K V
  retain p [] = []
  retain p ((j, w) ∷ d) = if p j w then (j, w) ∷ retain p d else retain p d

  pub lookup-insert :
      (k j : K) (v : V) (d : Dict K V)
      → lookup j (insert k v d) ≡ (if k == j then some v else lookup j d)
  unfolding lookup insert
  lookup-insert k j v [] = refl
  lookup-insert k j v ((i, w) ∷ d) =
      ground (arith, e.decides k j, e.decides i k, e.decides i j, lookup-insert k j v d)

  pub lookup-erase :
      (k j : K) (d : Dict K V) → lookup j (erase k d) ≡ (if k == j then none else lookup j d)
  unfolding lookup erase
  lookup-erase k j [] = ground arith
  lookup-erase k j ((i, w) ∷ d) =
      ground (arith, e.decides k j, e.decides i k, e.decides i j, lookup-erase k j d)

  -- No key has two entries.
  abbrev pub Unique : Dict K V → Type κ
  Unique [] = Unit
  Unique ((j, w) ∷ d) = (lookup j d ≡ none) × Unique d

  pub lookup-retain :
      (p : K → V → Bool) (k : K) (d : Dict K V)
      → Unique d
      → lookup k (retain p d)
        ≡ elim (lookup k d) [ none ↦ none | some v ↦ if p k v then some v else none ]
  unfolding lookup retain
  lookup-retain p k [] u = refl
  lookup-retain p k ((j, w) ∷ d) (fresh, u) =
      ground (arith, e.decides j k, lookup-retain p k d u, fresh)

  pub Unique-retain : (p : K → V → Bool) (d : Dict K V) → Unique d → Unique (retain p d)
  unfolding retain
  Unique-retain p [] u = tt
  Unique-retain p ((j, w) ∷ d) (fresh, u) =
      ground (arith, Unique-retain p d u, lookup-retain p j d u, fresh)

  lookup-insert_other :
      (k j : K) (v : V) (d : Dict K V)
      → (k == j) ≡ false
      → lookup j d ≡ none
      → lookup j (insert k v d) ≡ none
  lookup-insert_other k j v d e h = ground (arith, lookup-insert k j v d)

  pub Unique-insert : (k : K) (v : V) (d : Dict K V) → Unique d → Unique (insert k v d)
  unfolding insert lookup
  Unique-insert k v [] u = (refl, tt)
  Unique-insert k v ((j, w) ∷ d) (fresh, u) =
      ground
        (arith, e.decides j k, e.decides k j, Unique-insert k v d u, lookup-insert k j v d, fresh)

  lookup-erase-none : (k j : K) (d : Dict K V) → lookup j d ≡ none → lookup j (erase k d) ≡ none
  lookup-erase-none k j d h = ground (arith, lookup-erase k j d)

  pub Unique-erase : (k : K) (d : Dict K V) → Unique d → Unique (erase k d)
  unfolding erase
  Unique-erase k [] u = tt
  Unique-erase k ((j, w) ∷ d) (fresh, u) =
      ground (arith, Unique-erase k d u, lookup-erase-none k j d fresh)
