-- ===== src/Base/Results.antt =====
-- Results of code that raises or returns an error.
use mathlib.Core.Path.{◌≡◌, refl}
use mathlib.Core.Logic.{◌⊎◌, inl, inr}
use mathlib.Core.Bool.{Bool, true, false}
use portal_mcp_server.Base.Tests.{if◌then◌else◌}

pub data Result {ℓ κ} (E : Type ℓ) (A : Type κ) : Type (ℓ ⊔ κ) where
  ok : A → Result E A
  err : E → Result E A

infixl 5 ◌>>=◌ ◌>>◌
abbrev pub ◌>>=◌ {ℓ κ μ} :
    {E : Type ℓ} {A : Type κ} {B : Type μ} → Result E A → (A → Result E B) → Result E B
r >>= next = elim r [ ok x ↦ next x | err fault ↦ err fault ]

-- A check, and what follows it.
abbrev pub ◌>>◌ {ℓ μ} : {E : Type ℓ} {B : Type μ} → Result E (Unit {0}) → Result E B → Result E B
check >> next = elim check [ ok _ ↦ next | err fault ↦ err fault ]

-- `if b: raise e`
abbrev pub fail_if {ℓ} : {E : Type ℓ} → Bool → E → Result E (Unit {0})
fail_if b fault = if b then err fault else ok tt

-- A chain that ends well, taken apart at its first step.
pub >>=-eq-ok {ℓ κ μ} :
    {E : Type ℓ} {A : Type κ} {B : Type μ} (r : Result E A) (next : A → Result E B) {y : B}
    → (r >>= next) ≡ ok y
    → (x : A) × (r ≡ ok x) × (next x ≡ ok y)
>>=-eq-ok (err fault) next went = cc
>>=-eq-ok (ok x) next went = (x, refl, went)

pub fail_if-eq-ok {ℓ κ} :
    {E : Type ℓ} {B : Type κ} (t : Bool) (e : E) (k : Result E B) {b : B}
    → (fail_if t e >> k) ≡ ok b
    → (t ≡ false) × (k ≡ ok b)
fail_if-eq-ok true e k h = cc
fail_if-eq-ok false e k h = (refl, h)

pub Result-cases {ℓ κ} :
    {E : Type ℓ} {A : Type κ} (r : Result E A) → ((a : A) × (r ≡ ok a)) ⊎ ((e : E) × (r ≡ err e))
Result-cases (ok a) = inl (a, refl)
Result-cases (err e) = inr (e, refl)

-- The predicate holds of the value, if there is one.
abbrev pub WhenOk {ℓ κ μ} : {E : Type ℓ} {A : Type κ} → (A → Type μ) → Result E A → Type μ
WhenOk P (ok x) = P x
WhenOk P (err fault) = Unit

pub >>=-WhenOk {ℓ κ μ ν} :
    {E : Type ℓ} {A : Type κ} {B : Type μ} (P : A → Type ν) (Q : B → Type ν) (r : Result E A)
    (next : A → Result E B)
    → WhenOk P r
    → ((x : A) → P x → WhenOk Q (next x))
    → WhenOk Q (r >>= next)
>>=-WhenOk P Q (ok x) next p go = go x p
>>=-WhenOk P Q (err e) next p go = tt
