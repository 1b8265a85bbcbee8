-- ===== src/Base/Lists.antt =====
-- Lists measured and cut by native numbers, under the library's names.
use Prim.Native.Nat.{ℕ, zero, suc, ◌+◌, ◌-◌, ◌≤◌, min}
use mathlib.Core.Path.{◌≡◌, refl, ap}
use mathlib.Core.Bool.{Bool, true, false}
use mathlib.Core.List.{List, [], ◌∷◌, ◌++◌, append_assoc}
use native.Mathlib.Omega.{arith}
use portal_mcp_server.Base.Tests.{if◌then◌else◌}

module _ {ℓ} {A : Type ℓ} where
  abbrev pub length : List A → ℕ
  length [] = 0
  length (x ∷ xs) = suc (length xs)

  abbrev pub take : ℕ → List A → List A
  take zero xs = []
  take (suc n) [] = []
  take (suc n) (x ∷ xs) = x ∷ take n xs

  abbrev pub drop : ℕ → List A → List A
  drop zero xs = xs
  drop (suc n) [] = []
  drop (suc n) (x ∷ xs) = drop n xs

  abbrev pub is_empty : List A → Bool
  is_empty [] = true
  is_empty (x ∷ xs) = false

  -- A filter by a Boolean test.
  abbrev pub keep_if : (A → Bool) → List A → List A
  keep_if p [] = []
  keep_if p (x ∷ xs) = if p x then x ∷ keep_if p xs else keep_if p xs

  -- `any(p(x) for x in xs)`
  abbrev pub any : (A → Bool) → List A → Bool
  any p [] = false
  any p (x ∷ xs) = if p x then true else any p xs

  abbrev pub all : (A → Bool) → List A → Bool
  all p [] = true
  all p (x ∷ xs) = if p x then all p xs else false

  abbrev pub All {κ} : (A → Type κ) → List A → Type κ
  All P [] = Unit
  All P (x ∷ xs) = P x × All P xs

module _ {ℓ} {A : Type ℓ} where
  pub length-append : (xs ys : List A) → length (xs ++ ys) ≡ length xs + length ys
  length-append [] ys = omega arith
  length-append (x ∷ xs) ys = omega (arith, length-append xs ys)

  pub take-append-drop : (n : ℕ) (xs : List A) → take n xs ++ drop n xs ≡ xs
  take-append-drop zero xs = refl
  take-append-drop (suc n) [] = refl
  take-append-drop (suc n) (x ∷ xs) = ap (◌∷◌ x) (take-append-drop n xs)

  pub length-take : (n : ℕ) (xs : List A) → length (take n xs) ≡ min n (length xs)
  length-take zero xs = omega arith
  length-take (suc n) [] = omega arith
  length-take (suc n) (x ∷ xs) = omega (arith, length-take n xs)

  pub length-drop : (n : ℕ) (xs : List A) → length (drop n xs) ≡ length xs - n
  length-drop zero xs = omega arith
  length-drop (suc n) [] = omega arith
  length-drop (suc n) (x ∷ xs) = omega (arith, length-drop n xs)

  pub take_all : (n : ℕ) (xs : List A) → length xs ≤ n → take n xs ≡ xs
  take_all zero [] h = refl
  take_all zero (x ∷ xs) h = absurd (omega arith)
  take_all (suc n) [] h = refl
  take_all (suc n) (x ∷ xs) h = ap (◌∷◌ x) (take_all n xs (omega arith))

  pub drop_all : (n : ℕ) (xs : List A) → length xs ≤ n → drop n xs ≡ []
  drop_all zero [] h = refl
  drop_all zero (x ∷ xs) h = absurd (omega arith)
  drop_all (suc n) [] h = refl
  drop_all (suc n) (x ∷ xs) h = drop_all n xs (omega arith)

  pub drop-drop : (m n : ℕ) (xs : List A) → drop m (drop n xs) ≡ drop (n + m) xs
  drop-drop m zero xs = let e : 0 + m ≡ m = omega arith in rw e
  drop-drop zero (suc n) [] = let e : suc n + 0 ≡ suc n = omega arith in rw e
  drop-drop (suc m) (suc n) [] = let e : suc n + suc m ≡ suc (n + suc m) = omega arith in rw e
  drop-drop m (suc n) (x ∷ xs) =
      let e : suc n + m ≡ suc (n + m) = omega arith in rw e (drop-drop m n xs)

  -- Cutting at a place that lies in the first part.
  pub take-append_le : (n : ℕ) (xs ys : List A) → n ≤ length xs → take n (xs ++ ys) ≡ take n xs
  take-append_le zero xs ys h = refl
  take-append_le (suc n) [] ys h = absurd (omega arith)
  take-append_le (suc n) (x ∷ xs) ys h = ap (◌∷◌ x) (take-append_le n xs ys (omega arith))

  pub drop-append_le :
      (n : ℕ) (xs ys : List A) → n ≤ length xs → drop n (xs ++ ys) ≡ drop n xs ++ ys
  drop-append_le zero xs ys h = refl
  drop-append_le (suc n) [] ys h = absurd (omega arith)
  drop-append_le (suc n) (x ∷ xs) ys h = drop-append_le n xs ys (omega arith)

  pub take-take : (m n : ℕ) (xs : List A) → m ≤ n → take m (take n xs) ≡ take m xs
  take-take zero n xs h = refl
  take-take (suc m) zero xs h = absurd (omega arith)
  take-take (suc m) (suc n) [] h = refl
  take-take (suc m) (suc n) (x ∷ xs) h = ap (◌∷◌ x) (take-take m n xs (omega arith))

  pub drop-take : (m n : ℕ) (xs : List A) → drop m (take n xs) ≡ take (n - m) (drop m xs)
  drop-take zero n xs = let e : n - 0 ≡ n = omega arith in rw e
  drop-take (suc m) zero xs = let e : 0 - suc m ≡ 0 = omega arith in rw e
  drop-take (suc m) (suc n) [] = take-nil (suc n - suc m)
    where
      take-nil : (k : ℕ) → ◌≡◌ {A = List A} [] (take k [])
      take-nil zero = refl
      take-nil (suc k) = refl
  drop-take (suc m) (suc n) (x ∷ xs) =
      let e : suc n - suc m ≡ n - m = omega arith in rw e (drop-take m n xs)

  -- Two adjacent pieces make one.
  pub take-add : (m n : ℕ) (xs : List A) → take m xs ++ take n (drop m xs) ≡ take (m + n) xs
  take-add zero n xs = let e : 0 + n ≡ n = omega arith in rw e
  take-add (suc m) zero [] = let e : suc m + 0 ≡ suc m = omega arith in rw e
  take-add (suc m) (suc n) [] = let e : suc m + suc n ≡ suc (m + suc n) = omega arith in rw e
  take-add (suc m) n (x ∷ xs) =
      let e : suc m + n ≡ suc (m + n) = omega arith in rw e (ap (◌∷◌ x) (take-add m n xs))

  pub length-keep_if : (p : A → Bool) (xs : List A) → length (keep_if p xs) ≤ length xs
  length-keep_if p [] = omega arith
  length-keep_if p (x ∷ xs) = ground (arith, length-keep_if p xs)

  pub All-append {κ} : (P : A → Type κ) (xs ys : List A) → All P xs → All P ys → All P (xs ++ ys)
  All-append P [] ys h k = k
  All-append P (x ∷ xs) ys h k = (h.0, All-append P xs ys h.1 k)

  pub All-keep_if {κ} :
      (P : A → Type κ) (p : A → Bool) (xs : List A) → All P xs → All P (keep_if p xs)
  All-keep_if P p [] h = tt
  All-keep_if P p (x ∷ xs) h = ground (arith, All-keep_if P p xs h.1)

-- `"".join(xs)`
abbrev pub join {ℓ} : {A : Type ℓ} → List (List A) → List A
join [] = []
join (x ∷ xs) = x ++ join xs

pub join-append {ℓ} : {A : Type ℓ} (xs ys : List (List A)) → join (xs ++ ys) ≡ join xs ++ join ys
join-append [] ys = refl
join-append (x ∷ xs) ys = simp (join-append xs ys, append_assoc)
