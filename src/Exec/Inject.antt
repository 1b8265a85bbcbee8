-- ===== src/Exec/Inject.antt =====
-- The variables that `_resolve_secrets` of portal_mcp_server/cli.py sets.
use portal_mcp_server.Base.{
  ◌≡◌, refl, ap, subst, ◌∙◌, Text, text_eq, text_eq_iff, text_has_eq, ◌==◌, Bool, true, false,
  Option, none, some, List, [], ◌∷◌, ◌++◌, any, arith, All, Result, ok, err,
}
use portal_mcp_server.Base.Dicts.{Dict, lookup, insert, lookup-insert}
use portal_mcp_server.Secrets.{env_var_name}
use portal_mcp_server.Exec.Call.{other_name, resolve_from, resolve_secrets}

any-append_last :
    (test : Text → Bool) (xs : List Text) (v : Text)
    → test v ≡ true
    → any test (xs ++ v ∷ []) ≡ true
any-append_last test [] v h = ground (arith, h)
any-append_last test (x ∷ xs) v h = ground (arith, any-append_last test xs v h)

any-append_first :
    (test : Text → Bool) (xs : List Text) (v : Text)
    → any test xs ≡ true
    → any test (xs ++ v ∷ []) ≡ true
any-append_first test [] v h = cc
any-append_first test (x ∷ xs) v h = ground (arith, any-append_first test xs v)

module _ (resolve : Text → Result Text (Option Text)) where
  -- The variable holds the secret's value, and the value is to be masked.
  abbrev pub Holds : Dict Text Text → List Text → Text → Text → Type 0
  Holds env values ev name =
      (v : Text) × ((resolve name ≡ ok (some v))
        × ((lookup ev env ≡ some v) × (any (λ w. w == v) values ≡ true)))

  -- Each variable that stands for a name holds its value.
  abbrev Kept : Dict Text Text → Dict Text Text → List Text → Type 0
  Kept env seen values = (ev name : Text) → lookup ev seen ≡ some name → Holds env values ev name

  -- The variable is new, or stands for the same name.
  abbrev Fits : Text → Option Text → Type 0
  Fits name found = (m : Text) → found ≡ some m → m ≡ name

  other_name-Fits :
      (name : Text) (found : Option Text) → other_name name found ≡ none → Fits name found
  other_name-Fits name none h m e = cc
  other_name-Fits name (some k) h m e = ground (arith, (text_eq_iff k name).0)

  Kept-insert :
      (name v : Text) (env seen : Dict Text Text) (values : List Text)
      → resolve name ≡ ok (some v)
      → Kept env seen values
      → Kept
          (insert (env_var_name name) v env)
          (insert (env_var_name name) name seen)
          (values ++ v ∷ [])
  Kept-insert name v env seen values resolved kept ev m found =
      decide (text_eq (env_var_name name) ev) refl
    where
      decide :
          (b : Bool)
          → text_eq (env_var_name name) ev ≡ b
          → Holds (insert (env_var_name name) v env) (values ++ v ∷ []) ev m
      decide true same =
          let is_name : m ≡ name = ground (arith, lookup-insert (env_var_name name) ev name seen) in
          (
            v,
            (
              rw is_name resolved,
              (
                ground (arith, lookup-insert (env_var_name name) ev v env),
                any-append_last (λ w. w == v) values v ((text_eq_iff v v).1 refl),
              ),
            ),
          )
      decide false differs =
          let before : lookup ev seen ≡ some m =
            ground (arith, lookup-insert (env_var_name name) ev name seen) in
          let (w, (r, (l, among))) = kept ev m before in
          (
            w,
            (
              r,
              (
                ground (arith, lookup-insert (env_var_name name) ev v env, l),
                any-append_first (λ x. x == w) values v among,
              ),
            ),
          )

  -- What the loop leaves: the entries that were there, and one for each name.
  abbrev Final : Dict Text Text → List Text → Dict Text Text × List Text → Type 0
  Final seen names (env', values') =
      (seen' : Dict Text Text) × (Kept env' seen' values'
        × (((ev m : Text) → lookup ev seen ≡ some m → lookup ev seen' ≡ some m)
            × All (λ name. lookup (env_var_name name) seen' ≡ some name) names))

  Final-cons :
      (name : Text) (names : List Text) (seen : Dict Text Text) (r : Dict Text Text × List Text)
      → Fits name (lookup (env_var_name name) seen)
      → Final (insert (env_var_name name) name seen) names r
      → Final seen (name ∷ names) r
  Final-cons name names seen (env', values') fits (seen', (kept, (stays, each))) = (
    seen',
    (
      kept,
      (
        (λ ev m found. stays ev m (keeps ev m found)),
        (
          stays (env_var_name name) name (
              ground (
                arith,
                lookup-insert (env_var_name name) (env_var_name name) name seen,
                (text_eq_iff (env_var_name name) (env_var_name name)).1 refl,
              )),
          each,
        ),
      ),
    ),
  )
    where
      keeps :
          (ev m : Text)
          → lookup ev seen ≡ some m
          → lookup ev (insert (env_var_name name) name seen) ≡ some m
      keeps ev m found = decide (text_eq (env_var_name name) ev) refl
        where
          decide :
              (b : Bool)
              → text_eq (env_var_name name) ev ≡ b
              → lookup ev (insert (env_var_name name) name seen) ≡ some m
          decide true same =
              let is_name : m ≡ name =
                fits m
                  (ap (λ k. lookup k seen) ((text_eq_iff (env_var_name name) ev).0 same) ∙ found) in
              rw is_name (ground (arith, lookup-insert (env_var_name name) ev name seen))
          decide false differs =
              ground (arith, lookup-insert (env_var_name name) ev name seen, found)

  resolve_from-Final :
      (names : List Text) (env seen : Dict Text Text) (values : List Text)
      → Kept env seen values
      → (r : Dict Text Text × List Text) → resolve_from resolve names env seen values ≡ ok r
      → Final seen names r
  unfolding resolve_from
  resolve_from-Final [] env seen values kept r went =
      let same : (env, values) ≡ r = cc in
      subst (Final seen []) same (seen, (kept, ((λ ev m found. found), tt)))
  resolve_from-Final (name ∷ names) env seen values kept r went =
      decide (other_name name (lookup (env_var_name name) seen)) refl (resolve name) refl
        (λ v resolved.
          resolve_from-Final names (insert (env_var_name name) v env)
            (insert (env_var_name name) name seen) (values ++ v ∷ [])
            (Kept-insert name v env seen values resolved kept) r)
    where
      decide :
          (o : Option Text)
          → other_name name (lookup (env_var_name name) seen) ≡ o
          → (q : Result Text (Option Text)) → resolve name ≡ q
          → ((v : Text)
              → resolve name ≡ ok (some v)
              → resolve_from resolve names
                  (insert (env_var_name name) v env)
                  (insert (env_var_name name) name seen)
                  (values ++ v ∷ [])
                ≡ ok r
              → Final (insert (env_var_name name) name seen) names r)
          → Final seen (name ∷ names) r
      decide (some m) clash q _ later = cc (went, clash)
      decide none fits (err e) failed later = cc (went, fits, failed)
      decide none fits (ok none) lacks later = cc (went, fits, lacks)
      decide none fits (ok (some v)) has later =
          Final-cons name names seen r (other_name-Fits name (lookup (env_var_name name) seen) fits)
            (later v has (rw (resolve_from, fits, has) at went))

  -- Where the names resolve, each name's variable holds the name's own value, and that value is among those
  -- that the outputs are masked of.
  pub resolve_secrets_lem :
      (names : List Text) (env : Dict Text Text) (values : List Text)
      → resolve_secrets resolve names ≡ ok (env, values)
      → All (λ name. Holds env values (env_var_name name) name) names
  unfolding lookup
  resolve_secrets_lem names env values went =
      let (seen, (kept, (_, each))) =
        resolve_from-Final names [] [] [] (λ ev m found. cc) (env, values) went in
      holds seen kept names each
    where
      holds :
          (seen : Dict Text Text)
          → Kept env seen values
          → (ns : List Text) → All (λ name. lookup (env_var_name name) seen ≡ some name) ns
          → All (λ name. Holds env values (env_var_name name) name) ns
      holds seen kept [] each = tt
      holds seen kept (n ∷ ns) (e, each) = (kept (env_var_name n) n e, holds seen kept ns each)

  Holds-any :
      (names : List Text) (env : Dict Text Text) (values : List Text) (name x : Text)
      → All (λ n. Holds env values (env_var_name n) n) names
      → any (λ n. n == name) names ≡ true
      → resolve name ≡ ok (some x)
      → any (λ w. w == x) values ≡ true
  Holds-any [] env values name x each named resolved = cc
  Holds-any (n ∷ ns) env values name x ((w, (r, (_, inside))), each) named resolved =
      decide (text_eq n name) refl (Holds-any ns env values name x each)
    where
      decide :
          (b : Bool)
          → text_eq n name ≡ b
          → (any (λ n. n == name) ns ≡ true
              → resolve name ≡ ok (some x)
              → any (λ w. w == x) values ≡ true)
          → any (λ w. w == x) values ≡ true
      decide true same later =
          let equal : w ≡ x = cc ((text_eq_iff n name).0 same, r, resolved) in
          subst (λ x. any (λ w. w == x) values ≡ true) equal inside
      decide false differs later = later (ground (arith, differs, named)) resolved

  -- The value of a secret that is named is among those that the outputs are masked of.
  pub resolve_secrets-any :
      (names : List Text) (env : Dict Text Text) (values : List Text)
      → resolve_secrets resolve names ≡ ok (env, values)
      → (name x : Text) → any (λ n. n == name) names ≡ true
      → resolve name ≡ ok (some x)
      → any (λ w. w == x) values ≡ true
  resolve_secrets-any names env values went name x =
      Holds-any names env values name x (resolve_secrets_lem names env values went)
