-- ===== src/Secrets/Redact.antt =====
-- What `redact` of portal_mcp_server/secrets_store.py leaves of the secrets.
use portal_mcp_server.Base.{
  ℕ, ◌-◌, ◌≡◌, refl, sym, ap, subst, ◌∙◌, inl, inr, Text, text_eq, text_eq_iff, text_has_eq, ◌==◌,
  true, false, ◌||◌, List, [], ◌∷◌, ◌++◌, length, any, is_empty, nat_beq, zero, suc, arith,
  if◌then◌else◌, Bool-cases,
}
use portal_mcp_server.Secrets.{
  starts_with, occurs, mask, replace_from, replace, distinct, insert_longest, longest_first,
  replace_all, redact,
}

-- No asterisk.
abbrev pub StarFree : Text → Type 0
StarFree [] = Unit {0}
StarFree (c ∷ s) = (nat_beq c b'*' ≡ false) × StarFree s

-- What the text shows after the replacement, it showed before.
starts_with-replace :
    (v w s : Text) → StarFree v → starts_with v (replace_from w 0 s) ≡ true → starts_with v s ≡ true
unfolding replace_from
starts_with-replace [] w s free h = refl
starts_with-replace (a ∷ v) w [] free h = h
starts_with-replace (a ∷ v) w (c ∷ s) (differs, free) h =
    ground (arith, differs, starts_with-replace v w s free)

module _ (a : ℕ) (v : Text) (differs : nat_beq a b'*' ≡ false) (free : StarFree v) where
  -- A secret that does not begin with an asterisk does not show in the mask.
  occurs-mask : (s : Text) → occurs (a ∷ v) (mask ++ s) ≡ occurs (a ∷ v) s
  occurs-mask s = ground (arith, differs)

  occurs-replace_from :
      (w : Text) (skip : ℕ) (s : Text)
      → occurs (a ∷ v) (replace_from w skip s) ≡ true
      → occurs (a ∷ v) s ≡ true
  unfolding replace_from
  occurs-replace_from w skip [] h = h
  occurs-replace_from w (suc skip) (c ∷ s) h = ground (arith, occurs-replace_from w skip s h)
  occurs-replace_from w zero (c ∷ s) h = elim (Bool-cases (starts_with w (c ∷ s))) [
    | inl hit ↦ ground (
      arith,
      occurs-mask (replace_from w (length w - 1) s),
      occurs-replace_from w (length w - 1) s,
      rw hit at h,
    )
    | inr miss ↦ ground (
      arith,
      starts_with-replace (a ∷ v) w (c ∷ s) (differs, free),
      occurs-replace_from w 0 s,
      rw miss at h,
      miss,
    )
  ]

  -- Once replaced, the secret does not occur.
  occurs-replaced : (skip : ℕ) (s : Text) → occurs (a ∷ v) (replace_from (a ∷ v) skip s) ≡ false
  unfolding replace_from
  occurs-replaced skip [] = refl
  occurs-replaced (suc skip) (c ∷ s) = occurs-replaced skip s
  occurs-replaced zero (c ∷ s) = elim (Bool-cases (starts_with (a ∷ v) (c ∷ s))) [
    | inl hit ↦ rw hit (
        occurs-mask (replace_from (a ∷ v) (length (a ∷ v) - 1) s)
        ∙ occurs-replaced (length (a ∷ v) - 1) s)
    | inr miss ↦
        rw miss (ground (arith, starts_with-replace v (a ∷ v) s free, occurs-replaced 0 s, miss))
  ]

  -- Masking other values does not bring it back.
  occurs-replace_all-false :
      (ws : List Text) (s : Text)
      → occurs (a ∷ v) s ≡ false
      → occurs (a ∷ v) (replace_all ws s) ≡ false
  occurs-replace_all-false [] s h = h
  occurs-replace_all-false (w ∷ ws) s h =
      occurs-replace_all-false ws (replace w s) (ground (arith, occurs-replace_from w 0 s, h))

  occurs-replace_all :
      (ws : List Text) (s : Text)
      → any (λ w. w == (a ∷ v)) ws ≡ true
      → occurs (a ∷ v) (replace_all ws s) ≡ false
  occurs-replace_all [] s h = cc
  occurs-replace_all (w ∷ ws) s h = elim (Bool-cases (text_eq w (a ∷ v))) [
    | inl e ↦
        let same : w ≡ a ∷ v = (text_eq_iff w (a ∷ v)).0 e in
        occurs-replace_all-false ws (replace w s)
          (subst (λ u. occurs (a ∷ v) (replace u s) ≡ false) (sym same) (occurs-replaced 0 s))
    | inr e ↦ occurs-replace_all ws (replace w s) (rw e at h)
  ]

any-distinct :
    (a : ℕ) (v : Text) (ws : List Text)
    → any (λ w. w == (a ∷ v)) ws ≡ true
    → any (λ w. w == (a ∷ v)) (distinct ws) ≡ true
any-distinct a v [] h = h
any-distinct a v (w ∷ ws) h = elim (Bool-cases (text_eq w (a ∷ v))) [
  | inl e ↦
      let kept : any (λ x. x == (a ∷ v)) (distinct ((a ∷ v) ∷ ws)) ≡ true =
        elim (Bool-cases (any (λ x. x == (a ∷ v)) ws)) [
          | inl again ↦ rw again (any-distinct a v ws again)
          | inr last ↦
              let self : text_eq (a ∷ v) (a ∷ v) ≡ true = (text_eq_iff (a ∷ v) (a ∷ v)).1 refl in
              rw (last, self) refl
        ] in
      subst (λ x. any (λ y. y == (a ∷ v)) (distinct (x ∷ ws)) ≡ true)
        (sym ((text_eq_iff w (a ∷ v)).0 e)) kept
  | inr e ↦
      let ih = any-distinct a v ws (rw e at h) in
      elim (Bool-cases (is_empty w || any (λ x. x == w) ws)) [
        | inl skip ↦ rw skip ih
        | inr keep ↦ rw (keep, e) ih
      ]
]

any-insert_longest :
    (u w : Text) (ws : List Text)
    → any (λ x. x == u) (insert_longest w ws) ≡ (if text_eq w u then true else any (λ x. x == u) ws)
any-insert_longest u w [] = refl
any-insert_longest u w (x ∷ ws) = ground (arith, any-insert_longest u w ws)

any-longest_first :
    (u : Text) (ws : List Text) → any (λ x. x == u) (longest_first ws) ≡ any (λ x. x == u) ws
any-longest_first u [] = refl
any-longest_first u (w ∷ ws) =
    any-insert_longest u w (longest_first ws)
    ∙ ap (λ b. if text_eq w u then true else b) (any-longest_first u ws)

-- A secret that is among the values, is not empty and has no asterisk does not occur in the text after
-- `redact`, whatever the other values are.
pub redact-hides :
    (text : Text) (values : List Text) (a : ℕ) (v : Text)
    → StarFree (a ∷ v)
    → any (λ w. w == (a ∷ v)) values ≡ true
    → occurs (a ∷ v) (redact text values) ≡ false
unfolding redact
redact-hides [] values a v free given = refl
redact-hides (c ∷ text) values a v (differs, free) given =
    occurs-replace_all a v differs free (longest_first (distinct values)) (c ∷ text)
      (any-longest_first (a ∷ v) (distinct values) ∙ any-distinct a v values given)
