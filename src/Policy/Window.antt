-- ===== src/Policy/Window.antt =====
-- The sliding window of `check_rate_limit` in portal_mcp_server/security.py.
use portal_mcp_server.Base.{
  ℕ, ◌+◌, ◌≤◌, ◌<◌, ◌≡◌, refl, sym, ap, ◌∙◌, subst, Text, text_eq, text_eq_iff, text_has_eq, Bool,
  true, false, ◌&&◌, none, some, List, [], ◌∷◌, ◌++◌, length, leb, ltb, arith, if◌then◌else◌,
  Bool-cases, inl, inr,
}
use portal_mcp_server.Base.Dicts.{lookup, insert, lookup-insert}
use portal_mcp_server.Policy.{Policy, Refusal, Counters, calls_of, recent, check_rate_limit}

-- The calls, each a host and a time, that the limiter lets through, one after the other.
unfoldable pub admitted : ℕ → Policy → Counters → List (Text × ℕ) → List (Text × ℕ)
admitted second p counters [] = []
admitted second p counters ((host, now) ∷ calls) =
    let (counters', refusal) = check_rate_limit second p host now counters in
    let rest = admitted second p counters' calls in
    elim refusal [ none ↦ (host, now) ∷ rest | some err ↦ rest ]

-- The clock does not run backwards.
abbrev pub Ascending : ℕ → List (Text × ℕ) → Type 0
Ascending since [] = Unit {0}
Ascending since ((host, now) ∷ calls) = (since ≤ now) × Ascending now calls

-- The time lies in the second that ends at `t`.
abbrev pub in_window : ℕ → ℕ → ℕ → Bool
in_window second t now = leb now t && ltb t (now + second)

abbrev pub count_times : ℕ → ℕ → List ℕ → ℕ
count_times second t [] = 0
count_times second t (now ∷ times) =
    (if in_window second t now then 1 else 0) + count_times second t times

-- How many of the calls are a host's and in the second that ends at `t`.
abbrev pub count_calls : ℕ → Text → ℕ → List (Text × ℕ) → ℕ
count_calls second host t [] = 0
count_calls second host t ((h, now) ∷ calls) =
    (if text_eq h host && in_window second t now then 1 else 0) + count_calls second host t calls

module _ (second : ℕ) where
  count_times-length : (t : ℕ) (times : List ℕ) → count_times second t times ≤ length times
  count_times-length t [] = omega arith
  count_times-length t (now ∷ times) = ground (arith, count_times-length t times)

  count_times-recent_le :
      (t now : ℕ) (times : List ℕ)
      → count_times second t (recent second now times) ≤ count_times second t times
  count_times-recent_le t now [] = omega arith
  count_times-recent_le t now (x ∷ times) = ground (arith, count_times-recent_le t now times)

  count_times-recent :
      (t now : ℕ) (times : List ℕ)
      → now ≤ t
      → count_times second t (recent second now times) ≡ count_times second t times
  count_times-recent t now [] h = omega arith
  count_times-recent t now (x ∷ times) h = ground (arith, count_times-recent t now times h)

  count_times-append :
      (t now : ℕ) (times : List ℕ)
      → count_times second t (times ++ now ∷ [])
        ≡ count_times second t times + (if in_window second t now then 1 else 0)
  count_times-append t now [] = ground arith
  count_times-append t now (x ∷ times) = ground (arith, count_times-append t now times)

  -- What has not come yet is in no earlier second.
  count_calls-later :
      (p : Policy) (counters : Counters) (host : Text) (t since : ℕ) (calls : List (Text × ℕ))
      → t < since
      → Ascending since calls
      → count_calls second host t (admitted second p counters calls) ≡ 0
  unfolding admitted
  count_calls-later p counters host t since [] lt up = omega arith
  count_calls-later p counters host t since ((h, now) ∷ calls) lt (le, up) =
      let run = check_rate_limit second p h now counters in
      let ih = count_calls-later p run.0 host t now calls (omega arith) up in ground (arith, ih)

  calls_of-insert :
      (k j : Text) (v : List ℕ) (d : Counters)
      → calls_of j (insert k v d) ≡ (if text_eq k j then v else calls_of j d)
  calls_of-insert k j v d = ground (arith, lookup-insert k j v d)

  module _ (p : Policy) (host : Text) where
    -- No second has more of the host's calls than the limit.
    Within : List ℕ → Type 0
    Within times = (t : ℕ) → count_times second t times ≤ p.per_second

    Within-append :
        (now : ℕ) (times : List ℕ) → length times < p.per_second → Within (times ++ now ∷ [])
    unfolding Within
    Within-append now times h t =
        let e = count_times-append t now times in
        let le = count_times-length t times in ground (arith, e, le)

    module _ (counters : Counters) (h : Text) (now : ℕ) where
      abbrev times : List ℕ
      times = recent second now (calls_of h counters)

      abbrev kept : Counters
      kept = insert h times counters

      abbrev more : Counters
      more = insert h (times ++ now ∷ []) counters

      Within-kept : Within (calls_of host counters) → Within (calls_of host kept)
      unfolding Within
      Within-kept within t = elim (Bool-cases (text_eq h host)) [
        | inl e ↦
            let same : h ≡ host = (text_eq_iff h host).0 e in
            let le = count_times-recent_le t now (calls_of h counters) in
            let bound : count_times second t (calls_of h counters) ≤ p.per_second =
              subst (λ k. count_times second t (calls_of k counters) ≤ p.per_second) (sym same)
                (within t) in
            rw (calls_of-insert h host times counters, e) (omega (arith, le, bound))
        | inr e ↦ rw (calls_of-insert h host times counters, e) (within t)
      ]

      Within-more :
          length times < p.per_second
          → Within (calls_of host counters)
          → Within (calls_of host more)
      unfolding Within
      Within-more room within t = elim (Bool-cases (text_eq h host)) [
        | inl e ↦
            rw (calls_of-insert h host (times ++ now ∷ []) counters, e)
              (Within-append now times room t)
        | inr e ↦ rw (calls_of-insert h host (times ++ now ∷ []) counters, e) (within t)
      ]

      count_times-kept :
          (t : ℕ)
          → now ≤ t
          → count_times second t (calls_of host kept)
            ≡ count_times second t (calls_of host counters)
      count_times-kept t le = elim (Bool-cases (text_eq h host)) [
        | inl e ↦
            let same : h ≡ host = (text_eq_iff h host).0 e in
            rw (calls_of-insert h host times counters, e)
              (count_times-recent t now (calls_of h counters) le
                ∙ ap (λ k. count_times second t (calls_of k counters)) same)
        | inr e ↦ rw (calls_of-insert h host times counters, e) refl
      ]

      count_times-more :
          (t : ℕ)
          → now ≤ t
          → count_times second t (calls_of host more)
            ≡ count_times second t (calls_of host counters)
              + (if text_eq h host && in_window second t now then 1 else 0)
      count_times-more t le = elim (Bool-cases (text_eq h host)) [
        | inl e ↦
            let same : h ≡ host = (text_eq_iff h host).0 e in
            rw (calls_of-insert h host (times ++ now ∷ []) counters, e)
              (count_times-append t now times
                ∙ ap (λ n. n + (if in_window second t now then 1 else 0))
                    (count_times-recent t now (calls_of h counters) le
                      ∙ ap (λ k. count_times second t (calls_of k counters)) same))
        | inr e ↦ rw (calls_of-insert h host (times ++ now ∷ []) counters, e) (omega arith)
      ]

      check_rate_limit-full :
          leb p.per_second (length times) ≡ true
          → check_rate_limit second p h now counters ≡ (kept, some (Refusal.rate_exceeded h))
      unfolding check_rate_limit
      check_rate_limit-full full = rw full refl

      check_rate_limit-room :
          leb p.per_second (length times) ≡ false
          → check_rate_limit second p h now counters ≡ (more, none)
      unfolding check_rate_limit
      check_rate_limit-room room = rw room refl

      admitted-full :
          (calls : List (Text × ℕ))
          → leb p.per_second (length times) ≡ true
          → admitted second p counters ((h, now) ∷ calls) ≡ admitted second p kept calls
      unfolding admitted
      admitted-full calls full =
          let c0 = ap (λ r. r.0) (check_rate_limit-full full) in
          let c1 = ap (λ r. r.1) (check_rate_limit-full full) in rw (admitted, c1, c0) refl

      admitted-room :
          (calls : List (Text × ℕ))
          → leb p.per_second (length times) ≡ false
          → admitted second p counters ((h, now) ∷ calls) ≡ (h, now) ∷ admitted second p more calls
      unfolding admitted
      admitted-room calls room =
          let c0 = ap (λ r. r.0) (check_rate_limit-room room) in
          let c1 = ap (λ r. r.1) (check_rate_limit-room room) in rw (admitted, c1, c0) refl

    -- The calls that are remembered and those that are still let through stay within the limit.
    admitted-Within :
        (counters : Counters) (since : ℕ) (calls : List (Text × ℕ))
        → Within (calls_of host counters)
        → Ascending since calls
        → (t : ℕ)
        → count_times second t (calls_of host counters)
            + count_calls second host t (admitted second p counters calls)
          ≤ p.per_second
    unfolding Within
    admitted-Within counters since [] within up t = unfold admitted in omega (arith, within t)
    admitted-Within counters since ((h, now) ∷ calls) within (le, up) t =
        elim (Bool-cases (leb now t)) [
          | inr early ↦ omega (
            arith,
            within t,
            count_calls-later p counters host t now ((h, now) ∷ calls) (ground arith)
                (omega arith, up),
          )
          | inl late ↦ elim (Bool-cases (leb p.per_second (length (times counters h now)))) [
            | inl full ↦
                let ih =
                  admitted-Within (kept counters h now) now calls
                    (Within-kept counters h now within) up t in
                let c = count_times-kept counters h now t (ground arith) in
                rw (admitted-full counters h now calls full) (omega (arith, ih, c))
            | inr room ↦
                let ih =
                  admitted-Within (more counters h now) now calls
                    (Within-more counters h now (ground arith) within) up t in
                let c = count_times-more counters h now t (ground arith) in
                rw (admitted-room counters h now calls room) (omega (arith, ih, c))
          ]
        ]

    -- However the calls of all hosts are mixed, no second has more calls of one host that are let
    -- through than the limit, if the clock does not run backwards.
    pub check_rate_limit-bounds :
        (calls : List (Text × ℕ))
        → Ascending 0 calls
        → (t : ℕ) → count_calls second host t (admitted second p [] calls) ≤ p.per_second
    unfolding Within lookup
    check_rate_limit-bounds calls up t =
        let z : count_times second t (calls_of host []) ≡ 0 = refl in
        omega (arith, z, admitted-Within [] 0 calls (λ t. omega arith) up t)
