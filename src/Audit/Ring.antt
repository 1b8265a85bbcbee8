-- ===== src/Audit/Ring.antt =====
-- The ring buffer of portal_mcp_server/audit.py against the log as a whole.
use portal_mcp_server.Base.{
  ◌+◌, ◌-◌, ◌≤◌, ◌≡◌, refl, ap, sym, ◌∙◌, suc, List, [], ◌∷◌, ◌++◌, length, length-append, drop,
  ltb, arith, append_assoc, append-nil, Bool-cases, inl, inr, true, false,
}
use portal_mcp_server.Audit.{Entry, push}

-- A history after more entries.
abbrev pub push_all : List Entry → List Entry → List Entry
push_all history [] = history
push_all history (e ∷ es) = push_all (push e history) es

-- The last 500 entries of a log.
abbrev pub newest : List Entry → List Entry
newest es = drop (length es - 500) es

newest-short : (es : List Entry) → length es ≤ 500 → newest es ≡ es
newest-short es h = let z : length es - 500 ≡ 0 = omega arith in rw z refl

newest-cons : (e : Entry) (es : List Entry) → 500 ≤ length es → newest (e ∷ es) ≡ newest es
newest-cons e es h =
    let z : suc (length es) - 500 ≡ suc (length es - 500) = omega arith in rw z refl

push-room : (e : Entry) (h : List Entry) → length h + 1 ≤ 500 → push e h ≡ h ++ e ∷ []
unfolding push
push-room e h le =
    let n = length-append h (e ∷ []) in
    let z : ltb 500 (length (h ++ e ∷ [])) ≡ false = ground (arith, n) in rw z refl

push-full : (e x : Entry) (h : List Entry) → length h ≡ 499 → push e (x ∷ h) ≡ h ++ e ∷ []
unfolding push
push-full e x h le =
    let n = length-append h (e ∷ []) in
    let z : ltb 500 (length ((x ∷ h) ++ e ∷ [])) ≡ true = ground (arith, n) in rw z refl

push_all-newest :
    (es history : List Entry) → length history ≤ 500 → push_all history es ≡ newest (history ++ es)
push_all-newest [] history le = rw (append-nil history) (sym (newest-short history le))
push_all-newest (e ∷ es) history le = elim (Bool-cases (ltb (length history) 500)) [
  | inl room ↦
      let n = length-append history (e ∷ []) in
      ap (λ h. push_all h es) (push-room e history (ground arith))
      ∙ push_all-newest es (history ++ e ∷ []) (ground (arith, n))
      ∙ ap newest (append_assoc history (e ∷ []) es)
  | inr full ↦ at_limit (λ g small. push_all-newest es g small) history (ground arith)
]
  where
    at_limit :
        ((g : List Entry) → length g ≤ 500 → push_all g es ≡ newest (g ++ es))
        → (h : List Entry) → length h ≡ 500
        → push_all h (e ∷ es) ≡ newest (h ++ e ∷ es)
    at_limit ih [] z = absurd (omega arith)
    at_limit ih (x ∷ h) z =
        let n = length-append h (e ∷ []) in
        let m = length-append h (e ∷ es) in
        ap (λ g. push_all g es) (push-full e x h (omega arith))
        ∙ ih (h ++ e ∷ []) (omega (arith, n))
        ∙ ap newest (append_assoc h (e ∷ []) es)
        ∙ sym (newest-cons x (h ++ e ∷ es) (omega (arith, m)))

-- However many operations are logged, the history holds the last 500 of them, in their order.
pub push_all_lem : (es : List Entry) → push_all [] es ≡ newest es
push_all_lem es = push_all-newest es [] (omega arith)
