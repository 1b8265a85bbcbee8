-- ===== src/Session/Scan.antt =====
-- The search for the marker in portal_mcp_server/session_manager.py, over bytes that arrive in chunks.
use portal_mcp_server.Base.{
  ℕ, ◌+◌, ◌-◌, ◌≤◌, ◌<◌, ◌≡◌, refl, sym, ap, subst, ◌∙◌, ◌⊎◌, inl, inr, Option, none, some, List,
  [], ◌∷◌, ◌++◌, length, drop, drop-drop, drop-append_le, drop_all, length-drop, leb, arith,
  Option-cases, Bool-cases, zero, suc,
}
use portal_mcp_server.Session.Marker.{
  Matching, Move, fails, goes, matches, advance, lengthen, match_from, marker_start, shift,
  search_done, search_done_from,
}

lengthen-some :
    (o : Option (Option ℕ × ℕ)) (code : Option ℕ) (len : ℕ)
    → lengthen o ≡ some (code, len)
    → (k : ℕ) × (o ≡ some (code, k)) × (len ≡ k + 1)
lengthen-some none code len h = absurd cc
lengthen-some (some (c, k)) code len h = (k, cc, cc)

-- A match has a byte.
match_from_pos :
    (m : Matching) (s : List ℕ) (code : Option ℕ) (len : ℕ)
    → match_from m s ≡ some (code, len)
    → 0 < len
unfolding match_from
match_from_pos m [] code len h = absurd cc
match_from_pos m (c ∷ s) code len h = ground (arith, h)

Move-cases :
    (v : Move)
    → (v ≡ fails) ⊎ (((m : Matching) × (v ≡ goes m)) ⊎ ((code : Option ℕ) × (v ≡ matches code)))
Move-cases fails = inl refl
Move-cases (goes m) = inr (inl (m, refl))
Move-cases (matches code) = inr (inr (code, refl))

-- More bytes do not change a match.
match_from-append :
    (m : Matching) (s t : List ℕ) (code : Option ℕ) (len : ℕ)
    → match_from m s ≡ some (code, len)
    → match_from m (s ++ t) ≡ some (code, len)
unfolding match_from
match_from-append m [] t code len h = absurd cc
match_from-append m (c ∷ s) t code len h = elim (Move-cases (advance m c)) [
  | inl e ↦ rw (match_from, e) (rw (match_from, e) at h)
  | inr (inl (m', e)) ↦
      let (k, found, n) = lengthen-some (match_from m' s) code len (rw (match_from, e) at h) in
      let ih = match_from-append m' s t code k found in
      rw (match_from, e, ih) (ap (λ j. some (code, j)) (sym n))
  | inr (inr (code', e)) ↦ rw (match_from, e) (rw (match_from, e) at h)
]

-- A match that is no longer than the first bytes is one of these bytes.
match_from-local :
    (m : Matching) (s t : List ℕ) (code : Option ℕ) (len : ℕ)
    → match_from m (s ++ t) ≡ some (code, len)
    → len ≤ length s
    → match_from m s ≡ some (code, len)
unfolding match_from
match_from-local m [] t code len h le =
    let p = match_from_pos m t code len h in absurd (omega arith)
match_from-local m (c ∷ s) t code len h le = elim (Move-cases (advance m c)) [
  | inl e ↦ rw (match_from, e) (rw (match_from, e) at h)
  | inr (inl (m', e)) ↦
      let (k, found, n) =
        lengthen-some (match_from m' (s ++ t)) code len (rw (match_from, e) at h) in
      let ih = match_from-local m' s t code k found (omega arith) in
      rw (match_from, e, ih) (ap (λ j. some (code, j)) (sym n))
  | inr (inr (code', e)) ↦ rw (match_from, e) (rw (match_from, e) at h)
]

-- No marker is longer than 65 bytes: the marker of an exit code of up to 56 digits.
abbrev pub Short : List ℕ → Type 0
Short s =
    (n : ℕ) (code : Option ℕ) (len : ℕ)
    → match_from marker_start (drop n s) ≡ some (code, len)
    → len ≤ 65

length_one :
    (code' code : Option ℕ) (len : ℕ)
    → ◌≡◌ {A = Option (Option ℕ × ℕ)} (some (code', 1)) (some (code, len))
    → len ≡ 1
length_one code' code len h = cc

-- A match lies within the bytes.
match_from-le :
    (m : Matching) (s : List ℕ) (code : Option ℕ) (len : ℕ)
    → match_from m s ≡ some (code, len)
    → len ≤ length s
unfolding match_from
match_from-le m [] code len h = absurd cc
match_from-le m (c ∷ s) code len h = elim (Move-cases (advance m c)) [
  | inl e ↦ cc (rw (match_from, e) at h)
  | inr (inl (m', e)) ↦
      let (k, found, n) = lengthen-some (match_from m' s) code len (rw (match_from, e) at h) in
      let ih = match_from-le m' s code k found in omega arith
  | inr (inr (code', e)) ↦
      let one : len ≡ 1 = length_one code' code len (rw (match_from, e) at h) in omega arith
]

-- So few bytes have no long marker.
pub Short-few : (s : List ℕ) → length s ≤ 65 → Short s
Short-few s few n code len h =
    let inside = match_from-le marker_start (drop n s) code len h in
    let rest = length-drop n s in omega arith

search_done-none :
    (c : ℕ) (s : List ℕ)
    → search_done (c ∷ s) ≡ none
    → (match_from marker_start (c ∷ s) ≡ none) × (search_done s ≡ none)
unfolding search_done
search_done-none c s h = elim (Option-cases (match_from marker_start (c ∷ s))) [
  | inl e ↦ (e, shift_none (search_done s) (rw (search_done, e) at h))
  | inr ((code, len), e) ↦ cc (rw (search_done, e) at h)
]
  where
    shift_none : (o : Option (ℕ × Option ℕ)) → shift 1 o ≡ none → o ≡ none
    shift_none none h = refl
    shift_none (some (i, code)) h = cc

shift-suc : (k : ℕ) (o : Option (ℕ × Option ℕ)) → shift 1 (shift k o) ≡ shift (suc k) o
shift-suc k none = refl
shift-suc k (some (i, code)) = ap (λ n. some (n, code)) (omega arith)

shift_zero : (o : Option (ℕ × Option ℕ)) → shift 0 o ≡ o
shift_zero none = refl
shift_zero (some (i, code)) = ap (λ n. some (n, code)) (omega arith)

search_done-skip :
    (c : ℕ) (s : List ℕ)
    → match_from marker_start (c ∷ s) ≡ none
    → search_done (c ∷ s) ≡ shift 1 (search_done s)
unfolding search_done
search_done-skip c s e = rw (search_done, e) refl

-- A marker does not begin so early, unless the first bytes have it.
no_head :
    (b : ℕ) (buf chunk : List ℕ)
    → 64 ≤ length buf
    → Short (b ∷ (buf ++ chunk))
    → match_from marker_start (b ∷ buf) ≡ none
    → match_from marker_start (b ∷ (buf ++ chunk)) ≡ none
no_head b buf chunk many short here =
    elim (Option-cases (match_from marker_start (b ∷ (buf ++ chunk)))) [
      | inl e ↦ e
      | inr ((code, len), e) ↦
          let le : len ≤ 65 = short 0 code len e in
          let inside = match_from-local marker_start (b ∷ buf) chunk code len e (omega arith) in
          cc (here, inside)
    ]

-- If the bytes have no marker, then after more bytes the search may leave out all but the last 64.
pub search_done_from-append :
    (buf chunk : List ℕ)
    → Short (buf ++ chunk)
    → search_done buf ≡ none
    → search_done_from (length buf - 64) (buf ++ chunk) ≡ search_done (buf ++ chunk)
search_done_from-append [] chunk short h = shift_zero (search_done chunk)
search_done_from-append (b ∷ buf) chunk short h = elim (Bool-cases (leb (length buf) 63)) [
  | inl few ↦
      let z : suc (length buf) - 64 ≡ 0 = ground (arith, few) in
      rw z (shift_zero (search_done (b ∷ (buf ++ chunk))))
  | inr many ↦
      let z : suc (length buf) - 64 ≡ suc (length buf - 64) = ground (arith, many) in
      let (here, later) = search_done-none b buf h in
      let ih = search_done_from-append buf chunk (λ n. short (suc n)) later in
      let head = no_head b buf chunk (ground (arith, many)) short here in
      rw z (
        sym (shift-suc (length buf - 64) (search_done (drop (length buf - 64) (buf ++ chunk))))
        ∙ ap (shift 1) ih
        ∙ sym (search_done-skip b (buf ++ chunk) head))
]

Short-drop : (d : ℕ) (s : List ℕ) → Short s → Short (drop d s)
Short-drop d s short n code len h =
    short (d + n) code len (ap (match_from marker_start) (sym (drop-drop n d s)) ∙ h)

pub Short-append : (s t : List ℕ) → Short (s ++ t) → Short s
unfolding match_from
Short-append s t short n code len h = elim (Bool-cases (leb n (length s))) [
  | inl within ↦ short n code len (
      ap (match_from marker_start) (drop-append_le n s t (ground (arith, within)))
      ∙ match_from-append marker_start (drop n s) t code len h)
  | inr past ↦ let gone : drop n s ≡ [] = drop_all n s (ground (arith, past)) in cc (h, gone)
]

search_done-drop-none : (d : ℕ) (s : List ℕ) → search_done s ≡ none → search_done (drop d s) ≡ none
search_done-drop-none zero s h = h
search_done-drop-none (suc d) [] h = h
search_done-drop-none (suc d) (c ∷ s) h = search_done-drop-none d s (search_done-none c s h).1

-- The same where the head of all the bytes is cut_length.
pub search_done_from-cut :
    (d : ℕ) (buf chunk : List ℕ)
    → Short (buf ++ chunk)
    → search_done buf ≡ none
    → search_done_from (length buf - d - 64) (drop d (buf ++ chunk))
      ≡ search_done (drop d (buf ++ chunk))
search_done_from-cut d buf chunk short h = elim (Bool-cases (leb d (length buf))) [
  | inl within ↦
      let split : drop d (buf ++ chunk) ≡ drop d buf ++ chunk =
        drop-append_le d buf chunk (ground (arith, within)) in
      let short' : Short (drop d buf ++ chunk) =
        subst Short split (Short-drop d (buf ++ chunk) short) in
      subst
        (λ k.
          search_done_from (k - 64) (drop d (buf ++ chunk)) ≡ search_done (drop d (buf ++ chunk)))
        (length-drop d buf)
        (subst (λ s. search_done_from (length (drop d buf) - 64) s ≡ search_done s) (sym split)
          (search_done_from-append (drop d buf) chunk short' (search_done-drop-none d buf h)))
  | inr past ↦
      let z : length buf - d - 64 ≡ 0 = ground (arith, past) in
      rw z (shift_zero (search_done (drop d (buf ++ chunk))))
]

-- What is kept and what is still to come have no long marker either.
pub Short-cut :
    (d : ℕ) (s rest : List ℕ) → d ≤ length s → Short (s ++ rest) → Short (drop d s ++ rest)
Short-cut d s rest le short =
    subst Short (drop-append_le d s rest le) (Short-drop d (s ++ rest) short)
