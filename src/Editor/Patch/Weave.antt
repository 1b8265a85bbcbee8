-- ===== src/Editor/Patch/Weave.antt =====
-- Edits of a list of lines in two ways: one after the other from the bottom up, as `remote_patch`
-- makes them, and all at once in a single pass from the top, which is what they are to mean.
use portal_mcp_server.Base.{
  ℕ, ◌+◌, ◌-◌, ◌≤◌, ◌≡◌, refl, sym, ap, ap₂, ◌∙◌, List, [], ◌∷◌, ◌++◌, reverse, append_assoc,
  reverse-cons, Text, take, drop, length, length-append, length-take, length-drop, take-append_le,
  drop-append_le, take-take, drop-take, drop-drop, arith,
}

-- The lines from index `from` up to `upto` are replaced.
pub record Edit : Type 0 where
  pub from : ℕ
  pub upto : ℕ
  pub lines : List Text

abbrev pub cut : Edit → List Text → List Text
cut d xs = take d.from xs ++ d.lines ++ drop d.upto xs

abbrev pub splice_all : List Edit → List Text → List Text
splice_all [] xs = xs
splice_all (d ∷ ds) xs = splice_all ds (cut d xs)

-- One pass over the lines from index `pos` on, with the edits in ascending order.
unfoldable pub weave : ℕ → List Edit → List Text → List Text
weave pos [] xs = xs
weave pos (d ∷ ds) xs =
    take (d.from - pos) xs ++ (d.lines ++ weave d.upto ds (drop (d.upto - pos) xs))

-- Going up the file, and each edit below the one before it.
abbrev pub Below : ℕ → List Edit → Type 0
Below b [] = Unit {0}
Below b (d ∷ ds) = (d.from ≤ d.upto) × (d.upto ≤ b) × Below d.from ds

abbrev Above : ℕ → List Edit → ℕ → Type 0
Above pos [] b = pos ≤ b
Above pos (d ∷ ds) b = (pos ≤ d.from) × (d.from ≤ d.upto) × Above d.upto ds b

Above-snoc :
    (pos : ℕ) (ds : List Edit) (d : Edit) (b : ℕ)
    → Above pos ds d.from
    → d.from ≤ d.upto
    → d.upto ≤ b
    → Above pos (ds ++ d ∷ []) b
Above-snoc pos [] d b h k l = (h, k, l)
Above-snoc pos (q ∷ qs) d b h k l = (h.0, h.1, Above-snoc q.upto qs d b h.2 k l)

Below-reverse : (ds : List Edit) (b : ℕ) → Below b ds → Above 0 (reverse ds) b
Below-reverse [] b h = omega arith
Below-reverse (d ∷ ds) b h =
    rw (reverse-cons d ds) (Above-snoc 0 (reverse ds) d b (Below-reverse ds d.from h.2) h.0 h.1)

Above-le : (pos : ℕ) (ds : List Edit) (b : ℕ) → Above pos ds b → pos ≤ b
Above-le pos [] b h = h
Above-le pos (d ∷ ds) b h = omega (arith, Above-le d.upto ds b h.2)

abbrev cut_at : ℕ → Edit → List Text → List Text
cut_at pos d xs = take (d.from - pos) xs ++ (d.lines ++ drop (d.upto - pos) xs)

-- The cut at `d`, seen from a place `m` lines further down that is still above `d`.
drop-cut_at :
    (pos m : ℕ) (d : Edit) (xs : List Text)
    → pos ≤ m
    → m ≤ d.from
    → d.from ≤ d.upto
    → d.upto ≤ pos + length xs
    → drop (m - pos) (cut_at pos d xs) ≡ cut_at m d (drop (m - pos) xs)
drop-cut_at pos m d xs h k l r =
    drop-append_le (m - pos) (take (d.from - pos) xs) _
      (omega (arith, length-take (d.from - pos) xs))
    ∙ ap₂ (λ a b. a ++ (d.lines ++ b))
        (drop-take (m - pos) (d.from - pos) xs
          ∙ (let e : d.from - pos - (m - pos) ≡ d.from - m = omega arith in rw e))
        (let e : d.upto - pos ≡ (m - pos) + (d.upto - m) = omega arith in
          rw e (sym (drop-drop (d.upto - m) (m - pos) xs)))

take-cut_at :
    (pos m : ℕ) (d : Edit) (xs : List Text)
    → pos ≤ m
    → m ≤ d.from
    → d.from ≤ d.upto
    → d.upto ≤ pos + length xs
    → take (m - pos) (cut_at pos d xs) ≡ take (m - pos) xs
take-cut_at pos m d xs h k l r =
    take-append_le (m - pos) (take (d.from - pos) xs) _
      (omega (arith, length-take (d.from - pos) xs))
    ∙ take-take (m - pos) (d.from - pos) xs (omega arith)

weave-snoc :
    (pos : ℕ) (ds : List Edit) (d : Edit) (xs : List Text)
    → Above pos ds d.from
    → d.from ≤ d.upto
    → d.upto ≤ pos + length xs
    → weave pos ds (cut_at pos d xs) ≡ weave pos (ds ++ d ∷ []) xs
unfolding weave
weave-snoc pos [] d xs h k l = refl
weave-snoc pos (q ∷ qs) d xs h k l =
    let below : q.upto ≤ d.from = Above-le q.upto qs d.from h.2 in
    let far : d.upto ≤ q.upto + length (drop (q.upto - pos) xs) =
      omega (arith, length-drop (q.upto - pos) xs) in
    ap₂ (λ a b. a ++ (q.lines ++ b)) (take-cut_at pos q.from d xs h.0 (omega arith) k l)
      (ap (weave q.upto qs) (drop-cut_at pos q.upto d xs (omega arith) below k l)
        ∙ weave-snoc q.upto qs d (drop (q.upto - pos) xs) h.2 k far)

length-cut : (d : Edit) (xs : List Text) → d.from ≤ length xs → d.from ≤ length (cut d xs)
length-cut d xs h = omega (
  arith,
  length-append (take d.from xs) (d.lines ++ drop d.upto xs),
  ap length (append_assoc (take d.from xs) d.lines (drop d.upto xs)),
  length-take d.from xs,
)

cut-cut_at : (d : Edit) (xs : List Text) → cut d xs ≡ cut_at 0 d xs
cut-cut_at d xs =
    let e : d.from - 0 ≡ d.from = omega arith in
    let e' : d.upto - 0 ≡ d.upto = omega arith in
    rw (e, e') (append_assoc (take d.from xs) d.lines (drop d.upto xs))

-- Edits made from the bottom up, without overlap, come to the one pass from the top.
pub splice_all-weave :
    (ds : List Edit) (xs : List Text) (b : ℕ)
    → Below b ds
    → b ≤ length xs
    → splice_all ds xs ≡ weave 0 (reverse ds) xs
splice_all-weave [] xs b h k = unfold weave in refl
splice_all-weave (d ∷ ds) xs b h k =
    splice_all-weave ds (cut d xs) d.from h.2 (length-cut d xs (omega arith))
    ∙ ap (weave 0 (reverse ds)) (cut-cut_at d xs)
    ∙ weave-snoc 0 (reverse ds) d xs (Below-reverse ds d.from h.2) h.0 (omega arith)
    ∙ ap (λ es. weave 0 es xs) (sym (reverse-cons d ds))
