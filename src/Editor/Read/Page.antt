-- ===== src/Editor/Read/Page.antt =====
-- The size of a page.
use portal_mcp_server.Base.{
  ℕ, ◌+◌, ◌-◌, ◌≤◌, ◌<◌, ◌≡◌, refl, ◌⊎◌, inl, inr, Text, Bool, true, false, List, [], ◌∷◌, take,
  drop, length, length-take, length-drop, take-take, min, ltb, suc, zero, arith, if◌then◌else◌,
  Option, ℤ, Bool-cases,
}
use portal_mcp_server.Editor.Read.{Caps, fill, line_limit, page_cut}

-- The bytes of some lines.
abbrev pub bytes : (Text → ℕ) → List Text → ℕ
bytes width [] = 0
bytes width (l ∷ ls) = width l + bytes width ls

module _ (width : Text → ℕ) (budget : ℕ) where
  fill-le : (first : Bool) (acc : ℕ) (ls : List Text) → fill width budget first acc ls ≤ length ls
  unfolding fill
  fill-le first acc [] = omega arith
  fill-le first acc (l ∷ ls) = ground (arith, fill-le false (acc + width l) ls)

  fill_pos : (acc : ℕ) (ls : List Text) → 0 < length ls → 0 < fill width budget true acc ls
  unfolding fill
  fill_pos acc [] h = absurd (omega arith)
  fill_pos acc (l ∷ ls) h = omega arith

  fill-fits :
      (acc : ℕ) (ls : List Text)
      → (fill width budget false acc ls ≡ 0)
        ⊎ (acc + bytes width (take (fill width budget false acc ls) ls) ≤ budget)
  unfolding fill
  fill-fits acc [] = inl refl
  fill-fits acc (l ∷ ls) =
      rest (fill width budget false (acc + width l) ls) (fill-fits (acc + width l) ls)
        (Bool-cases (ltb budget (acc + width l)))
    where
      rest :
          (n : ℕ)
          → (n ≡ 0) ⊎ (acc + width l + bytes width (take n ls) ≤ budget)
          → (ltb budget (acc + width l) ≡ true) ⊎ (ltb budget (acc + width l) ≡ false)
          → let m = (if ltb budget (acc + width l) then 0 else suc n) in
            (m ≡ 0) ⊎ (acc + bytes width (take m (l ∷ ls)) ≤ budget)
      rest n h (inl e) = rw e (inl refl)
      rest zero h (inr e) = rw e (inr (ground arith))
      rest (suc n) (inl z) (inr e) = absurd (omega arith)
      rest (suc n) (inr h) (inr e) = rw e (inr (omega arith))

  -- A page of more than one line is within the budget.
  fill_first-fits :
      (ls : List Text)
      → (fill width budget true 0 ls ≤ 1)
        ⊎ (bytes width (take (fill width budget true 0 ls) ls) ≤ budget)
  unfolding fill
  fill_first-fits [] = inl (omega arith)
  fill_first-fits (l ∷ ls) =
      rest (fill width budget false (0 + width l) ls) (fill-fits (0 + width l) ls)
    where
      rest :
          (n : ℕ)
          → (n ≡ 0) ⊎ (0 + width l + bytes width (take n ls) ≤ budget)
          → (suc n ≤ 1) ⊎ (bytes width (take (suc n) (l ∷ ls)) ≤ budget)
      rest n (inl z) = inl (omega arith)
      rest n (inr h) = inr (omega arith)

module _ (width : Text → ℕ) (caps : Caps) (limit : Option ℤ) (lines : List Text) (s e : ℕ)
    (some_line : 0 < line_limit caps limit) (range : s < e) (inside : e ≤ length lines) where
  window : List Text
  window = take (min e (s + line_limit caps limit) - s) (drop s lines)

  length-window : length window ≡ min e (s + line_limit caps limit) - s
  unfolding window
  length-window = omega (
    arith,
    length-take (min e (s + line_limit caps limit) - s) (drop s lines),
    length-drop s lines,
  )

  -- With a line limit of at least 1 and a range of lines that is not empty, a page holds at least one
  -- line, none beyond the range, and no more than the limit allows.
  pub page_cut_bounds :
      let cut = page_cut width caps limit lines s e in
      (s < cut) × (cut ≤ e) × (cut ≤ s + line_limit caps limit)
  unfolding page_cut window
  page_cut_bounds = omega (
    arith,
    fill_pos width caps.max_bytes 0 window,
    fill-le width caps.max_bytes true 0 window,
    length-window,
  )

  -- With a line limit of at least 1 and a range of lines that is not empty, more than one line is
  -- given only within the byte budget.
  pub page_cut-fits :
      let cut = page_cut width caps limit lines s e in
      (cut ≤ s + 1) ⊎ (bytes width (take (cut - s) (drop s lines)) ≤ caps.max_bytes)
  unfolding page_cut window
  page_cut-fits =
      fits (fill width caps.max_bytes true 0 window) (fill-le width caps.max_bytes true 0 window)
        (fill_first-fits width caps.max_bytes window)
    where
      fits :
          (n : ℕ)
          → n ≤ length window
          → (n ≤ 1) ⊎ (bytes width (take n window) ≤ caps.max_bytes)
          → (s + n ≤ s + 1) ⊎ (bytes width (take (s + n - s) (drop s lines)) ≤ caps.max_bytes)
      fits n h (inl k) = inl (omega arith)
      fits n h (inr k) =
          let e' : s + n - s ≡ n = omega arith in
          inr (
            rw
              (
                e',
                ← take-take n (min e (s + line_limit caps limit) - s) (drop s lines)
                    (omega (arith, length-window)),
              )
              k)
