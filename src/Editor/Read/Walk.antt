-- ===== src/Editor/Read/Walk.antt =====
-- Reading on while `truncated` says so, as the docstring of `remote_read` tells the caller to.
use portal_mcp_server.Base.{
  ℕ, ◌+◌, ◌-◌, ◌≤◌, ◌<◌, ◌≡◌, refl, ap, ◌∙◌, inl, inr, Text, true, false, List, [], ◌++◌, take,
  drop, length, join, join-append, take-add, drop-drop, take_all, join, min, ltb, leb, suc, zero,
  arith, if◌then◌else◌, Option, none, some, ℤ, pos, Bool-cases, lt→ltb, ltb→lt,
}
use portal_mcp_server.Editor.Lines.{split_keepends_lf, join-split_keepends_lf}
use portal_mcp_server.Editor.Read.{
  Caps, ReadResult, remote_read, page_cut, requested_end, line_limit, fill,
}
use portal_mcp_server.Editor.Read.Page.{page_cut_bounds}

abbrev prepend : Text → Option Text → Option Text
prepend t none = none
prepend t (some u) = some (t ++ u)

module _ (sha : Text → Text) (width : Text → ℕ) (caps : Caps) (full : Text)
    (end limit : Option ℤ) where
  abbrev page : ℕ → ReadResult
  page start = remote_read sha width caps full (pos start) end limit

  -- The texts of the pages, one after the other; `none` means that the calls ran out.
  pub walk : ℕ → ℕ → Option Text
  walk zero start = none
  walk (suc calls) start = elim (page start).next_start [
    | none ↦ some (page start).content
    | some next ↦ prepend (page start).content (walk calls next)
  ]

  abbrev lines : List Text
  lines = split_keepends_lf full

  abbrev stop : ℕ
  stop = requested_end (length lines) end

  abbrev shown : ℕ → ℕ → Text
  shown s e = join (take (e - s) (drop s lines))

  abbrev cut : ℕ → ℕ
  cut s = page_cut width caps limit lines s stop

  stop-le : stop ≤ length lines
  unfolding requested_end
  stop-le = ground arith

  -- A page in the requested range.
  page_inside :
      (s : ℕ)
      → s < stop
      → ((page (s + 1)).content ≡ shown s (cut s))
        × ((page (s + 1)).next_start ≡ (if ltb (cut s) stop then some (cut s + 1) else none))
        × ((page (s + 1)).truncated ≡ ltb (cut s) stop)
  unfolding remote_read
  page_inside s h =
      let e : s + 1 - 1 ≡ s = omega arith in
      let a : leb (length lines) s ≡ false = ground (arith, stop-le) in
      let b : leb stop s ≡ false = ground arith in rw (e, a, b) (refl, refl, refl)

  page_outside :
      (s : ℕ) → stop ≤ s → ((page (s + 1)).content ≡ []) × ((page (s + 1)).next_start ≡ none)
  unfolding remote_read
  page_outside s h =
      let e : s + 1 - 1 ≡ s = omega arith in
      let b : leb stop s ≡ true = ground arith in rw e (ground arith)

  shown-append : (s c e : ℕ) → s ≤ c → c ≤ e → shown s c ++ shown c e ≡ shown s e
  shown-append s c e h k =
      let f : s + (c - s) ≡ c = omega arith in
      let g : (c - s) + (e - c) ≡ e - s = omega arith in
      let d : drop c lines ≡ drop (s + (c - s)) lines = rw f in
      rw (
        ← join-append (take (c - s) (drop s lines)) (take (e - c) (drop c lines)),
        d,
        take-drop-drop (c - s) (e - c),
        g,
      )
    where
      take-drop-drop :
          (m n : ℕ)
          → take m (drop s lines) ++ take n (drop (s + m) lines) ≡ take (m + n) (drop s lines)
      take-drop-drop m n = rw (← drop-drop m s lines) (take-add m n (drop s lines))

  cut-stuck : (s : ℕ) → line_limit caps limit ≡ 0 → cut s ≡ s
  unfolding page_cut fill
  cut-stuck s z =
      let d : min stop (s + line_limit caps limit) - s ≡ 0 = omega arith in rw d (omega arith)

  -- With a line limit of 0, which PORTAL_READ_MAX_LINES may set, reading does not advance: a page
  -- in the requested range is empty, and the caller is sent back to the line that it asked for.
  pub remote_read_stuck :
      (s : ℕ)
      → line_limit caps limit ≡ 0
      → s < stop
      → ((page (s + 1)).content ≡ [])
        × ((page (s + 1)).truncated ≡ true)
        × ((page (s + 1)).next_start ≡ some (s + 1))
  remote_read_stuck s z h =
      let (c, n, t) = page_inside s h in
      let e : cut s ≡ s = cut-stuck s z in
      let d : s - s ≡ 0 = omega arith in
      let b : ltb s stop ≡ true = lt→ltb s stop h in (rw (c, e, d), rw (t, e, b), rw (n, e, b))

  module _ (some_line : 0 < line_limit caps limit) where
    -- With a line limit of at least 1, reading on from a line gives the rest of the requested range, each line once and in order,
    -- in at most one call more than there are lines left.
    pub walk_lem : (calls s : ℕ) → stop - s < calls → walk calls (s + 1) ≡ some (shown s stop)
    unfolding walk
    walk_lem zero s h = absurd (omega arith)
    walk_lem (suc calls) s h = elim (Bool-cases (ltb s stop)) [
      | inl inside ↦
          let lt : s < stop = ltb→lt s stop inside in
          let bounds = page_cut_bounds width caps limit lines s stop some_line lt stop-le in
          let (c, n, _) = page_inside s lt in
          elim (Bool-cases (ltb (cut s) stop)) [
            | inl more ↦
                let next : (page (s + 1)).next_start ≡ some (cut s + 1) = rw more at n in
                let rest = walk_lem calls (cut s) (omega arith) in
                rw (next, walk, rest, c)
                  (ap some (shown-append s (cut s) stop (omega arith) bounds.1))
            | inr last ↦
                let next : (page (s + 1)).next_start ≡ none = rw last at n in
                let e : cut s ≡ stop = ground arith in
                rw (next, walk, c) (ap (λ k. some (shown s k)) e)
          ]
      | inr outside ↦
          let le : stop ≤ s = ground arith in
          let z : stop - s ≡ 0 = omega arith in let (c, n) = page_outside s le in rw (n, walk, c, z)
    ]

-- With a line limit of at least 1, reading a file from the top without a range ends, and gives the whole file.
pub walk_whole :
    (sha : Text → Text) (width : Text → ℕ) (caps : Caps) (full : Text) (limit : Option ℤ)
    → 0 < line_limit caps limit
    → walk sha width caps full none limit (length (split_keepends_lf full) + 1) 1 ≡ some full
unfolding requested_end
walk_whole sha width caps full limit h =
    let n : ℕ = length (split_keepends_lf full) in
    let e : 0 + 1 ≡ 1 = refl in
    let d : n - 0 ≡ n = omega arith in
    walk_lem sha width caps full none limit h (n + 1) 0 (omega arith)
    ∙ ap some
        (rw (d, take_all n (split_keepends_lf full) (omega arith)) (join-split_keepends_lf full))
