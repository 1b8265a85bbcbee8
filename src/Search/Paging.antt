-- ===== src/Search/Paging.antt =====
-- A client of portal_mcp_server/remote_search.py that asks for one page after the other.
use portal_mcp_server.Base.{
  ℕ, ◌+◌, ◌-◌, ◌≤◌, ◌<◌, ◌≡◌, refl, sym, ap, ◌∙◌, inl, inr, false, Option, none, some, List, ◌++◌,
  length, take, drop, length-take, length-drop, take_all, drop-drop, take-append-drop, nat_beq, ltb,
  min, arith, zero, suc, if◌then◌else◌, Bool-cases,
}
use portal_mcp_server.Search.{page, page_rows}

module _ {ℓ} {A : Type ℓ} (xs : List A) (head_limit : ℕ) (some_rows : 0 < head_limit) where
  -- The rows of the calls from an offset on; `none` means that the calls ran out.
  unfoldable pub collect : ℕ → ℕ → Option (List A)
  collect zero offset = none
  collect (suc calls) offset =
      let p = page xs offset head_limit in
      let rest = collect calls (offset + length p.rows) in
      if p.truncated
      then elim rest [ none ↦ none | some more ↦ some (p.rows ++ more) ]
      else some p.rows

  rows-take : (offset : ℕ) → page_rows xs offset head_limit ≡ take head_limit (drop offset xs)
  rows-take offset = let e : nat_beq head_limit 0 ≡ false = ground (arith, some_rows) in rw e refl

  length-rows :
      (offset : ℕ) → length (take head_limit (drop offset xs)) ≡ min head_limit (length xs - offset)
  length-rows offset = omega (arith, length-take head_limit (drop offset xs), length-drop offset xs)

  -- Pages with at least one row, each from where the last one ended until one is not truncated, give
  -- all rows from the first offset on, each once and in order.
  pub collect_lem :
      (calls offset : ℕ)
      → offset ≤ length xs
      → length xs - offset < calls
      → collect calls offset ≡ some (drop offset xs)
  unfolding collect page
  collect_lem zero offset within enough = absurd (omega arith)
  collect_lem (suc calls) offset within enough =
      let rows = take head_limit (drop offset xs) in
      let n = length-rows offset in
      elim (Bool-cases (ltb (offset + length rows) (length xs))) [
        | inl more ↦
            let full : length rows ≡ head_limit = ground (arith, n, more) in
            let ih =
              collect_lem calls (offset + length rows) (ground (arith, more))
                (ground (arith, more, full)) in
            let joined : rows ++ drop (offset + length rows) xs ≡ drop offset xs = rw full (
              ap (◌++◌ rows) (sym (drop-drop head_limit offset xs))
              ∙ take-append-drop head_limit (drop offset xs)) in
            rw (collect, rows-take offset, more, ih, page, rows-take offset) (ap some joined)
        | inr done ↦
            let all : rows ≡ drop offset xs =
              take_all head_limit (drop offset xs)
                (ground (arith, n, done, length-drop offset xs)) in
            rw (collect, rows-take offset, done) (ap some all)
      ]
