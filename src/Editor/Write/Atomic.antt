-- ===== src/Editor/Write/Atomic.antt =====
-- What `_atomic_write` leaves behind, for every answer of the server.
use portal_mcp_server.Base.{
  ◌≡◌, refl, sym, ◌≢◌, ℕ, subst, [], inl, inr, ◌⊎◌, ◌∙◌, Bool, Bool-cases, Result, err, Text,
  text_has_eq, text_eq, text_eq_iff, true, false, Option, none, some, ok, take, arith,
  if◌then◌else◌, ◌==◌,
}
use portal_mcp_server.Base.Dicts.{lookup, insert, erase, lookup-insert, lookup-erase}
use portal_mcp_server.Editor.Write.Sweep.{SweptAway, sweep_after-SweptAway}
use portal_mcp_server.Editor.Write.{
  Files, Answers, unsupported, Fault, sweep_after, and_sweep, write_over, reply_lost, renamed,
  failed, RenameAnswer, move, clean_up, fallback, place, atomic_write,
}

text_eq_refl : (a : Text) → text_eq a a ≡ true
text_eq_refl a = (text_eq_iff a a).1 refl

text_eq-false : (a b : Text) → a ≢ b → text_eq a b ≡ false
text_eq-false a b h = ground (arith, text_eq_iff a b)

module _ (a : Answers) (path tmp new : Text) (files : Files) (apart : path ≢ tmp) where
  -- The temporary file is in place; what moving it over does to any path.
  lookup-move :
      (from to j : Text) (content : Text) (fs : Files)
      → lookup from fs ≡ some content
      → lookup j (move from to fs)
        ≡ (if to == j then some content else if from == j then none else lookup j fs)
  unfolding move
  lookup-move from to j content fs h =
      rw (h, move) (rw (lookup-insert to j content (erase from fs), lookup-erase from j fs))

  abbrev staged : Text → Files
  staged content = insert tmp content files

  lookup-staged : (content : Text) → lookup tmp (staged content) ≡ some content
  lookup-staged content = rw (lookup-insert tmp tmp content files, text_eq_refl tmp)

  abbrev moved : Files → Text → Option Text
  moved fs j = if path == j then some new else if tmp == j then none else lookup j files

  lookup-moved : (j : Text) → lookup j (move tmp path (staged new)) ≡ moved files j
  lookup-moved j =
      rw
        (lookup-move tmp path j new (staged new) (lookup-staged new), lookup-insert tmp j new files)
        (ground arith)

  lookup-moved_fallback :
      (j : Text) → lookup j (move tmp path (erase path (staged new))) ≡ moved files j
  lookup-moved_fallback j =
      rw
        (
          lookup-move tmp path j new (erase path (staged new)) (
              rw (lookup-erase path tmp (staged new), text_eq-false path tmp apart)
                (lookup-staged new)),
          lookup-erase path j (staged new),
          lookup-insert tmp j new files,
        )
        (ground arith)

  lookup-clean_up :
      (j : Text) (fs : Files)
      → lookup j (clean_up a tmp fs)
        ≡ (if a.cleans_up then (if tmp == j then none else lookup j fs) else lookup j fs)
  unfolding clean_up
  lookup-clean_up j fs = ground (arith, lookup-erase tmp j fs)

  lookup-kept :
      (j content : Text) → j ≢ tmp → lookup j (clean_up a tmp (staged content)) ≡ lookup j files
  lookup-kept j content other =
      rw
        (
          lookup-clean_up j (staged content),
          lookup-insert tmp j content files,
          text_eq-false tmp j (λ e. other (sym e)),
        )
        (ground arith)

  lookup-lost :
      (j : Text)
      → a.cleans_up ≡ true
      → lookup j (clean_up a tmp (erase path (staged new)))
        ≡ (if tmp == j then none else if path == j then none else lookup j files)
  lookup-lost j k =
      rw
        (
          lookup-clean_up j (erase path (staged new)),
          lookup-erase path j (staged new),
          lookup-insert tmp j new files,
        )
        (ground arith)

  lookup-reply_lost :
      (j : Text)
      → j ≢ tmp
      → lookup j (clean_up a tmp (move tmp path (staged new)))
        ≡ (if path == j then some new else lookup j files)
  lookup-reply_lost j other =
      rw
        (
          lookup-clean_up j (move tmp path (staged new)),
          lookup-moved j,
          text_eq-false tmp j (λ e. other (sym e)),
        )
        (ground arith)

  write_over-ok :
      (j : Text)
      → (write_over a path tmp new files).1 ≡ ok tt
      → lookup j (write_over a path tmp new files).0 ≡ moved files j
  unfolding write_over place fallback
  write_over-ok j h = ground (arith, lookup-moved j, lookup-moved_fallback j)

  -- After a write that fails, what is under a path.
  abbrev Untorn : Text → Option Text → Type 0
  Untorn j content = (content ≡ lookup j files) ⊎ ((j ≡ path) × (content ≡ some new))

  moved-Untorn :
      (j : Text) (content : Option Text)
      → content ≡ (if path == j then some new else lookup j files)
      → Untorn j content
  moved-Untorn j content h = elim (Bool-cases (text_eq path j)) [
    | inl same ↦ inr (sym ((text_eq_iff path j).0 same), h ∙ rw same refl)
    | inr other ↦ inl (h ∙ rw other refl)
  ]

  place-failed :
      (j : Text) (r : RenameAnswer)
      → a.posix_rename ≡ r
      → r ≢ unsupported
      → j ≢ tmp
      → (place a path tmp (staged new)).1 ≢ ok tt
      → Untorn j (lookup j (place a path tmp (staged new)).0)
  unfolding place
  place-failed j renamed is posix other h = absurd (h (rw (place, is) refl))
  place-failed j unsupported is posix other h = absurd (posix refl)
  place-failed j failed is posix other h = inl (rw (place, is) (lookup-kept j new other))
  place-failed j reply_lost is posix other h =
      moved-Untorn j _ (rw (place, is) (lookup-reply_lost j other))

  write_over-failed :
      (j : Text)
      → a.posix_rename ≢ unsupported
      → j ≢ tmp
      → (write_over a path tmp new files).1 ≢ ok tt
      → Untorn j (lookup j (write_over a path tmp new files).0)
  unfolding write_over
  write_over-failed j posix other h = decide a.connects refl a.opens refl a.fails_after refl
    where
      decide :
          (c : Bool)
          → a.connects ≡ c
          → (o : Bool) → a.opens ≡ o
          → (n : Option ℕ) → a.fails_after ≡ n
          → Untorn j (lookup j (write_over a path tmp new files).0)
      decide false e o e' n e'' = inl (rw (write_over, e) refl)
      decide true e false e' n e'' = inl (
          rw (write_over, e, e')
            (ground
              (arith, lookup-insert tmp j [] files, text_eq-false tmp j (λ q. other (sym q)))))
      decide true e true e' none e'' =
          rw (write_over, e, e', e'')
            (place-failed j a.posix_rename refl posix other (rw (write_over, e, e', e'') at h))
      decide true e true e' (some n) e'' =
          inl (rw (write_over, e, e', e'') (lookup-kept j (take n new) other))

  swept :
      (P : Option Text → Type 0) (fs : Files) (j : Text)
      → P (lookup j fs)
      → P (lookup j (sweep_after a.sweeping fs).0)
        ⊎ SweptAway a.sweeping j (lookup j (sweep_after a.sweeping fs).0)
  swept P fs j p = elim (sweep_after-SweptAway a.sweeping fs j) [
    | inl same ↦ inl (subst P (sym same) p)
    | inr gone ↦ inr gone
  ]

  -- After a write that reports success the path has the new contents, the temporary file, under a
  -- path of its own, is gone, and every other path is as it was, with posix-rename and without it; but a
  -- path that the directory lists as an orphaned temporary file may have been swept away.
  pub atomic_write-ok :
      (j : Text)
      → (atomic_write a path tmp new files).1 ≡ ok tt
      → (lookup j (atomic_write a path tmp new files).0 ≡ moved files j)
        ⊎ SweptAway a.sweeping j (lookup j (atomic_write a path tmp new files).0)
  unfolding atomic_write
  atomic_write-ok j h = decide (write_over a path tmp new files) (write_over-ok j) h
    where
      decide :
          (r : Files × Result Fault (Unit {0}))
          → (r.1 ≡ ok tt → lookup j r.0 ≡ moved files j)
          → (and_sweep a.sweeping r).1 ≡ ok tt
          → (lookup j (and_sweep a.sweeping r).0 ≡ moved files j)
            ⊎ SweptAway a.sweeping j (lookup j (and_sweep a.sweeping r).0)
      decide (fs, err e) holds went = cc
      decide (fs, ok u) holds went = swept (λ c. c ≡ moved files j) fs j (holds refl)

  -- Where the server does not lack posix-rename, a write that fails at any point, the replies of requests
  -- that were carried out and the sweep included, leaves at the path, which is not that of the temporary
  -- file, the old contents or the whole new ones, and every other path but that of the temporary file as
  -- it was; but a path that the directory lists as an orphaned temporary file may have been swept away.
  pub atomic_write-failed :
      (j : Text)
      → a.posix_rename ≢ unsupported
      → j ≢ tmp
      → (atomic_write a path tmp new files).1 ≢ ok tt
      → Untorn j (lookup j (atomic_write a path tmp new files).0)
        ⊎ SweptAway a.sweeping j (lookup j (atomic_write a path tmp new files).0)
  unfolding atomic_write
  atomic_write-failed j posix other h =
      decide (write_over a path tmp new files) (write_over-ok j) (write_over-failed j posix other)
    where
      decide :
          (r : Files × Result Fault (Unit {0}))
          → (r.1 ≡ ok tt → lookup j r.0 ≡ moved files j)
          → (r.1 ≢ ok tt → Untorn j (lookup j r.0))
          → Untorn j (lookup j (and_sweep a.sweeping r).0)
            ⊎ SweptAway a.sweeping j (lookup j (and_sweep a.sweeping r).0)
      decide (fs, err e) holds untorn = inl (untorn (λ went. cc))
      decide (fs, ok u) holds untorn = swept (Untorn j) fs j (
          moved-Untorn j (lookup j fs)
            (holds refl ∙ rw (text_eq-false tmp j (λ q. other (sym q))) refl))

  -- Without posix-rename there is no such guarantee: where the removal of the old file is followed
  -- by a rename that fails, the clean-up removes the new contents too, and both are lost.
  pub atomic_write_loses :
      a.connects ≡ true
      → a.opens ≡ true
      → a.fails_after ≡ none
      → a.posix_rename ≡ unsupported
      → a.removes ≡ true
      → a.renames ≡ false
      → a.cleans_up ≡ true
      → let files' = (atomic_write a path tmp new files).0 in
        (lookup path files' ≡ none) × (lookup tmp files' ≡ none)
  unfolding atomic_write write_over place fallback
  atomic_write_loses c o w p r n k =
      ground (arith, lookup-lost path k, lookup-lost tmp k, text_eq_refl path, text_eq_refl tmp)
