-- ===== src/Editor/Write/Sweep.antt =====
-- Which files the sweep after a write removes.
use portal_mcp_server.Base.{
  ℕ, ◌+◌, ◌-◌, ◌≡◌, refl, ap, ◌∙◌, ◌⊎◌, inl, inr, Text, text_has_eq, text_eq, text_eq_iff, codes,
  Bool, true, false, Option, none, not, ◌&&◌, ◌||◌, List, [], ◌∷◌, ◌++◌, arith, drop, length, leb,
  all, length-append, Bool-cases, drop-append_le, drop_all, take_all, append_assoc,
}
use portal_mcp_server.Base.Dicts.{lookup, erase, lookup-erase}
use portal_mcp_server.Editor.Write.{
  Files, Entry, make_tmp_path, ends_tmp, has_tmp_suffix, too_young, sweep, Sweeping, sweep_after,
}

-- An entry of the directory that the sweep may remove under this path.
abbrev Orphan : (Text → Text) → ℕ → ℕ → Text → Entry → Type 0
Orphan full_path max_age now path e =
    (full_path e.filename ≡ path)
    × (has_tmp_suffix e.filename ≡ true)
    × (too_young max_age now e.mtime ≡ false)

-- Some entry of the list is such an orphan.
abbrev pub Orphaned : (Text → Text) → ℕ → ℕ → Text → List Entry → Type 0
Orphaned full_path max_age now path [] = ⊥
Orphaned full_path max_age now path (e ∷ es) =
    Orphan full_path max_age now path e ⊎ Orphaned full_path max_age now path es

module _ (full_path : Text → Text) (removable : Text → Bool) (max_age now : ℕ) where
  -- The sweep leaves the file under a path as it was, unless the path is that of an entry with the
  -- temporary suffix that is not younger than the limit.
  pub sweep-Orphaned :
      (es : List Entry) (files : Files) (path : Text)
      → (lookup path (sweep full_path removable max_age now es files).0 ≡ lookup path files)
        ⊎ Orphaned full_path max_age now path es
  unfolding sweep
  sweep-Orphaned [] files path = inl refl
  sweep-Orphaned (e ∷ es) files path =
      let name = full_path e.filename in
      let taken =
        has_tmp_suffix e.filename && not (too_young max_age now e.mtime) && removable name in
      elim (Bool-cases taken) [
        | inr kept ↦ rw kept (after e files path _ (sweep-Orphaned es files path))
        | inl gone ↦ elim (Bool-cases (text_eq name path)) [
          | inl here ↦
              inr (inl ((text_eq_iff name path).0 here, ground (arith, gone), ground (arith, gone)))
          | inr there ↦ rw gone (
              after e files path _ (
                rw (lookup-erase name path files, there) at
                  (sweep-Orphaned es (erase name files) path)))
        ]
      ]
    where
      after :
          (e : Entry) (files : Files) (path : Text) (files' : Files)
          → (lookup path files' ≡ lookup path files) ⊎ Orphaned full_path max_age now path es
          → (lookup path files' ≡ lookup path files)
            ⊎ (Orphan full_path max_age now path e ⊎ Orphaned full_path max_age now path es)
      after e files path files' (inl h) = inl h
      after e files path files' (inr h) = inr (inr h)

module _ (full_path : Text → Text) (removable : Text → Bool) (max_age now : ℕ) where
  -- The sweep changes no contents: what is under a path stays or goes.
  sweep-shrinks :
      (es : List Entry) (files : Files) (path : Text)
      → (lookup path (sweep full_path removable max_age now es files).0 ≡ lookup path files)
        ⊎ (lookup path (sweep full_path removable max_age now es files).0 ≡ none)
  unfolding sweep
  sweep-shrinks [] files path = inl refl
  sweep-shrinks (e ∷ es) files path =
      let name = full_path e.filename in
      let taken =
        has_tmp_suffix e.filename && not (too_young max_age now e.mtime) && removable name in
      elim (Bool-cases taken) [
        | inr kept ↦ rw kept (sweep-shrinks es files path)
        | inl gone ↦ rw gone (erased name files path _ (sweep-shrinks es (erase name files) path))
      ]
    where
      erased :
          (name : Text) (files : Files) (path : Text) (r : Option Text)
          → (r ≡ lookup path (erase name files)) ⊎ (r ≡ none)
          → (r ≡ lookup path files) ⊎ (r ≡ none)
      erased name files path r (inr h) = inr h
      erased name files path r (inl h) = elim (Bool-cases (text_eq name path)) [
        | inl here ↦ inr (h ∙ rw (lookup-erase name path files, here) refl)
        | inr there ↦ inl (h ∙ rw (lookup-erase name path files, there) refl)
      ]

-- The path was that of an orphan, and nothing is there.
abbrev pub SweptAway : Sweeping → Text → Option Text → Type 0
SweptAway w path content = (content ≡ none) × Orphaned w.full_path w.max_age w.now path w.entries

pub sweep_after-SweptAway :
    (w : Sweeping) (files : Files) (path : Text)
    → (lookup path (sweep_after w files).0 ≡ lookup path files)
      ⊎ SweptAway w path (lookup path (sweep_after w files).0)
sweep_after-SweptAway w files path =
    elim (sweep-Orphaned w.full_path w.removable w.max_age w.now w.entries files path) [
      | inl same ↦ inl same
      | inr orphan ↦
          elim (sweep-shrinks w.full_path w.removable w.max_age w.now w.entries files path) [
            | inl same ↦ inl same
            | inr gone ↦ inr (gone, orphan)
          ]
    ]

abbrev is_hex_all : Text → Bool
is_hex_all = all (λ c. leb b'0' c && leb c b'9' || leb b'a' c && leb c b'f')

drop-append_length : (xs ys : Text) → drop (length xs) (xs ++ ys) ≡ ys
drop-append_length xs ys =
    drop-append_le (length xs) xs ys (omega arith)
    ∙ ap (λ zs. zs ++ ys) (drop_all (length xs) xs (omega arith))

ends_tmp-suffix :
    (target digits : Text)
    → length digits ≡ 12
    → is_hex_all digits ≡ true
    → ends_tmp (target ++ (codes ".mcp_tmp." ++ digits)) ≡ true
unfolding ends_tmp text_eq
ends_tmp-suffix target digits l h =
    let tail = codes ".mcp_tmp." ++ digits in
    let long : length (target ++ tail) ≡ length target + 21 =
      omega (arith, length-append target tail) in
    let at : length target + 21 - 21 ≡ length target = omega arith in
    let enough : leb 21 (length target + 21) ≡ true = ground arith in
    rw (long, at, enough, drop-append_length target tail) h

-- A temporary file is recognised by the sweep, whatever the target and the digits.
pub make_tmp_path-has_tmp_suffix :
    (target digits : Text)
    → length digits ≡ 12
    → is_hex_all digits ≡ true
    → has_tmp_suffix (make_tmp_path target digits) ≡ true
unfolding has_tmp_suffix make_tmp_path
make_tmp_path-has_tmp_suffix target digits l h = rw (
  take_all 12 digits (omega arith),
  append_assoc target (codes ".mcp_tmp.") digits,
  ends_tmp-suffix target digits l h,
)
