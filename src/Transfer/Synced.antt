-- ===== src/Transfer/Synced.antt =====
-- What a list of uploads by portal_mcp_server/file_ops.py leaves on the remote host, and what a second
-- one does.
use portal_mcp_server.Base.{
  ℕ, ◌≡◌, ◌≢◌, refl, sym, ap, subst, ◌∙◌, inl, inr, Text, text_eq, text_eq_iff, text_has_eq, Bool,
  true, false, Option, none, some, List, [], ◌∷◌, ◌++◌, ok, arith, Bool-cases, Option-cases,
  Result-cases,
}
use portal_mcp_server.Base.Dicts.{lookup, lookup-insert}
use portal_mcp_server.Safety.{validate_remote_path}
use portal_mcp_server.Transfer.{
  StoredFile, FileStore, Put, whole, inside, stopped, AtPath, TransferAnswers, put_file,
  mtime_match, same_file, matches_source, files_match,
}
use portal_mcp_server.Transfer.Batch.{
  Report, count_total, after_put, transfer_one, Pair, upload_pair,
}

text_eq_refl : (s : Text) → text_eq s s ≡ true
text_eq_refl s = (text_eq_iff s s).1 refl

append-cons : {A : Type 0} (xs : List A) (x : A) → xs ++ x ∷ [] ≢ []
append-cons [] x h = cc
append-cons (y ∷ xs) x h = cc

-- No file has failed.
abbrev pub Clean : FileStore × Report → Type 0
Clean (files, rep) = rep.failed ≡ []

put_file-other :
    (put : Put) (path other : Text) (src : StoredFile) (files : FileStore)
    → text_eq path other ≡ false
    → AtPath put
    → lookup other (put_file put path src files).0 ≡ lookup other files
unfolding put_file
put_file-other (inside inner) path other src files e at = absurd at
put_file-other whole path other src files e at = lookup-insert path other src files ∙ rw e refl
put_file-other (stopped none) path other src files e at = refl
put_file-other (stopped (some left)) path other src files e at =
    lookup-insert path other left files ∙ rw e refl

after_put-fst :
    (name : Text) (src : StoredFile) (rep : Report) (r : FileStore × Bool)
    → (after_put name src rep r).0 ≡ r.0
after_put-fst name src rep (files, true) = refl
after_put-fst name src rep (files, false) = refl

transfer_one-other :
    (a : TransferAnswers) (matched : Option Bool) (name path other : Text) (src : StoredFile)
    (s : FileStore × Report)
    → text_eq path other ≡ false
    → AtPath a.put
    → lookup other (transfer_one a matched name src path s).0 ≡ lookup other s.0
unfolding transfer_one
transfer_one-other a none name path other src (files, rep) e at = refl
transfer_one-other a (some true) name path other src (files, rep) e at = refl
transfer_one-other a (some false) name path other src (files, rep) e at =
    elim (Bool-cases a.makes_dirs) [
      | inr no_dirs ↦ rw (transfer_one, no_dirs) refl
      | inl dirs ↦
          rw (transfer_one, dirs)
            (ap (lookup other) (after_put-fst name src rep (put_file a.put path src files))
              ∙ put_file-other a.put path other src files e at)
    ]

after_put-Clean :
    (name : Text) (src : StoredFile) (rep : Report) (r : FileStore × Bool)
    → Clean (after_put name src rep r)
    → rep.failed ≡ []
after_put-Clean name src rep (files, true) h = h
after_put-Clean name src rep (files, false) h = absurd (append-cons rep.failed _ h)

transfer_one-Clean :
    (a : TransferAnswers) (matched : Option Bool) (name path : Text) (src : StoredFile)
    (s : FileStore × Report)
    → Clean (transfer_one a matched name src path s)
    → Clean s
unfolding transfer_one
transfer_one-Clean a none name path src (files, rep) h = absurd (append-cons rep.failed _ h)
transfer_one-Clean a (some true) name path src (files, rep) h = h
transfer_one-Clean a (some false) name path src (files, rep) h = elim (Bool-cases a.makes_dirs) [
  | inr no_dirs ↦ absurd (append-cons rep.failed _ (rw (transfer_one, no_dirs) at h))
  | inl dirs ↦
      after_put-Clean name src rep (put_file a.put path src files) (rw (transfer_one, dirs) at h)
]

module _ (sha : List ℕ → Text) (second : ℕ) (checksum : Bool) where
  same_file_self : (f : StoredFile) → same_file sha second checksum f f ≡ true
  unfolding same_file mtime_match
  same_file_self f = ground (arith, text_eq_refl (sha f.content))

  -- The path has a file that is the same as the source.
  abbrev pub Holds : StoredFile → Text → FileStore → Type 0
  Holds src path files =
      (dst : StoredFile) × (lookup path files ≡ some dst)
      × (same_file sha second checksum dst src ≡ true)

  matches_source-same_file :
      (a : TransferAnswers) (src dst : StoredFile)
      → matches_source sha second checksum a src (some dst) ≡ some true
      → same_file sha second checksum dst src ≡ true
  unfolding matches_source same_file
  matches_source-same_file a src dst h = ground (arith, h)

  matches_source-Holds :
      (a : TransferAnswers) (src : StoredFile) (path : Text) (files : FileStore)
      → files_match sha second checksum a src path files ≡ some true
      → Holds src path files
  unfolding matches_source
  matches_source-Holds a src path files h = elim (Bool-cases a.stat_works) [
    | inr blind ↦ cc (rw blind at h)
    | inl sees ↦ elim (Option-cases (lookup path files)) [
      | inl none_there ↦ cc (rw (sees, none_there) at h)
      | inr (dst, there) ↦ (dst, there, matches_source-same_file a src dst (rw (sees, there) at h))
    ]
  ]

  after_put-Holds :
      (put : Put) (name path : Text) (src : StoredFile) (files : FileStore) (rep : Report)
      → AtPath put
      → Clean (after_put name src rep (put_file put path src files))
      → Holds src path (after_put name src rep (put_file put path src files)).0
  unfolding put_file
  after_put-Holds (inside inner) name path src files rep at h = absurd at
  after_put-Holds whole name path src files rep at h =
      (src, lookup-insert path path src files ∙ rw (text_eq_refl path) refl, same_file_self src)
  after_put-Holds (stopped none) name path src files rep at h = absurd (append-cons rep.failed _ h)
  after_put-Holds (stopped (some left)) name path src files rep at h =
      absurd (append-cons rep.failed _ h)

  transfer_one-Holds :
      (a : TransferAnswers) (matched : Option Bool) (name path : Text) (src : StoredFile)
      (s : FileStore × Report)
      → (matched ≡ some true → Holds src path s.0)
      → AtPath a.put
      → Clean (transfer_one a matched name src path s)
      → Holds src path (transfer_one a matched name src path s).0
  unfolding transfer_one
  transfer_one-Holds a none name path src (files, rep) m at h = absurd (append-cons rep.failed _ h)
  transfer_one-Holds a (some true) name path src (files, rep) m at h = m refl
  transfer_one-Holds a (some false) name path src (files, rep) m at h =
      elim (Bool-cases a.makes_dirs) [
        | inr no_dirs ↦ absurd (append-cons rep.failed _ (rw (transfer_one, no_dirs) at h))
        | inl dirs ↦
            rw (transfer_one, dirs)
              (after_put-Holds a.put name path src files rep at (rw (transfer_one, dirs) at h))
      ]

  module _ (locals : FileStore) where
    -- The target holds the local file of the pair.
    abbrev pub Synced : FileStore → Pair → Type 0
    Synced remote p =
        (src : StoredFile) × (lookup p.source locals ≡ some src)
        × Holds src p.target remote
        × ((checked : Text) × (validate_remote_path false p.target ≡ ok checked))

    pub upload_pair-other :
        (p : Pair) (s : FileStore × Report) (other : Text)
        → text_eq p.target other ≡ false
        → AtPath p.answers.put
        → lookup other (upload_pair sha second checksum locals p s).0 ≡ lookup other s.0
    unfolding upload_pair
    upload_pair-other p (files, rep) other e at =
        elim (Result-cases (validate_remote_path false p.target)) [
          | inr (why, bad) ↦ rw (upload_pair, bad) refl
          | inl (checked, good) ↦ elim (Option-cases (lookup p.source locals)) [
            | inl missing ↦ rw (upload_pair, good, missing) refl
            | inr (src, found) ↦
                rw (upload_pair, good, found)
                  (transfer_one-other p.answers _ p.source p.target other src
                    (files, count_total src rep) e at)
          ]
        ]

    -- If the step adds no failure, the pair is synced after it, and there was none before.
    pub upload_pair-Synced :
        (p : Pair) (s : FileStore × Report)
        → AtPath p.answers.put
        → Clean (upload_pair sha second checksum locals p s)
        → Synced (upload_pair sha second checksum locals p s).0 p × Clean s
    unfolding upload_pair
    upload_pair-Synced p (files, rep) at h =
        elim (Result-cases (validate_remote_path false p.target)) [
          | inr (why, bad) ↦ absurd (append-cons rep.failed _ (rw (upload_pair, bad) at h))
          | inl (checked, good) ↦ elim (Option-cases (lookup p.source locals)) [
            | inl missing ↦ absurd (append-cons rep.failed _ (rw (upload_pair, good, missing) at h))
            | inr (src, found) ↦
                let matched = files_match sha second checksum p.answers src p.target files in
                let s0 : FileStore × Report = (files, count_total src rep) in
                let ran : upload_pair sha second checksum locals p (files, rep)
                    ≡ transfer_one p.answers matched p.source src p.target s0 =
                  rw (upload_pair, good, found) refl in
                let h1 = subst Clean ran h in
                let held =
                  transfer_one-Holds p.answers matched p.source p.target src s0
                    (matches_source-Holds p.answers src p.target files) at h1 in
                (
                  (src, found, subst (λ r. Holds src p.target r.0) (sym ran) held, (checked, good)),
                  transfer_one-Clean p.answers matched p.source p.target src s0 h1,
                )
          ]
        ]
