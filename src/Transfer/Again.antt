-- ===== src/Transfer/Again.antt =====
-- Whole lists of uploads by portal_mcp_server/file_ops.py, once and again.
use portal_mcp_server.Base.{
  ℕ, ◌+◌, ◌≡◌, ◌≢◌, ◌≤◌, ◌⊎◌, inl, inr, sym, text_eq_iff, Bool-cases, refl, ap, subst, ◌∙◌, Text,
  text_eq, text_has_eq, Bool, true, false, Option, none, some, List, [], ◌∷◌, length, All, map,
  Result, ok, arith,
}
use portal_mcp_server.Base.Dicts.{lookup}
use portal_mcp_server.Safety.{validate_remote_path}
use portal_mcp_server.Transfer.{
  StoredFile, FileStore, whole, AtPath, mtime_match, TransferAnswers, all_works, put_file,
  same_file, matches_source, files_match,
}
use portal_mcp_server.Transfer.Batch.{
  BatchError, Report, no_files, count_total, transfer_one, Pair, upload_pair, upload_pairs,
  ssh_upload_list,
}
use portal_mcp_server.Transfer.Synced.{Clean, Synced, upload_pair-other, upload_pair-Synced}

-- No two pairs have the same target.
abbrev pub Distinct : List Pair → Type 0
Distinct [] = Unit {0}
Distinct (p ∷ ps) = All (λ q. text_eq q.target p.target ≡ false) ps × Distinct ps

-- The target is not an existing directory.
abbrev pub ToFile : Pair → Type 0
ToFile p = AtPath p.answers.put

module _ (sha : List ℕ → Text) (second : ℕ) (checksum : Bool) (locals : FileStore) where
  -- Two files of the same size with the same hash or, without `checksum`, with times at most `second`
  -- apart.
  abbrev pub SameAs : StoredFile → StoredFile → Type 0
  SameAs src dst =
      (length dst.content ≡ length src.content)
      × (((checksum ≡ true) × (sha dst.content ≡ sha src.content))
          ⊎ ((checksum ≡ false)
              × ((dst.mtime ≤ src.mtime + second) × (src.mtime ≤ dst.mtime + second))))

  -- The target was accepted and holds a file that is the same as the local one.
  abbrev pub InPlace : FileStore → Pair → Type 0
  InPlace remote p =
      ((checked : Text) × (validate_remote_path false p.target ≡ ok checked))
      × ((src dst : StoredFile) × ((lookup p.source locals ≡ some src)
            × ((lookup p.target remote ≡ some dst) × SameAs src dst)))

  same_file-SameAs :
      (src dst : StoredFile) → same_file sha second checksum dst src ≡ true → SameAs src dst
  unfolding same_file mtime_match
  same_file-SameAs src dst h = elim (Bool-cases checksum) [
    | inl hashed ↦ (
      ground (arith, h),
      inl (hashed, (text_eq_iff (sha dst.content) (sha src.content)).0 (ground (arith, h, hashed))),
    )
    | inr timed ↦
        (ground (arith, h), inr (timed, (ground (arith, h, timed), ground (arith, h, timed))))
  ]

  Synced-InPlace :
      (remote : FileStore) (ps : List Pair)
      → All (Synced sha second checksum locals remote) ps
      → All (InPlace remote) ps
  Synced-InPlace remote [] h = tt
  Synced-InPlace remote (p ∷ ps) ((src, found, (dst, there, same), good), h) = (
    (good, (src, dst, (found, (there, same_file-SameAs src dst same)))),
    Synced-InPlace remote ps h,
  )

  abbrev run : List Pair → FileStore × Report → FileStore × Report
  run = upload_pairs sha second checksum locals

  upload_pairs-other :
      (ps : List Pair) (s : FileStore × Report) (other : Text)
      → All (λ q. text_eq q.target other ≡ false) ps
      → All ToFile ps
      → lookup other (run ps s).0 ≡ lookup other s.0
  unfolding upload_pairs
  upload_pairs-other [] s other h f = refl
  upload_pairs-other (p ∷ ps) s other (e, h) (at, f) =
      upload_pairs-other ps (upload_pair sha second checksum locals p s) other h f
      ∙ upload_pair-other sha second checksum locals p s other e at

  upload_pairs-Clean :
      (ps : List Pair) (s : FileStore × Report) → All ToFile ps → Clean (run ps s) → Clean s
  unfolding upload_pairs
  upload_pairs-Clean [] s f h = h
  upload_pairs-Clean (p ∷ ps) s (at, f) h =
      let h1 = upload_pairs-Clean ps (upload_pair sha second checksum locals p s) f h in
      (upload_pair-Synced sha second checksum locals p s at h1).1

  Synced-moved :
      (p : Pair) (files files' : FileStore)
      → lookup p.target files' ≡ lookup p.target files
      → Synced sha second checksum locals files p
      → Synced sha second checksum locals files' p
  Synced-moved p files files' e (src, found, (dst, there, same), good) =
      (src, found, (dst, e ∙ there, same), good)

  upload_pairs-Synced :
      (ps : List Pair) (s : FileStore × Report)
      → Distinct ps
      → All ToFile ps
      → Clean (run ps s)
      → All (Synced sha second checksum locals (run ps s).0) ps
  unfolding upload_pairs
  upload_pairs-Synced [] s d f h = tt
  upload_pairs-Synced (p ∷ ps) s (apart, d) (at, f) h =
      let s1 = upload_pair sha second checksum locals p s in
      let first =
        (upload_pair-Synced sha second checksum locals p s at (upload_pairs-Clean ps s1 f h)).0 in
      (
        Synced-moved p s1.0 (run ps s1).0 (upload_pairs-other ps s1 p.target apart f) first,
        upload_pairs-Synced ps s1 d f h,
      )

  abbrev done : Report → Result BatchError Report
  done rep = ok rep

  ok-inj : (r q : Report) → done r ≡ done q → r ≡ q
  ok-inj r q h = cc

  -- Whatever fails during a list of uploads to distinct paths that are no existing directories, if the
  -- report has no failure, then every path was accepted and holds a file of the size of the local file of its
  -- pair, with the same hash or, without `checksum`, with a time at most the tolerance apart.
  pub ssh_upload_list-Synced :
      (online : Bool) (ps : List Pair) (remote remote' : FileStore) (rep : Report)
      → Distinct ps
      → All ToFile ps
      → ssh_upload_list sha second checksum online locals ps remote ≡ (remote', ok rep)
      → rep.failed ≡ []
      → All (InPlace remote') ps
  unfolding ssh_upload_list
  ssh_upload_list-Synced false ps remote remote' rep d f e h = cc (ap (λ r. r.1) e)
  ssh_upload_list-Synced true ps remote remote' rep d f e h =
      let s = run ps (remote, no_files) in
      let report = ok-inj s.1 rep (ap (λ r. r.1) e) in
      Synced-InPlace remote' ps (
        subst (λ f. All (Synced sha second checksum locals f) ps) (ap (λ r. r.0) e)
          (upload_pairs-Synced ps (remote, no_files) d f (ap (λ r. r.failed) report ∙ h)))

  -- The pair's path is accepted, its file is there, and the transfer and the hashing of it work.
  abbrev pub Ready : Pair → Type 0
  Ready p =
      (p.answers.put ≡ whole)
      × (p.answers.makes_dirs ≡ true)
      × (p.answers.local_hash ≡ true)
      × ((checked : Text) × (validate_remote_path false p.target ≡ ok checked))
      × ((src : StoredFile) × (lookup p.source locals ≡ some src))

  Ready-ToFile : (ps : List Pair) → All Ready ps → All ToFile ps
  Ready-ToFile [] r = tt
  Ready-ToFile (p ∷ ps) ((puts, _, _, _, _), r) = (subst AtPath (sym puts) tt, Ready-ToFile ps r)

  transfer_one_keeps :
      (a : TransferAnswers) (matched : Option Bool) (name path : Text) (src : StoredFile)
      (s : FileStore × Report)
      → a.put ≡ whole
      → a.makes_dirs ≡ true
      → matched ≢ none
      → Clean s
      → Clean (transfer_one a matched name src path s)
  unfolding transfer_one put_file
  transfer_one_keeps a none name path src (files, rep) puts dirs m h = absurd (m refl)
  transfer_one_keeps a (some true) name path src (files, rep) puts dirs m h = h
  transfer_one_keeps a (some false) name path src (files, rep) puts dirs m h =
      rw (transfer_one, dirs, puts) h

  matches_source-known :
      (a : TransferAnswers) (src : StoredFile) (found : Option StoredFile)
      → a.local_hash ≡ true
      → matches_source sha second checksum a src found ≢ none
  unfolding matches_source
  matches_source-known a src none local h = cc
  matches_source-known a src (some dst) local h = ground (arith, local, h)

  upload_pair_keeps :
      (p : Pair) (s : FileStore × Report)
      → Ready p
      → Clean s
      → Clean (upload_pair sha second checksum locals p s)
  unfolding upload_pair
  upload_pair_keeps p (files, rep) (puts, dirs, local, (checked, good), (src, found)) h =
      rw (upload_pair, good, found)
        (transfer_one_keeps p.answers (files_match sha second checksum p.answers src p.target files)
          p.source p.target src (files, count_total src rep) puts dirs
          (matches_source-known p.answers src _ local) h)

  upload_pairs_keep :
      (ps : List Pair) (s : FileStore × Report) → All Ready ps → Clean s → Clean (run ps s)
  unfolding upload_pairs
  upload_pairs_keep [] s r h = h
  upload_pairs_keep (p ∷ ps) s (ready, r) h =
      upload_pairs_keep ps (upload_pair sha second checksum locals p s) r
        (upload_pair_keeps p s ready h)

  -- The same pair once more, now that everything works.
  abbrev pub retry : Pair → Pair
  retry p = record p { answers = all_works }

  -- A report with so many more files skipped, and nothing else but the bytes in total changed.
  abbrev pub Skips : ℕ → Report → Report → Type 0
  Skips n old new =
      (new.transferred ≡ old.transferred)
      × (new.bytes_transferred ≡ old.bytes_transferred)
      × (new.failed ≡ old.failed)
      × (new.skipped ≡ old.skipped + n)

  same_file_matches :
      (src dst : StoredFile)
      → same_file sha second checksum dst src ≡ true
      → matches_source sha second checksum all_works src (some dst) ≡ some true
  unfolding same_file matches_source
  same_file_matches src dst h = ground (arith, h)

  retry-Skips :
      (p : Pair) (remote : FileStore) (rep : Report)
      → Synced sha second checksum locals remote p
      → (rep' : Report) × (upload_pair sha second checksum locals (retry p) (remote, rep)
          ≡ (remote, rep'))
        × Skips 1 rep rep'
  unfolding upload_pair transfer_one
  retry-Skips p remote rep (src, found, (dst, there, same), (checked, good)) = (
    record (count_total src rep) { skipped = rep.skipped + 1 },
    rw (upload_pair, good, found, there, same_file_matches src dst same) refl,
    (refl, refl, refl, refl),
  )

  map-retry-Skips :
      (ps : List Pair) (remote : FileStore) (rep : Report)
      → All (Synced sha second checksum locals remote) ps
      → (rep' : Report) × (run (map retry ps) (remote, rep) ≡ (remote, rep'))
        × Skips (length ps) rep rep'
  unfolding upload_pairs
  map-retry-Skips [] remote rep h = (rep, refl, (refl, refl, refl, omega arith))
  map-retry-Skips (p ∷ ps) remote rep (synced, h) =
      let (rep1, e1, (t1, b1, f1, k1)) = retry-Skips p remote rep synced in
      let (rep2, e2, (t2, b2, f2, k2)) = map-retry-Skips ps remote rep1 h in
      (rep2, ap (run (map retry ps)) e1 ∙ e2, (t2 ∙ t1, b2 ∙ b1, f2 ∙ f1, omega (arith, k1, k2)))

  -- If everything works during a list of uploads to distinct and accepted paths, then no file fails,
  -- and the same list once more transfers nothing and skips every file.
  pub ssh_upload_list_again :
      (ps : List Pair) (remote : FileStore)
      → Distinct ps
      → All Ready ps
      → (remote' : FileStore) × (rep again : Report) × (ssh_upload_list sha second checksum true
            locals ps remote
          ≡ (remote', ok rep))
        × (rep.failed ≡ [])
        × (ssh_upload_list sha second checksum true locals (map retry ps) remote'
            ≡ (remote', ok again))
        × Skips (length ps) no_files again
  unfolding ssh_upload_list
  ssh_upload_list_again ps remote d ready =
      let s = run ps (remote, no_files) in
      let clean = upload_pairs_keep ps (remote, no_files) ready refl in
      let synced = upload_pairs-Synced ps (remote, no_files) d (Ready-ToFile ps ready) clean in
      let (again, e, k) = map-retry-Skips ps s.0 no_files synced in
      (s.0, s.1, again, refl, clean, ap (λ r. (r.0, done r.1)) e, k)
