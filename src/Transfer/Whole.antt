-- ===== src/Transfer/Whole.antt =====
-- What an upload by portal_mcp_server/file_ops.py leaves on the remote host.
use portal_mcp_server.Base.{
  ℕ, ◌≡◌, refl, sym, ap, subst, ◌∙◌, inl, inr, Text, text_eq, text_eq_iff, text_has_eq, Bool, true,
  false, ◌&&◌, Option, none, some, List, length, Result, ok, err, if◌then◌else◌, Bool-cases,
  Result-cases,
}
use portal_mcp_server.Base.Dicts.{Dict, lookup, insert, lookup-insert}
use portal_mcp_server.Safety.{validate_remote_path}
use portal_mcp_server.Transfer.{
  StoredFile, FileStore, Put, whole, inside, stopped, AtPath, TransferAnswers, put_file,
}
use portal_mcp_server.Transfer.Upload.{
  UploadError, no_connection, Way, Uploaded, Link, put_fresh, append_tail, is_partial,
  verify_or_put, resume_upload, send, ssh_upload_file,
}

text_eq_self : (s : Text) → text_eq s s ≡ true
text_eq_self s = (text_eq_iff s s).1 refl

lookup-inserted :
    {V : Type 0} (k : Text) (v : V) (d : Dict Text V) → lookup k (insert k v d) ≡ some v
lookup-inserted k v d = lookup-insert k k v d ∙ rw (text_eq_self k) refl

module _ (sha : List ℕ → Text) (path : Text) (src : StoredFile) where
  -- The path has a file with the hash of the source.
  abbrev pub Arrived : FileStore → Type 0
  Arrived files =
      (dst : StoredFile) × (lookup path files ≡ some dst) × (sha dst.content ≡ sha src.content)

  -- An upload that reports success has arrived, and reports its size.
  abbrev pub Honest : FileStore × Result UploadError Uploaded → Type 0
  Honest (files, err e) = Unit {0}
  Honest (files, ok done) = Arrived files × (done.bytes ≡ length src.content)

  put_fresh-Honest :
      (put : Put) (way : Way) (files : FileStore)
      → AtPath put
      → Honest (put_fresh put path src way files)
  unfolding put_file
  put_fresh-Honest (inside inner) way files at = absurd at
  put_fresh-Honest whole way files at = ((src, lookup-inserted path src files, refl), refl)
  put_fresh-Honest (stopped none) way files at = tt
  put_fresh-Honest (stopped (some left)) way files at = tt

  verify_or_put-Honest :
      (a : TransferAnswers) (joined : StoredFile) (files : FileStore)
      → lookup path files ≡ some joined
      → AtPath a.put
      → Honest (verify_or_put sha a path src joined files)
  unfolding verify_or_put
  verify_or_put-Honest a joined files there at = elim (Bool-cases a.local_hash) [
    | inr no_local ↦ rw (verify_or_put, no_local) tt
    | inl local ↦ elim (Bool-cases a.remote_hash) [
      | inr no_remote ↦ rw (verify_or_put, local, no_remote) (put_fresh-Honest a.put _ files at)
      | inl remote ↦ elim (Bool-cases (text_eq (sha joined.content) (sha src.content))) [
        | inl same ↦
            rw (verify_or_put, local, remote, same)
              ((joined, there, (text_eq_iff (sha joined.content) (sha src.content)).0 same), refl)
        | inr other ↦ rw (verify_or_put, local, remote, other) (put_fresh-Honest a.put _ files at)
      ]
    ]
  ]

  resume_upload-Honest :
      (l : Link) (dst : StoredFile) (files : FileStore)
      → AtPath l.answers.put
      → Honest (resume_upload sha l path src dst files)
  unfolding resume_upload
  resume_upload-Honest l dst files at =
      let joined = (append_tail l dst src).0 in
      elim (Bool-cases (append_tail l dst src).1) [
        | inl done ↦
            rw (resume_upload, done)
              (verify_or_put-Honest l.answers joined (insert path joined files)
                (lookup-inserted path joined files) at)
        | inr broken ↦ rw (resume_upload, broken) tt
      ]

  send-Honest :
      (l : Link) (found : Option StoredFile) (files : FileStore)
      → AtPath l.answers.put
      → Honest (send sha l path src found files)
  unfolding send
  send-Honest l none files at = put_fresh-Honest l.answers.put _ files at
  send-Honest l (some dst) files at = elim (Bool-cases (is_partial dst src)) [
    | inl part ↦ rw (send, part) (resume_upload-Honest l dst files at)
    | inr other ↦ rw (send, other) (put_fresh-Honest l.answers.put _ files at)
  ]

  if-Honest :
      (online : Bool) (r : FileStore × Result UploadError Uploaded) (files : FileStore)
      → Honest r
      → Honest (if online then r else (files, err no_connection))
  if-Honest true r files h = h
  if-Honest false r files h = tt

  -- Whatever fails on the way, an upload of a local file to a path that is not an existing directory, if it
  -- reports success, has left a file with the hash of the source at the path, and reports the source's size.
  pub ssh_upload_file-Honest :
      (l : Link) (resume : Bool) (files : FileStore)
      → AtPath l.answers.put
      → Honest (ssh_upload_file sha l resume (some src) path files)
  unfolding ssh_upload_file
  ssh_upload_file-Honest l resume files at = elim (Result-cases (validate_remote_path false path)) [
    | inl (checked, good) ↦
        let found = if resume && l.answers.stat_works then lookup path files else none in
        rw (ssh_upload_file, good)
          (if-Honest l.connects (send sha l path src found files) files
            (send-Honest l found files at))
    | inr (e, bad) ↦ rw (ssh_upload_file, bad) tt
  ]

  module _ (l : Link) (appends : l.append_stops ≡ none) (hashes : l.answers.local_hash ≡ true)
      (puts : l.answers.put ≡ whole) where
    abbrev pub Succeeds : FileStore × Result UploadError Uploaded → Type 0
    Succeeds r = (done : Uploaded) × (r.1 ≡ ok done)

    put_fresh-Succeeds :
        (way : Way) (files : FileStore) → Succeeds (put_fresh l.answers.put path src way files)
    unfolding put_file
    put_fresh-Succeeds way files = rw puts (record { bytes = length src.content; way = way }, refl)

    verify_or_put-Succeeds :
        (joined : StoredFile) (files : FileStore)
        → Succeeds (verify_or_put sha l.answers path src joined files)
    unfolding verify_or_put
    verify_or_put-Succeeds joined files = elim (Bool-cases l.answers.remote_hash) [
      | inr no_remote ↦ rw (verify_or_put, hashes, no_remote) (put_fresh-Succeeds _ files)
      | inl remote ↦ elim (Bool-cases (text_eq (sha joined.content) (sha src.content))) [
        | inl same ↦ rw (verify_or_put, hashes, remote, same) (_, refl)
        | inr other ↦ rw (verify_or_put, hashes, remote, other) (put_fresh-Succeeds _ files)
      ]
    ]

    send-Succeeds :
        (found : Option StoredFile) (files : FileStore) → Succeeds (send sha l path src found files)
    unfolding send resume_upload append_tail
    send-Succeeds none files = put_fresh-Succeeds _ files
    send-Succeeds (some dst) files = elim (Bool-cases (is_partial dst src)) [
      | inl part ↦
          let joined = (append_tail l dst src).0 in
          let done : (append_tail l dst src).1 ≡ true = rw (append_tail, appends) refl in
          rw (send, resume_upload, part, done)
            (verify_or_put-Succeeds joined (insert path joined files))
      | inr other ↦ rw (send, other) (put_fresh-Succeeds _ files)
    ]

    arrives : (r : FileStore × Result UploadError Uploaded) → Succeeds r → Honest r → Arrived r.0
    arrives (files, ok done) s h = h.0
    arrives (files, err e) (done, s) h = cc

    -- An upload of a local file to an accepted path, where the connection, the appending of the tail,
    -- the transfer and the local hash work, succeeds, whatever is at the path and whether or not the
    -- server can hash, and leaves a file with the hash of the source.
    pub ssh_upload_file_arrives :
        (resume : Bool) (files : FileStore) (checked : Text)
        → validate_remote_path false path ≡ ok checked
        → l.connects ≡ true
        → let out = ssh_upload_file sha l resume (some src) path files in
          Succeeds out × Arrived out.0
    unfolding ssh_upload_file
    ssh_upload_file_arrives resume files checked good online =
        let found = if resume && l.answers.stat_works then lookup path files else none in
        let ran : ssh_upload_file sha l resume (some src) path files
            ≡ send sha l path src found files =
          rw (ssh_upload_file, good)
            (ap (λ b. if b then send sha l path src found files else (files, err no_connection))
              online) in
        subst (λ out. Succeeds out × Arrived out.0) (sym ran)
          (
            send-Succeeds found files,
            arrives (send sha l path src found files) (send-Succeeds found files)
                (send-Honest l found files (subst AtPath (sym puts) tt)),
          )
