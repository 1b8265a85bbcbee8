-- ===== src/Transfer/Upload.antt =====
-- `ssh_upload_file` of portal_mcp_server/file_ops.py, which resumes a transfer that was interrupted.
use portal_mcp_server.Base.{
  ℕ, Text, text_eq, text_has_eq, Bool, true, false, not, ◌&&◌, Option, none, some, List, ◌++◌,
  length, take, drop, ltb, Result, ok, err, if◌then◌else◌,
}
use portal_mcp_server.Base.Dicts.{lookup, insert}
use portal_mcp_server.Safety.{Invalid, validate_remote_path}
use portal_mcp_server.Transfer.{StoredFile, FileStore, Put, TransferAnswers, put_file}

pub data UploadError : Type 0 where
  bad_path : Invalid → UploadError
  no_local_file no_connection put_failed append_failed hash_failed : UploadError

-- `res["resumed"]` and the two flags of a restart.
pub data Way : Type 0 where
  fresh resumed restarted_unverifiable restarted_after_mismatch : Way

pub record Uploaded : Type 0 where
  pub bytes : ℕ
  pub way : Way

-- Whether there is a connection, how appending the tail ends (`some n`: after so many bytes), the time
-- that this leaves on the file, and the answers to the rest.
pub record Link : Type 0 where
  pub connects : Bool
  pub append_stops : Option ℕ
  pub append_mtime : ℕ
  pub answers : TransferAnswers

-- A fresh transfer of the whole file.
abbrev pub put_fresh :
    Put → Text → StoredFile → Way → FileStore → FileStore × Result UploadError Uploaded
put_fresh put path src way remote =
    let (remote', done) = put_file put path src remote in
    (
      remote',
      if done then ok (record { bytes = length src.content; way = way }) else err put_failed,
    )

-- `_sftp_append_tail`: the file at the path with the rest of the source, or a part of this rest.
unfoldable pub append_tail : Link → StoredFile → StoredFile → StoredFile × Bool
append_tail l dst src =
    let tail = drop (length dst.content) src.content in
    elim l.append_stops [
      | none ↦ (record { content = dst.content ++ tail; mtime = l.append_mtime }, true)
      | some n ↦ (record { content = dst.content ++ take n tail; mtime = l.append_mtime }, false)
    ]

-- Whether the file at the path is a part to go on from.
abbrev pub is_partial : StoredFile → StoredFile → Bool
is_partial dst src = ltb 0 (length dst.content) && ltb (length dst.content) (length src.content)

module _ (sha : List ℕ → Text) where
  -- After the tail has been appended.
  unfoldable pub verify_or_put :
      TransferAnswers
      → Text
      → StoredFile
      → StoredFile
      → FileStore
      → FileStore × Result UploadError Uploaded
  verify_or_put a path src joined remote =
      if not a.local_hash
      then (remote, err hash_failed)
      else if not a.remote_hash
      then put_fresh a.put path src restarted_unverifiable remote
      else if text_eq (sha joined.content) (sha src.content)
      then (remote, ok (record { bytes = length src.content; way = resumed }))
      else put_fresh a.put path src restarted_after_mismatch remote

  unfoldable pub resume_upload :
      Link → Text → StoredFile → StoredFile → FileStore → FileStore × Result UploadError Uploaded
  resume_upload l path src dst remote =
      let (joined, done) = append_tail l dst src in
      let remote' = insert path joined remote in
      if done then verify_or_put l.answers path src joined remote' else (remote', err append_failed)

  -- The transfer, where the answer of `sftp.stat` is a file or none.
  unfoldable pub send :
      Link
      → Text
      → StoredFile
      → Option StoredFile
      → FileStore
      → FileStore × Result UploadError Uploaded
  send l path src none remote = put_fresh l.answers.put path src fresh remote
  send l path src (some dst) remote =
      if is_partial dst src
      then resume_upload l path src dst remote
      else put_fresh l.answers.put path src fresh remote

  -- `ssh_upload_file`; `source` is the local file, where there is one.
  unfoldable pub ssh_upload_file :
      Link → Bool → Option StoredFile → Text → FileStore → FileStore × Result UploadError Uploaded
  ssh_upload_file l resume source path remote = elim (validate_remote_path false path) [
    | err e ↦ (remote, err (bad_path e))
    | ok checked ↦ elim source [
      | none ↦ (remote, err no_local_file)
      | some src ↦
          if l.connects
          then send l path src (if resume && l.answers.stat_works then lookup path remote else none)
              remote
          else (remote, err no_connection)
    ]
  ]
