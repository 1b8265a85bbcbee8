-- ===== src/Transfer/Batch.antt =====
-- The transfers of many files in portal_mcp_server/file_ops.py: lists and whole directories, both ways.
use portal_mcp_server.Base.{
  ℕ, ◌+◌, Text, text_has_eq, Bool, true, false, Option, none, some, List, [], ◌∷◌, ◌++◌, length,
  is_empty, Result, ok, err, if◌then◌else◌,
}
use portal_mcp_server.Base.Dicts.{lookup}
use portal_mcp_server.Safety.{Invalid, validate_remote_path}
use portal_mcp_server.Transfer.{
  StoredFile, FileStore, TransferAnswers, put_file, matches_source, files_match,
}

pub data Failure : Type 0 where
  bad_path : Invalid → Failure
  not_found transfer_failed symlink_destination : Failure

-- The fields of `res` that count; `transferred` is `uploaded` or `downloaded`.
pub record Report : Type 0 where
  pub transferred : ℕ
  pub skipped : ℕ
  pub skipped_symlinks : ℕ
  pub failed : List (Text × Failure)
  pub bytes_total : ℕ
  pub bytes_transferred : ℕ

abbrev pub no_files : Report
no_files = record {
  transferred = 0;
  skipped = 0;
  skipped_symlinks = 0;
  failed = [];
  bytes_total = 0;
  bytes_transferred = 0;
}

-- `res["failed"].append(...)`
abbrev pub fail : Text → Failure → Report → Report
fail name why rep = record rep { failed = rep.failed ++ (name, why) ∷ [] }

-- `res["bytes_total"] += size`
abbrev pub count_total : StoredFile → Report → Report
count_total src rep = record rep { bytes_total = rep.bytes_total + length src.content }

abbrev pub count_transfer : StoredFile → Report → Report
count_transfer src rep = record rep {
  transferred = rep.transferred + 1;
  bytes_transferred = rep.bytes_transferred + length src.content;
}

-- What is counted once a transfer has ended.
abbrev pub after_put : Text → StoredFile → Report → FileStore × Bool → FileStore × Report
after_put name src rep (files, true) = (files, count_transfer src rep)
after_put name src rep (files, false) = (files, fail name transfer_failed rep)

-- The end of a loop's body: skip, or make the directory and transfer.
unfoldable pub transfer_one :
    TransferAnswers
    → Option Bool
    → Text
    → StoredFile
    → Text
    → FileStore × Report
    → FileStore × Report
transfer_one a none name src path (files, rep) = (files, fail name transfer_failed rep)
transfer_one a (some true) name src path (files, rep) =
    (files, record rep { skipped = rep.skipped + 1 })
transfer_one a (some false) name src path (files, rep) =
    if a.makes_dirs
    then after_put name src rep (put_file a.put path src files)
    else (files, fail name transfer_failed rep)

-- One pair of paths, and what is answered while it is handled.
pub record Pair : Type 0 where
  pub source : Text
  pub target : Text
  pub answers : TransferAnswers

-- What `local.rglob` meets: `regular` with the path from the directory on.
pub data TreeEntry : Type 0 where
  symlink special : TreeEntry
  regular : Text → StoredFile → TransferAnswers → TreeEntry

-- A file of `_walk_remote`, and whether its destination is a symbolic link.
pub record RemoteFile : Type 0 where
  pub rel : Text
  pub file : StoredFile
  pub to_symlink : Bool
  pub answers : TransferAnswers

pub data BatchError : Type 0 where
  bad_directory : Invalid → BatchError
  no_directory not_directory no_link : BatchError

-- `res["status"]` at the end: whether it is `ok`; if not, it is `partial`.
abbrev pub is_ok : Report → Bool
is_ok rep = is_empty rep.failed

module _ (sha : List ℕ → Text) (second : ℕ) (checksum : Bool) where
  -- The body of the loop of `ssh_upload_list`.
  unfoldable pub upload_pair : FileStore → Pair → FileStore × Report → FileStore × Report
  upload_pair locals p (remote, rep) = elim (validate_remote_path false p.target) [
    | err e ↦ (remote, fail p.source (bad_path e) rep)
    | ok checked ↦ elim (lookup p.source locals) [
      | none ↦ (remote, fail p.source not_found rep)
      | some src ↦
          transfer_one p.answers (files_match sha second checksum p.answers src p.target remote)
            p.source src p.target (remote, count_total src rep)
    ]
  ]

  unfoldable pub upload_pairs : FileStore → List Pair → FileStore × Report → FileStore × Report
  upload_pairs locals [] s = s
  upload_pairs locals (p ∷ ps) s = upload_pairs locals ps (upload_pair locals p s)

  -- `ssh_upload_list`
  unfoldable pub ssh_upload_list :
      Bool → FileStore → List Pair → FileStore → FileStore × Result BatchError Report
  ssh_upload_list online locals ps remote =
      let (remote', rep) = upload_pairs locals ps (remote, no_files) in
      if online then (remote', ok rep) else (remote, err no_link)

  -- The body of the loop of `ssh_sync_directory`; `join` is how `PurePosixPath` joins two paths.
  unfoldable pub sync_entry :
      (Text → Text → Text) → Text → TreeEntry → FileStore × Report → FileStore × Report
  sync_entry join root symlink (remote, rep) =
      (remote, record rep { skipped_symlinks = rep.skipped_symlinks + 1 })
  sync_entry join root special (remote, rep) = (remote, rep)
  sync_entry join root (regular rel src a) (remote, rep) =
      transfer_one a (files_match sha second checksum a src (join root rel) remote) rel src
        (join root rel) (remote, count_total src rep)

  unfoldable pub sync_entries :
      (Text → Text → Text) → Text → List TreeEntry → FileStore × Report → FileStore × Report
  sync_entries join root [] s = s
  sync_entries join root (e ∷ es) s = sync_entries join root es (sync_entry join root e s)

  -- `ssh_sync_directory`; the entries are there if the local directory is.
  unfoldable pub ssh_sync_directory :
      (Text → Text → Text)
      → Bool
      → Option (List TreeEntry)
      → Text
      → FileStore
      → FileStore × Result BatchError Report
  ssh_sync_directory join online entries root remote = elim (validate_remote_path false root) [
    | err e ↦ (remote, err (bad_directory e))
    | ok checked ↦ elim entries [
      | none ↦ (remote, err no_directory)
      | some es ↦
          let (remote', rep) = sync_entries join root es (remote, no_files) in
          if online then (remote', ok rep) else (remote, err no_link)
    ]
  ]

  -- The body of the loop of `ssh_download_list`.
  unfoldable pub download_pair : FileStore → Pair → FileStore × Report → FileStore × Report
  download_pair remote p (locals, rep) = elim (validate_remote_path false p.source) [
    | err e ↦ (locals, fail p.source (bad_path e) rep)
    | ok checked ↦ elim (if p.answers.stat_works then lookup p.source remote else none) [
      | none ↦ (locals, fail p.source not_found rep)
      | some src ↦
          transfer_one p.answers
            (matches_source sha second checksum p.answers src (lookup p.target locals)) p.source src
            p.target (locals, count_total src rep)
    ]
  ]

  unfoldable pub download_pairs : FileStore → List Pair → FileStore × Report → FileStore × Report
  download_pairs remote [] s = s
  download_pairs remote (p ∷ ps) s = download_pairs remote ps (download_pair remote p s)

  -- `ssh_download_list`
  unfoldable pub ssh_download_list :
      Bool → FileStore → List Pair → FileStore → FileStore × Result BatchError Report
  ssh_download_list online remote ps locals =
      let (locals', rep) = download_pairs remote ps (locals, no_files) in
      if online then (locals', ok rep) else (locals, err no_link)

  -- The body of the loop of `ssh_mirror_directory`.
  unfoldable pub mirror_file :
      (Text → Text → Text) → Text → RemoteFile → FileStore × Report → FileStore × Report
  mirror_file join root r (locals, rep) =
      let path = join root r.rel in
      let counted = count_total r.file rep in
      if r.to_symlink
      then (locals, fail r.rel symlink_destination counted)
      else transfer_one r.answers
          (matches_source sha second checksum r.answers r.file (lookup path locals)) r.rel r.file
          path (locals, counted)

  unfoldable pub mirror_files :
      (Text → Text → Text) → Text → List RemoteFile → FileStore × Report → FileStore × Report
  mirror_files join root [] s = s
  mirror_files join root (r ∷ rs) s = mirror_files join root rs (mirror_file join root r s)

  -- `ssh_mirror_directory`; `walked` is what stands at the remote path: nothing, no directory, or what
  -- `_walk_remote` finds in it.
  unfoldable pub ssh_mirror_directory :
      (Text → Text → Text)
      → Bool
      → Text
      → Option (Option (List RemoteFile))
      → Text
      → FileStore
      → FileStore × Result BatchError Report
  ssh_mirror_directory join online remote_dir walked root locals =
      elim (validate_remote_path false remote_dir) [
        | err e ↦ (locals, err (bad_directory e))
        | ok checked ↦
            if online
            then elim walked [
              | none ↦ (locals, err no_directory)
              | some found ↦ elim found [
                | none ↦ (locals, err not_directory)
                | some files ↦
                    let (locals', rep) = mirror_files join root files (locals, no_files) in
                    (locals', ok rep)
              ]
            ]
            else (locals, err no_link)
      ]
