-- ===== src/Tests/TransferRuns.antt =====
-- portal_mcp_server/file_ops.py on a file of three bytes; the bytes themselves stand for SHA-256.
use portal_mcp_server.Base.{
  ℕ, ◌≡◌, refl, Text, text_eq, text_has_eq, codes, true, false, none, some, List, [], ◌∷◌, All, ok,
  err,
}
use portal_mcp_server.Base.Dicts.{lookup, insert}
use portal_mcp_server.Safety.{validate_remote_path, check_chars}
use portal_mcp_server.Transfer.{StoredFile, FileStore, all_works, put_file, matches_source}
use portal_mcp_server.Transfer.Upload.{
  append_failed, resumed, restarted_after_mismatch, Link, append_tail, verify_or_put, resume_upload,
  send, ssh_upload_file,
}
use portal_mcp_server.Transfer.Whole.{Honest, ssh_upload_file-Honest}
use portal_mcp_server.Transfer.Batch.{
  Report, no_files, transfer_one, Pair, upload_pair, upload_pairs, ssh_upload_list,
}
use portal_mcp_server.Transfer.Again.{InPlace, ssh_upload_list-Synced}

abbrev hash : List ℕ → Text
hash bytes = bytes

abbrev path : Text
path = codes "/r/a"

abbrev src : StoredFile
src = record { content = 1 ∷ 2 ∷ 3 ∷ []; mtime = 100 }

-- A part of the file, and one that is no part.
abbrev begun : FileStore
begun = (path, record { content = 1 ∷ 2 ∷ []; mtime = 7 }) ∷ []

abbrev stale : FileStore
stale = (path, record { content = 9 ∷ 2 ∷ []; mtime = 7 }) ∷ []

abbrev link : Link
link = record { connects = true; append_stops = none; append_mtime = 8; answers = all_works }

abbrev broken_link : Link
broken_link = record link { append_stops = some 0 }

goes_on : ssh_upload_file hash link true (some src) path begun ≡ (
  (path, record { content = 1 ∷ 2 ∷ 3 ∷ []; mtime = 8 }) ∷ [],
  ok (record { bytes = 3; way = resumed }),
)
unfolding ssh_upload_file send resume_upload append_tail verify_or_put validate_remote_path
    check_chars lookup insert text_eq
goes_on = refl

starts_again :
    ssh_upload_file hash link true (some src) path stale
    ≡ ((path, src) ∷ [], ok (record { bytes = 3; way = restarted_after_mismatch }))
unfolding ssh_upload_file send resume_upload append_tail verify_or_put put_file validate_remote_path
    check_chars lookup insert text_eq
starts_again = refl

breaks : (ssh_upload_file hash broken_link true (some src) path begun).1 ≡ err append_failed
unfolding ssh_upload_file send resume_upload append_tail validate_remote_path check_chars lookup
    insert text_eq
breaks = refl

ssh_upload_file-Honest_example :
    Honest hash path src (ssh_upload_file hash link true (some src) path stale)
ssh_upload_file-Honest_example = ssh_upload_file-Honest hash path src link true stale tt

accepted : validate_remote_path false path ≡ ok path
unfolding validate_remote_path check_chars
accepted = refl

abbrev locals : FileStore
locals = (codes "/l/a", src) ∷ []

abbrev pairs : List Pair
pairs = record { source = codes "/l/a"; target = path; answers = all_works } ∷ []

abbrev report : Report
report = record no_files { transferred = 1; bytes_total = 3; bytes_transferred = 3 }

uploads : ssh_upload_list hash 1 false true locals pairs stale ≡ ((path, src) ∷ [], ok report)
unfolding ssh_upload_list upload_pairs upload_pair transfer_one put_file matches_source
    validate_remote_path check_chars lookup insert text_eq
uploads = refl

ssh_upload_list-Synced_example : All (InPlace hash 1 false locals ((path, src) ∷ [])) pairs
ssh_upload_list-Synced_example =
    ssh_upload_list-Synced hash 1 false locals true pairs stale ((path, src) ∷ []) report (tt, tt)
      (tt, tt) uploads refl

found : lookup (codes "/l/a") locals ≡ some src
unfolding lookup text_eq
found = refl
