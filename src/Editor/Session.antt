-- ===== src/Editor/Session.antt =====
-- `remote_patch` of portal_mcp_server/remote_text_editor.py as a whole: read, plan, write, and read
-- back. The remote file is a state with its reads and writes as parameters (SFTP or sudo); what other
-- processes do between the calls is part of `write`.
pub mod Laws
pub mod Single
use portal_mcp_server.Base.{
  Text, Bool, List, Result, ok, err, true, false, if◌then◌else◌, codes, ℕ, [], ◌∷◌,
}
use portal_mcp_server.Editor.Patch.{Fields, PatchError, Warning, hash_eq, plan_patch, verify_failed}

-- The file's hash and the warnings, or the reason for the refusal.
abbrev pub Outcome : Type 0
Outcome = Result PatchError (Text × List Warning)

module _ {S : Type 0} (sha : Text → Text) (read : S → Text) (write : Text → S → S) where
  -- Step 7: the file is read back and its hash compared.
  unfoldable pub verify : Text → List Warning → S → Outcome
  verify new_full warnings s = elim (hash_eq (sha (read s)) (sha new_full)) [
    | ok same ↦
        if same
        then ok (sha (read s), warnings)
        else err (verify_failed (sha new_full) (sha (read s)))
    | err e ↦ err e
  ]

  unfoldable pub remote_patch : Text → List Fields → Bool → S → S × Outcome
  remote_patch file_hash patches auto_newline s =
      elim (plan_patch sha (read s) file_hash patches auto_newline) [
        | err e ↦ (s, err e)
        | ok (new_full, warnings) ↦ let s' = write new_full s in (s', verify new_full warnings s')
      ]
