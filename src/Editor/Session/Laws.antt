-- ===== src/Editor/Session/Laws.antt =====
-- What `remote_patch` does to the file, on every path.
use portal_mcp_server.Base.{
  ◌≡◌, refl, inl, inr, Text, text_eq, text_eq_iff, Bool, true, false, List, ok, err, Result-cases,
  all, ltb, arith,
}
use portal_mcp_server.Editor.Patch.{Fields, PatchError, Warning, hash_eq, plan_patch}
use portal_mcp_server.Editor.Session.{Outcome, verify, remote_patch}

abbrev pub IsAscii : Text → Type 0
IsAscii t = all (λ c. ltb c 128) t ≡ true

pub hash_eq_refl : (a : Text) → IsAscii a → hash_eq a a ≡ ok true
unfolding hash_eq
hash_eq_refl a h = let e : text_eq a a ≡ true = (text_eq_iff a a).1 refl in rw (h, e)

hash_eq-ok : (a b : Text) → hash_eq a b ≡ ok true → a ≡ b
unfolding hash_eq
hash_eq-ok a b h = ground (arith, text_eq_iff a b)

verify-ok :
    {S : Type 0} (sha : Text → Text) (read : S → Text) (write : Text → S → S) (text : Text)
    (warned : List Warning) (s : S) (hash : Text) (warnings : List Warning)
    → verify sha read write text warned s ≡ ok (hash, warnings)
    → (sha (read s) ≡ sha text) × (hash ≡ sha text) × (warnings ≡ warned)
unfolding verify
verify-ok sha read write text warned s hash warnings h =
    elim (Result-cases (hash_eq (sha (read s)) (sha text))) [
      | inr (e, p) ↦ cc (rw (p, verify) at h)
      | inl (true, p) ↦ ground (arith, hash_eq-ok (sha (read s)) (sha text) p, p)
      | inl (false, p) ↦ cc (rw (p, verify) at h)
    ]

module _ {S : Type 0} (sha : Text → Text) (read : S → Text) (write : Text → S → S)
    (file_hash : Text) (patches : List Fields) (auto_newline : Bool) (s : S) where
  -- The plan for the file as it is.
  abbrev pub plan : Outcome
  plan = plan_patch sha (read s) file_hash patches auto_newline

  abbrev pub run : S × Outcome
  run = remote_patch sha read write file_hash patches auto_newline s

  -- A call with no plan leaves the remote file alone and reports why.
  pub remote_patch_refused : (e : PatchError) → plan ≡ err e → run ≡ (s, err e)
  unfolding remote_patch
  remote_patch_refused e h = rw (h, remote_patch)

  -- A call that reports success had a plan, has written it, and the file that it read back has the
  -- hash of the planned text, which is the hash that it reports.
  pub remote_patch-ok :
      (hash : Text) (warnings : List Warning)
      → run.1 ≡ ok (hash, warnings)
      → (text : Text) × (plan ≡ ok (text, warnings))
        × (run.0 ≡ write text s)
        × (sha (read run.0) ≡ sha text)
        × (hash ≡ sha text)
  unfolding remote_patch verify
  remote_patch-ok hash warnings h = elim (Result-cases plan) [
    | inr (e, p) ↦ cc (rw (p, remote_patch) at h)
    | inl ((text, warned), p) ↦
        let (same, h', w') =
          verify-ok sha read write text warned (write text s) hash warnings
            (rw (p, remote_patch) at h) in
        (text, rw (p, w'), rw (p, remote_patch), rw (p, remote_patch) same, h')
  ]

  -- Where the file that is read back is what was written, and the hash is in ASCII, every plan is
  -- carried out.
  pub remote_patch_succeeds :
      (text : Text) (warnings : List Warning)
      → plan ≡ ok (text, warnings)
      → read (write text s) ≡ text
      → IsAscii (sha text)
      → run ≡ (write text s, ok (sha text, warnings))
  unfolding remote_patch verify
  remote_patch_succeeds text warnings h stored ascii =
      rw (h, remote_patch, stored, hash_eq_refl (sha text) ascii, verify, stored)
