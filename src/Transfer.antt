-- ===== src/Transfer.antt =====
-- portal_mcp_server/file_ops.py: files on both sides of a transfer, what one transfer does, and when it
-- is skipped. The bytes of a file are numbers; the times are natural numbers.
pub mod Upload
pub mod Whole
pub mod Batch
pub mod Synced
pub mod Again
use portal_mcp_server.Base.{
  ℕ, ◌+◌, ◌-◌, Text, text_eq, text_has_eq, ◌==◌, Bool, true, false, not, ◌&&◌, Option, none, some,
  List, [], ◌∷◌, ◌++◌, length, is_empty, leb, nat_beq, if◌then◌else◌,
}
use portal_mcp_server.Base.Dicts.{Dict, lookup, insert}

pub record StoredFile : Type 0 where
  pub content : List ℕ
  pub mtime : ℕ

-- The regular files of one side, by their paths.
abbrev pub FileStore : Type 0
FileStore = Dict Text StoredFile

-- How `sftp.put` or `sftp.get` ends: with all of the file and its time at the destination, with the same at
-- the path that is named, which is in the destination where this is a directory, or with an error, which may
-- leave another file there.
pub data Put : Type 0 where
  whole : Put
  inside : Text → Put
  stopped : Option StoredFile → Put

-- What the server and the file systems answer during one transfer.
pub record TransferAnswers : Type 0 where
  pub stat_works : Bool
  pub mtime_known : Bool
  pub remote_hash : Bool
  pub local_hash : Bool
  pub makes_dirs : Bool
  pub put : Put

-- No call fails, and the server has `sha256sum`.
abbrev pub all_works : TransferAnswers
all_works = record {
  stat_works = true;
  mtime_known = true;
  remote_hash = true;
  local_hash = true;
  makes_dirs = true;
  put = whole;
}

-- The destination is not an existing directory.
abbrev pub AtPath : Put → Type 0
AtPath (inside inner) = ⊥
AtPath whole = Unit {0}
AtPath (stopped left) = Unit {0}

-- The destination after the transfer of a file to a path, and whether it has ended without an error.
unfoldable pub put_file : Put → Text → StoredFile → FileStore → FileStore × Bool
put_file whole path f files = (insert path f files, true)
put_file (inside inner) path f files = (insert inner f files, true)
put_file (stopped none) path f files = (files, false)
put_file (stopped (some left)) path f files = (insert path left files, false)

-- `_mtime_match`; `second` is how many units of time MTIME_TOLERANCE_SEC has.
unfoldable pub mtime_match : ℕ → ℕ → ℕ → Bool
mtime_match second a b = leb (a - b) second && leb (b - a) second

module _ (sha : List ℕ → Text) (second : ℕ) (checksum : Bool) where
  -- The comparison of a destination's file with the source, where every answer is there.
  unfoldable pub same_file : StoredFile → StoredFile → Bool
  same_file dst src =
      nat_beq (length dst.content) (length src.content)
      && (if checksum
          then text_eq (sha dst.content) (sha src.content)
          else mtime_match second dst.mtime src.mtime)

  -- Whether a transfer can be skipped, for the file at the destination; `none` is an error.
  unfoldable pub matches_source : TransferAnswers → StoredFile → Option StoredFile → Option Bool
  matches_source a src none = some false
  matches_source a src (some dst) =
      if not (nat_beq (length dst.content) (length src.content))
      then some false
      else if checksum
      then if not a.remote_hash
        then some false
        else if a.local_hash
        then some (text_eq (sha dst.content) (sha src.content))
        else none
      else some (a.mtime_known && mtime_match second dst.mtime src.mtime)

  -- `_files_match`
  abbrev pub files_match : TransferAnswers → StoredFile → Text → FileStore → Option Bool
  files_match a src path remote =
      matches_source a src (if a.stat_works then lookup path remote else none)
