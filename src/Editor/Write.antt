-- ===== src/Editor/Write.antt =====
-- `_make_tmp_path`, `_atomic_write` and `_sweep_orphan_tmps_in` of
-- portal_mcp_server/remote_text_editor.py. The SFTP server is not part of the program: its files are
-- a dictionary from paths to contents, and what it answers to each request is an argument.
pub mod Atomic
pub mod Sweep
use portal_mcp_server.Base.{
  ℕ, ◌+◌, ◌-◌, ◌≡◌, Text, text_has_eq, codes, Bool, true, false, not, ◌&&◌, ◌||◌, Option, none,
  some, List, [], ◌∷◌, ◌++◌, Result, ok, err, take, drop, length, all, ltb, leb, nat_beq, ◌==◌,
  if◌then◌else◌,
}
use portal_mcp_server.Base.Dicts.{Dict, lookup, insert, erase}

abbrev pub Files : Type 0
Files = Dict Text Text

-- `f"{target_path}.mcp_tmp.{uuid.uuid4().hex[:12]}"`, the digits being an argument.
unfoldable pub make_tmp_path : Text → Text → Text
make_tmp_path target digits = target ++ codes ".mcp_tmp." ++ take 12 digits

-- A hexadecimal digit as `uuid4().hex` writes it.
abbrev is_hex : ℕ → Bool
is_hex c = leb b'0' c && leb c b'9' || leb b'a' c && leb c b'f'

abbrev last : ℕ → Text → Text
last n s = drop (length s - n) s

-- The end of a name as `_TMP_SUFFIX_RE` wants it.
unfoldable pub ends_tmp : Text → Bool
ends_tmp s =
    let tail = last 21 s in
    leb 21 (length s) && take 9 tail == codes ".mcp_tmp." && all is_hex (drop 9 tail)

-- `_TMP_SUFFIX_RE.search(name)`: `$` also matches before a line feed at the very end.
unfoldable pub has_tmp_suffix : Text → Bool
has_tmp_suffix s = ends_tmp s || last 1 s == (10 ∷ []) && ends_tmp (take (length s - 1) s)

-- One name in the directory, with its modification time where the server gives it.
pub record Entry : Type 0 where
  pub filename : Text
  pub mtime : Option ℕ

-- `max_age_s > 0 and mtime is not None and (ref - mtime) < max_age_s`
unfoldable pub too_young : ℕ → ℕ → Option ℕ → Bool
too_young max_age now none = false
too_young max_age now (some m) = ltb 0 max_age && ltb now (m + max_age)

-- The loop of `_sweep_orphan_tmps_in`. `full_path` is `str(PurePosixPath(directory) / name)`, and
-- `removable` says for which paths the server grants the removal.
unfoldable pub sweep :
    (Text → Text) → (Text → Bool) → ℕ → ℕ → List Entry → Files → Files × List Text
sweep full_path removable max_age now [] files = (files, [])
sweep full_path removable max_age now (e ∷ es) files =
    let name = full_path e.filename in
    let taken =
      has_tmp_suffix e.filename && not (too_young max_age now e.mtime) && removable name in
    let (files', removed) =
      sweep full_path removable max_age now es (if taken then erase name files else files) in
    (files', if taken then name ∷ removed else removed)

pub data Fault : Type 0 where
  not_connected not_opened not_written not_renamed not_removed interrupted : Fault

-- `reply_lost`: the rename is carried out, and its call raises all the same, as it is cancelled or the
-- connection breaks.
pub data RenameAnswer : Type 0 where
  renamed unsupported failed reply_lost : RenameAnswer

-- What the sweep after a write goes by: the entries of the directory that it gets to, and whether it is
-- cancelled there. A failure of the sweep, as in listing the directory, ends it without an error.
pub record Sweeping : Type 0 where
  pub full_path : Text → Text
  pub removable : Text → Bool
  pub max_age : ℕ
  pub now : ℕ
  pub entries : List Entry
  pub is_cancelled : Bool

-- What the server answers. A write that fails has written a prefix; an `open` that fails may have created
-- the file; a request that is carried out may lose its reply.
pub record Answers : Type 0 where
  pub connects : Bool
  pub opens : Bool
  pub creates : Bool
  pub fails_after : Option ℕ
  pub posix_rename : RenameAnswer
  pub removes : Bool
  pub remove_lost : Bool
  pub renames : Bool
  pub rename_lost : Bool
  pub cleans_up : Bool
  pub sweeping : Sweeping

-- `rename` puts the file at its new path.
unfoldable pub move : Text → Text → Files → Files
move from to files = elim (lookup from files) [
  | none ↦ files
  | some content ↦ insert to content (erase from files)
]

-- The `except BaseException` clause: the temporary file goes if the server lets it.
unfoldable pub clean_up : Answers → Text → Files → Files
clean_up a tmp files = if a.cleans_up then erase tmp files else files

-- `remove` then `rename`, for servers without posix-rename. A path that is not there is no fault.
unfoldable pub fallback : Answers → Text → Text → Files → Files × Result Fault (Unit {0})
fallback a path tmp files =
    if not a.removes
    then (clean_up a tmp files, err not_removed)
    else if a.remove_lost
    then (clean_up a tmp (erase path files), err not_removed)
    else if a.renames
    then (if a.rename_lost
        then (clean_up a tmp (move tmp path (erase path files)), err not_renamed)
        else (move tmp path (erase path files), ok tt))
    else (clean_up a tmp (erase path files), err not_renamed)

unfoldable pub place : Answers → Text → Text → Files → Files × Result Fault (Unit {0})
place a path tmp files = elim a.posix_rename [
  | renamed ↦ (move tmp path files, ok tt)
  | unsupported ↦ fallback a path tmp files
  | failed ↦ (clean_up a tmp files, err not_renamed)
  | reply_lost ↦ (clean_up a tmp (move tmp path files), err not_renamed)
]

-- `_atomic_write` up to the sweep that follows a success.
unfoldable pub write_over : Answers → Text → Text → Text → Files → Files × Result Fault (Unit {0})
write_over a path tmp new_content files =
    if not a.connects
    then (files, err not_connected)
    else if not a.opens
    then (if a.creates then insert tmp [] files else files, err not_opened)
    else elim a.fails_after [
      | none ↦ place a path tmp (insert tmp new_content files)
      | some n ↦ (clean_up a tmp (insert tmp (take n new_content) files), err not_written)
    ]

-- The sweep that follows a success; the new contents are in place, whatever becomes of it.
abbrev pub sweep_after : Sweeping → Files → Files × Result Fault (Unit {0})
sweep_after w files = (
  (sweep w.full_path w.removable w.max_age w.now w.entries files).0,
  if w.is_cancelled then err interrupted else ok tt,
)

abbrev pub and_sweep : Sweeping → Files × Result Fault (Unit {0}) → Files × Result Fault (Unit {0})
and_sweep w (files, err e) = (files, err e)
and_sweep w (files, ok u) = sweep_after w files

-- `_atomic_write`
unfoldable pub atomic_write : Answers → Text → Text → Text → Files → Files × Result Fault (Unit {0})
atomic_write a path tmp new_content files =
    and_sweep a.sweeping (write_over a path tmp new_content files)
