-- ===== src/Tests/WriteRuns.antt =====
-- `_atomic_write` and the sweep of portal_mcp_server/remote_text_editor.py.
use portal_mcp_server.Base.{
  ◌⊎◌, ◌≡◌, refl, ◌≢◌, Text, codes, text_eq, true, false, List, [], ◌∷◌, none, some, text_has_eq,
}
use portal_mcp_server.Base.Dicts.{lookup}
use portal_mcp_server.Editor.Write.{
  Files, Answers, Sweeping, sweep, write_over, has_tmp_suffix, ends_tmp, renamed, unsupported,
  atomic_write, place, Entry,
}
use portal_mcp_server.Editor.Write.Sweep.{SweptAway}
use portal_mcp_server.Editor.Write.Atomic.{atomic_write-ok, atomic_write-failed, atomic_write_loses}

abbrev disk : Files
disk = (codes "f", codes "old") ∷ (codes "g", codes "x") ∷ []

abbrev path : Text
path = codes "f"

abbrev digits : Text
digits = codes "0123456789ab"

abbrev tmp : Text
tmp = codes "f.mcp_tmp.0123456789ab"

path-ne-tmp : path ≢ tmp
path-ne-tmp e = cc

abbrev joined : Text → Text
joined name = name

abbrev quiet : Sweeping
quiet = record {
  full_path = joined;
  removable = λ name. true;
  max_age = 5;
  now = 12;
  entries = record { filename = codes "g"; mtime = some 10 } ∷ [];
  is_cancelled = false;
}

abbrev well : Answers
well = record {
  connects = true;
  opens = true;
  creates = false;
  fails_after = none;
  posix_rename = renamed;
  removes = true;
  remove_lost = false;
  renames = true;
  rename_lost = false;
  cleans_up = true;
  sweeping = quiet;
}

abbrev torn : Answers
torn = record well { fails_after = some 1 }

abbrev old_server : Answers
old_server = record well { posix_rename = unsupported; renames = false }

atomic_write-ok_example :
    (lookup path (atomic_write well path tmp (codes "new") disk).0 ≡ some (codes "new"))
    ⊎ SweptAway quiet path (lookup path (atomic_write well path tmp (codes "new") disk).0)
unfolding atomic_write write_over place sweep has_tmp_suffix ends_tmp text_eq
atomic_write-ok_example = atomic_write-ok well path tmp (codes "new") disk path-ne-tmp path refl

atomic_write-failed_example :
    let content = lookup path (atomic_write torn path tmp (codes "new") disk).0 in
    ((content ≡ some (codes "old")) ⊎ ((path ≡ path) × (content ≡ some (codes "new"))))
    ⊎ SweptAway quiet path content
unfolding atomic_write write_over text_eq lookup
atomic_write-failed_example =
    atomic_write-failed torn path tmp (codes "new") disk path-ne-tmp path (λ e. cc) path-ne-tmp
      (λ e. cc)

atomic_write_loses_example :
    let files = (atomic_write old_server path tmp (codes "new") disk).0 in
    (lookup path files ≡ none) × (lookup tmp files ≡ none)
atomic_write_loses_example =
    atomic_write_loses old_server path tmp (codes "new") disk path-ne-tmp refl refl refl refl refl
      refl refl

abbrev entries : List Entry
entries =
    record { filename = tmp; mtime = some 10 }
    ∷ record { filename = codes "g"; mtime = some 10 }
    ∷ []
