-- ===== src/Jobs/Persist.antt =====
-- How the files that keep the job table of portal_mcp_server/job_manager.py across restarts are
-- taken in. Each file comes as what its JSON gives; a record that does not fit the schema is `none`.
use portal_mcp_server.Base.{
  ℕ, Text, text_has_eq, Bool, false, not, ◌&&◌, ◌||◌, Option, none, some, List, [], ◌∷◌, nat_beq,
  if◌then◌else◌,
}
use portal_mcp_server.Base.Dicts.{insert}
use portal_mcp_server.Jobs.Table.{JobRecord, Jobs}

-- A file of the state directory: the process identifier that its name is, and its table, where it can
-- be read.
pub record StateFile : Type 0 where
  pub pid : Option ℕ
  pub table : Option (List (Text × Option JobRecord))

-- The loop of `_load_file`.
unfoldable pub load_records : List (Text × Option JobRecord) → Jobs → Jobs
load_records [] jobs = jobs
load_records ((id, none) ∷ rs) jobs = load_records rs jobs
load_records ((id, some r) ∷ rs) jobs = load_records rs (insert id r jobs)

-- `_load_file`
unfoldable pub load_file : StateFile → Jobs → Jobs
load_file f jobs = elim f.table [ none ↦ jobs | some rs ↦ load_records rs jobs ]

-- Whether `_adopt_dead_siblings` takes a file; `alive` is `_pid_alive`.
abbrev pub is_dead_sibling : ℕ → (ℕ → Bool) → StateFile → Bool
is_dead_sibling my_pid alive f = elim f.pid [
  | none ↦ false
  | some p ↦ not (nat_beq p my_pid || alive p)
]

-- `_adopt_dead_siblings`: the table and the files that are left; `unlinks` is whether a file can be
-- removed.
unfoldable pub adopt_dead_siblings :
    ℕ → (ℕ → Bool) → (StateFile → Bool) → List StateFile → Jobs → Jobs × List StateFile
adopt_dead_siblings my_pid alive unlinks [] jobs = (jobs, [])
adopt_dead_siblings my_pid alive unlinks (f ∷ fs) jobs =
    let adopt = is_dead_sibling my_pid alive f in
    let (jobs', left) =
      adopt_dead_siblings my_pid alive unlinks fs (if adopt then load_file f jobs else jobs) in
    (jobs', if adopt && unlinks f then left else f ∷ left)
