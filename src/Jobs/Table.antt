-- ===== src/Jobs/Table.antt =====
-- The job table of portal_mcp_server/job_manager.py and what `submit`, `poll`, `cancel` and the sweep do
-- to it. Times are whole numbers of some unit; what the remote host answers is an argument.
use portal_mcp_server.Base.{
  ℕ, ◌+◌, ◌-◌, ◌≡◌, ℤ, Text, text_has_eq, ◌==◌, Bool, true, false, not, ◌&&◌, Option, none, some,
  [], ◌∷◌, ltb, leb, suc, if◌then◌else◌,
}
use portal_mcp_server.Base.Dicts.{Dict, lookup, insert, retain}
use portal_mcp_server.Jobs.{Status, running, cancelled, is_terminal, Meta, classify}

-- `JobRecord`
pub record JobRecord : Type 0 where
  pub host : Text
  pub remote_pid : ℕ
  pub out_path : Text
  pub meta_path : Text
  pub command : Text
  pub started_at : ℕ
  pub status : Status
  pub exit_code : Option ℤ
  pub finished_at : Option ℕ
  pub last_offset : ℕ
  pub cancel_requested : Bool

abbrev pub Jobs : Type 0
Jobs = Dict Text JobRecord

-- `sum(1 for r in self._jobs.values() if r.status not in _TERMINAL)`
abbrev pub live_count : Jobs → ℕ
live_count [] = 0
live_count ((id, r) ∷ jobs) = (if is_terminal r.status then 0 else 1) + live_count jobs

-- A record is changed where it is.
unfoldable pub update_job : Text → (JobRecord → JobRecord) → Jobs → Jobs
update_job id f [] = []
update_job id f ((j, r) ∷ jobs) = if j == id then (j, f r) ∷ jobs else (j, r) ∷ update_job id f jobs

-- The record that a submitted job gets.
abbrev pub new_record : Text → Text → Text → Text → ℕ → ℕ → JobRecord
new_record host command out_path meta_path pid now = record {
  host = host;
  remote_pid = pid;
  out_path = out_path;
  meta_path = meta_path;
  command = command;
  started_at = now;
  status = running;
  exit_code = none;
  finished_at = none;
  last_offset = 0;
  cancel_requested = false;
}

-- `rec.finished_at or now`, where it has none.
abbrev stamp : ℕ → Option ℕ → Option ℕ
stamp now none = some now
stamp now (some t) = some t

-- What `poll` writes into the record.
unfoldable pub poll_record : ℕ → Meta → Option Text → ℕ → JobRecord → JobRecord
poll_record now meta alive new_offset r =
    let (status, exit_code) = classify r.cancel_requested r.exit_code meta alive in
    record r {
      status = status;
      exit_code = exit_code;
      last_offset = new_offset;
      finished_at = if is_terminal status then stamp now r.finished_at else r.finished_at;
    }

-- Whether `cancel` sends a signal.
unfoldable pub may_signal : JobRecord → Bool
may_signal r = not (is_terminal r.status)

-- What `cancel` writes into the record after it has sent the signal and looked again.
unfoldable pub cancel_record : ℕ → Bool → JobRecord → JobRecord
cancel_record now alive_after r =
    if not alive_after && not (is_terminal r.status)
    then record r {
      cancel_requested = true;
      status = cancelled;
      finished_at = stamp now r.finished_at;
    }
    else record r { cancel_requested = true }

-- The test of `_sweep_expired`.
abbrev pub is_expired_job : ℕ → ℕ → JobRecord → Bool
is_expired_job ttl now r =
    is_terminal r.status && elim r.finished_at [ none ↦ false | some t ↦ ltb (t + ttl) now ]

-- `_sweep_expired`, without the remote clean-up.
unfoldable pub sweep_expired : ℕ → ℕ → Jobs → Jobs
sweep_expired ttl now jobs = retain (λ id r. not (is_expired_job ttl now r)) jobs

-- The jobs, `_pending`, and how many calls of `submit` hold a reservation: those that are still
-- spawning, and those whose job is in the table.
pub record Manager : Type 0 where
  pub jobs : Jobs
  pub pending : ℕ
  pub spawning : ℕ
  pub recorded : ℕ

-- The check under the lock at the start of `submit`; `none` is the refusal.
unfoldable pub reserve : ℕ → Manager → Option Manager
reserve max_live m =
    if leb max_live (live_count m.jobs + m.pending)
    then none
    else some (record m { pending = m.pending + 1; spawning = m.spawning + 1 })

-- The job has started and is put into the table.
abbrev pub put_job : Text → JobRecord → ℕ → Manager → Manager
put_job id r spawning m = record m {
  jobs = insert id r m.jobs;
  spawning = spawning;
  recorded = m.recorded + 1;
}

-- The steps that change the table, in any order.
pub data JobStep (max_live ttl : ℕ) (m : Manager) (u : Manager) : Type 0 where
  sweeps :
      (now : ℕ) → u ≡ record m { jobs = sweep_expired ttl now m.jobs } → JobStep max_live ttl m u
  reserves : reserve max_live m ≡ some u → JobStep max_live ttl m u
  records :
      (id host command out_path meta_path : Text) (pid now spawning : ℕ)
      → m.spawning ≡ suc spawning
      → u ≡ put_job id (new_record host command out_path meta_path pid now) spawning m
      → JobStep max_live ttl m u
  spawn_fails :
      (spawning : ℕ)
      → m.spawning ≡ suc spawning
      → u ≡ record m { pending = m.pending - 1; spawning = spawning }
      → JobStep max_live ttl m u
  returns :
      (recorded : ℕ)
      → m.recorded ≡ suc recorded
      → u ≡ record m { pending = m.pending - 1; recorded = recorded }
      → JobStep max_live ttl m u
  polls :
      (id : Text) (r : JobRecord) (meta : Meta) (alive : Option Text) (now new_offset : ℕ)
      → lookup id m.jobs ≡ some r
      → u ≡ record m { jobs = update_job id (poll_record now meta alive new_offset) m.jobs }
      → JobStep max_live ttl m u
  cancels :
      (id : Text) (now : ℕ) (alive_after : Bool)
      → u ≡ record m { jobs = update_job id (cancel_record now alive_after) m.jobs }
      → JobStep max_live ttl m u

pub data Reach (max_live ttl : ℕ) (m : Manager) : Manager → Type 0 where
  start : Reach max_live ttl m m
  step :
      {t u : Manager} → Reach max_live ttl m t → JobStep max_live ttl t u → Reach max_live ttl m u

-- Whether a change makes a job that has ended live again.
abbrev pub revives : JobRecord → JobRecord → Bool
revives before after = is_terminal before.status && not (is_terminal after.status)

-- The polls of a run that find a job running that had ended.
unfoldable pub revivals : {max_live ttl : ℕ} {m u : Manager} → Reach max_live ttl m u → ℕ
revivals start = 0
revivals (step r (sweeps now e)) = revivals r
revivals (step r (reserves e)) = revivals r
revivals (step r (records id host command out_path meta_path pid now spawning s e)) = revivals r
revivals (step r (spawn_fails spawning s e)) = revivals r
revivals (step r (returns recorded s e)) = revivals r
revivals (step r (polls id rec meta alive now new_offset found e)) =
    revivals r + (if revives rec (poll_record now meta alive new_offset rec) then 1 else 0)
revivals (step r (cancels id now alive_after e)) = revivals r

-- A manager that has just loaded its table.
abbrev pub loaded : Jobs → Manager
loaded jobs = record { jobs = jobs; pending = 0; spawning = 0; recorded = 0 }
