-- ===== src/Jobs/Admission.antt =====
-- How many jobs of portal_mcp_server/job_manager.py are live.
use portal_mcp_server.Base.{
  ℕ, ◌+◌, ◌≤◌, ◌≡◌, refl, subst, codes, inl, inr, Text, text_eq, text_has_eq, Bool, true, false,
  not, some, [], ◌∷◌, leb, arith, Bool-cases, if◌then◌else◌,
}
use portal_mcp_server.Base.Dicts.{lookup, insert, retain}
use portal_mcp_server.Jobs.{running, unmarked, is_terminal, classify}
use portal_mcp_server.Jobs.Table.{
  JobRecord, Jobs, live_count, update_job, new_record, poll_record, may_signal, cancel_record,
  is_expired_job, sweep_expired, Manager, reserve, sweeps, reserves, records, spawn_fails, returns,
  polls, cancels, Reach, start, step, loaded, revives, revivals,
}

live_count-retain :
    (p : Text → JobRecord → Bool) (jobs : Jobs) → live_count (retain p jobs) ≤ live_count jobs
unfolding retain
live_count-retain p [] = omega arith
live_count-retain p ((id, r) ∷ jobs) = ground (arith, live_count-retain p jobs)

live_count-insert :
    (id : Text) (r : JobRecord) (jobs : Jobs) → live_count (insert id r jobs) ≤ live_count jobs + 1
unfolding insert
live_count-insert id r [] = ground arith
live_count-insert id r ((j, s) ∷ jobs) = ground (arith, live_count-insert id r jobs)

-- A change makes one more job live if it revives the record under the key, and else no more.
live_count-update_job :
    (id : Text) (f : JobRecord → JobRecord) (n : ℕ) (jobs : Jobs)
    → ((r : JobRecord) → lookup id jobs ≡ some r → (if revives r (f r) then 1 else 0) ≤ n)
    → live_count (update_job id f jobs) ≤ live_count jobs + n
unfolding update_job lookup
live_count-update_job id f n [] bound = omega arith
live_count-update_job id f n ((j, r) ∷ jobs) bound = elim (Bool-cases (text_eq j id)) [
  | inl e ↦
      let k : (if revives r (f r) then 1 else 0) ≤ n = bound r (rw e refl) in
      rw e (ground (arith, k))
  | inr e ↦
      let ih = live_count-update_job id f n jobs (λ s found. bound s (rw e found)) in
      rw e (omega (arith, ih))
]

some-inj : {a b : Manager} → some a ≡ some b → a ≡ b
some-inj h = cc

cancel_record-ended :
    (now : ℕ) (alive_after : Bool) (r : JobRecord)
    → (if revives r (cancel_record now alive_after r) then 1 else 0) ≤ 0
unfolding cancel_record
cancel_record-ended now alive_after r = ground arith

same_bound :
    (r s : JobRecord) (f : JobRecord → JobRecord)
    → r ≡ s
    → (if revives s (f s) then 1 else 0) ≤ (if revives r (f r) then 1 else 0)
same_bound r s f e = rw e (omega arith)

module _ (max_live ttl : ℕ) where
  -- The reservations are all accounted for, and there is room for those that are spawning, but for `n`
  -- jobs.
  pub record Admitted (n : ℕ) (m : Manager) : Type 0 where
    pub accounted : m.pending ≡ m.spawning + m.recorded
    pub room : live_count m.jobs + m.spawning ≤ max_live + n

  reserve-Admitted :
      (n : ℕ) (m u : Manager) → reserve max_live m ≡ some u → Admitted n m → Admitted n u
  unfolding reserve
  reserve-Admitted n m u e v = elim (Bool-cases (leb max_live (live_count m.jobs + m.pending))) [
    | inl full ↦ cc (rw (reserve, full) at e)
    | inr free ↦
        let w : Admitted n (record m { pending = m.pending + 1; spawning = m.spawning + 1 }) =
          record {
            accounted = omega (arith, v.accounted);
            room = ground (arith, free, v.accounted);
          } in
        subst (Admitted n) (some-inj (rw (reserve, free) at e)) w
  ]

  Reach-Admitted :
      {m u : Manager} → Admitted 0 m → (r : Reach max_live ttl m u) → Admitted (revivals r) u
  unfolding revivals sweep_expired
  Reach-Admitted v start = v
  Reach-Admitted v (step {t} r (sweeps now e)) =
      let w = Reach-Admitted v r in
      rw e (record {
        accounted = w.accounted;
        room =
            omega
              (arith, w.room, live_count-retain (λ id r. not (is_expired_job ttl now r)) t.jobs);
      })
  Reach-Admitted v (step {t} {u} r (reserves e)) =
      reserve-Admitted (revivals r) t u e (Reach-Admitted v r)
  Reach-Admitted v (step {t} r (records id host command out_path meta_path pid now spawning s e)) =
      let w = Reach-Admitted v r in
      rw e (record {
        accounted = omega (arith, w.accounted, s);
        room = omega (
          arith,
          w.room,
          s,
          live_count-insert id (new_record host command out_path meta_path pid now) t.jobs,
        );
      })
  Reach-Admitted v (step r (spawn_fails spawning s e)) =
      let w = Reach-Admitted v r in
      rw e (record { accounted = omega (arith, w.accounted, s); room = omega (arith, w.room, s) })
  Reach-Admitted v (step r (returns recorded s e)) =
      let w = Reach-Admitted v r in
      rw e (record { accounted = omega (arith, w.accounted, s); room = w.room })
  Reach-Admitted v (step {t} r (polls id rec meta alive now new_offset found e)) =
      let w = Reach-Admitted v r in
      let f = poll_record now meta alive new_offset in
      let n : ℕ = if revives rec (f rec) then 1 else 0 in
      let bound : (s : JobRecord)
          → lookup id t.jobs ≡ some s
          → (if revives s (f s) then 1 else 0) ≤ n =
        λ s found_s. same_bound rec s f (cc (found, found_s)) in
      rw e (record {
        accounted = w.accounted;
        room = omega (arith, w.room, live_count-update_job id f n t.jobs bound);
      })
  Reach-Admitted v (step {t} r (cancels id now alive_after e)) =
      let w = Reach-Admitted v r in
      let f = cancel_record now alive_after in
      rw e (record {
        accounted = w.accounted;
        room = omega (
          arith,
          w.room,
          live_count-update_job id f 0 t.jobs (λ s found. cancel_record-ended now alive_after s),
        );
      })

  -- If the table is loaded with at most `max_live` live jobs, there are never more than that many and one
  -- for each poll that has found an ended job running, however calls of `submit`, `poll` and `cancel` and
  -- sweeps interleave.
  pub live_bounded :
      (jobs : Jobs) {u : Manager}
      → live_count jobs ≤ max_live
      → (r : Reach max_live ttl (loaded jobs) u) → live_count u.jobs ≤ max_live + revivals r
  live_bounded jobs fits r =
      omega
        (arith, (Reach-Admitted (record { accounted = omega arith; room = omega arith }) r).room)

-- Such polls exist: an ended job whose process identifier is in use again, and whose end left no
-- mark, is running again after a poll, and a cancel would then signal that process.
pub poll_record_revives :
    (now new_offset : ℕ) (r : JobRecord)
    → is_terminal r.status ≡ true
    → let polled = poll_record now unmarked (some (codes "yes")) new_offset r in
      (may_signal r ≡ false) × (polled.status ≡ running) × (may_signal polled ≡ true)
unfolding poll_record may_signal classify text_eq
poll_record_revives now new_offset r ended = ground (arith, ended)
