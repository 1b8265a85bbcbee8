-- ===== src/Tests/JobRuns.antt =====
-- portal_mcp_server/job_manager.py on a chunk that ends within a character; ASCII stands for UTF-8.
use portal_mcp_server.Base.{
  ◌+◌, ℕ, ◌≤◌, ◌≡◌, refl, Text, codes, true, false, List, [], ◌∷◌, Option, none, some, all, ltb,
  arith, pos, if◌then◌else◌,
}
use portal_mcp_server.Base.Dicts.{insert}
use portal_mcp_server.Jobs.{
  running, finished, unmarked, marked, is_terminal, classify, decode_incremental, try_trims,
}
use portal_mcp_server.Jobs.Output.{poll_chunk}
use portal_mcp_server.Jobs.Table.{
  JobRecord, live_count, new_record, poll_record, may_signal, Manager, reserve, put_job, reserves,
  records, Reach, start, step, loaded, revivals,
}
use portal_mcp_server.Jobs.Admission.{live_bounded, poll_record_revives}

abbrev ascii : List ℕ → Option Text
ascii bytes = if all (λ b. ltb b 128) bytes then some bytes else none

abbrev escape : List ℕ → Text
escape bytes = bytes

abbrev chunk : List ℕ
chunk = 97 ∷ 98 ∷ 195 ∷ []

trimmed : decode_incremental ascii escape chunk ≡ (97 ∷ 98 ∷ [], 2)
unfolding decode_incremental try_trims
trimmed = refl

-- The byte that does not decode is shown escaped once the job has ended, and deferred before that.
flushed : poll_chunk ascii escape finished (some 3) 0 chunk ≡ (escape chunk, 3)
unfolding poll_chunk decode_incremental try_trims
flushed = refl

deferred : poll_chunk ascii escape running (some 3) 0 chunk ≡ (97 ∷ 98 ∷ [], 2)
unfolding poll_chunk decode_incremental try_trims
deferred = refl

abbrev record_a : JobRecord
record_a = new_record (codes "host") (codes "ls") (codes "/tmp/o") (codes "/tmp/m") 7 100

abbrev reserved : Manager
reserved = record { jobs = []; pending = 1; spawning = 1; recorded = 0 }

abbrev recorded_a : Manager
recorded_a = put_job (codes "a") record_a 0 reserved

submitted : Reach 1 3600 (loaded []) recorded_a
unfolding reserve
submitted = step (step start (reserves refl)) (
    records (codes "a") (codes "host") (codes "ls") (codes "/tmp/o") (codes "/tmp/m") 7 100 0 refl
      refl)

live_bounded_example : live_count recorded_a.jobs ≤ 1 + revivals submitted
live_bounded_example = live_bounded 1 3600 [] (omega arith) submitted

-- A second submission is refused.
refused : reserve 1 recorded_a ≡ none
unfolding reserve insert
refused = refl

abbrev ended : JobRecord
ended = poll_record 200 (marked (some (pos 0))) none 0 record_a

ended_terminal : is_terminal ended.status ≡ true
unfolding poll_record classify
ended_terminal = refl

poll_record_revives_example :
    (may_signal ended ≡ false)
    × ((poll_record 300 unmarked (some (codes "yes")) 0 ended).status ≡ running)
    × (may_signal (poll_record 300 unmarked (some (codes "yes")) 0 ended) ≡ true)
poll_record_revives_example = poll_record_revives 300 0 ended ended_terminal
