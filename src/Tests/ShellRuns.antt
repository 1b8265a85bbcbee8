-- ===== src/Tests/ShellRuns.antt =====
-- portal_mcp_server/remote_bash.py on a session that dies, and on a list of three commands.
use portal_mcp_server.Base.{
  ◌≡◌, ◌≢◌, refl, pos, Text, text_eq, codes, true, false, none, some, List, [], ◌∷◌, ok, err,
  if◌then◌else◌,
}
use portal_mcp_server.Session.{CommandEnd, completed, session_dead}
use portal_mcp_server.Shell.{shell_result, remote_bash_many, returned, remote_bash}
use portal_mcp_server.Shell.Batch.{RunsUntilStop, remote_bash_many_lem}
use portal_mcp_server.Shell.Retry.{remote_bash_recovers}

abbrev run : Text → CommandEnd
run sid = if text_eq sid (codes "new") then completed (codes "hi") (pos 0) false else session_dead

alive : run (codes "new") ≢ session_dead
unfolding text_eq
alive e = cc

died : run (codes "old") ≡ session_dead
unfolding text_eq
died = refl

remote_bash_recovers_example :
    remote_bash {E = Text}
      (codes "ls")
      run
      (some (codes "old"))
      (λ s. true)
      (err [])
      (ok (codes "new"))
    ≡ (
      returned (codes "new") (shell_result [] (codes "ls") (run (codes "new"))),
      some (codes "new"),
    )
remote_bash_recovers_example =
    remote_bash_recovers (codes "ls") run (codes "old") (codes "new") (λ s. true) (err []) refl died
      alive

abbrev cmds : List (Text × CommandEnd)
cmds =
    (codes "a", completed [] (pos 0) false)
    ∷ (codes "b", completed [] (pos 1) false)
    ∷ (codes "c", completed [] (pos 0) false)
    ∷ []

stopped : (remote_bash_many [] true cmds).1 ≡ some (codes "b")
unfolding remote_bash_many
stopped = refl

went_on : (remote_bash_many [] false cmds).1 ≡ none
unfolding remote_bash_many
went_on = refl

remote_bash_many_lem_example : RunsUntilStop [] true cmds
remote_bash_many_lem_example = remote_bash_many_lem [] true cmds
