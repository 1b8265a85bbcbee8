-- ===== src/Tests/SafetyRuns.antt =====
-- portal_mcp_server/safety.py on a path and an environment.
use portal_mcp_server.Base.{◌≡◌, ◌≢◌, refl, Text, ◌++◌, ok, codes, [], ◌∷◌, Option, none, some}
use portal_mcp_server.Base.Dicts.{Dict}
use portal_mcp_server.Safety.{check_chars, validate_remote_path}
use portal_mcp_server.Safety.Quote.{
  escape_quotes, shlex_quote, quote_shell, build_cwd_prefix, bare, read_word,
  build_cwd_prefix-reads,
}

abbrev path : Text
path = codes "/tmp/a b"

abbrev env : Dict Text (Option Text)
env = (codes "HOME", some (codes "/root")) ∷ (codes "UNSET", none) ∷ []

abbrev cwd : Text
cwd = codes "/tmp/it's here"

abbrev cd_command : Text
cd_command = codes "cd '/tmp/it'\"'\"'s here' && ls"

cd_made : build_cwd_prefix (some cwd) (codes "ls") ≡ ok cd_command
unfolding build_cwd_prefix quote_shell shlex_quote escape_quotes validate_remote_path check_chars
cd_made = refl

cwd_given : cwd ≢ []
cwd_given e = cc

build_cwd_prefix-reads_example :
    (quoted : Text) × (cd_command ≡ codes "cd " ++ (quoted ++ (codes " && " ++ codes "ls")))
    × (read_word bare (quoted ++ (codes " && " ++ codes "ls"))
        ≡ some (cwd, codes " && " ++ codes "ls"))
build_cwd_prefix-reads_example =
    build_cwd_prefix-reads cwd (codes "ls") cd_command cwd_given cd_made
