-- ===== src/Tests/SecretRuns.antt =====
-- portal_mcp_server/secrets_store.py on an output that has two secrets.
use portal_mcp_server.Base.{
  ◌≡◌, refl, Text, text_eq, codes, pos, List, [], ◌∷◌, none, some, ok, err,
}
use portal_mcp_server.Base.Dicts.{insert, lookup, erase}
use portal_mcp_server.Secrets.{
  exited, empty_output, strip_newline, exec_secret_command, replace_from, redact, env_var_name,
  cache_value, get_cached, resolve_secret,
}

abbrev output : Text
output = codes "token=abcab abc"

abbrev values : List Text
values = codes "ab" ∷ codes "abc" ∷ codes "" ∷ codes "ab" ∷ []

masked : redact output values ≡ codes "token=****** ***"
unfolding redact replace_from text_eq
masked = refl

named : env_var_name (codes "9github-token") ≡ codes "_9GITHUB_TOKEN"
unfolding env_var_name
named = refl

-- An expired value is dropped, and the credential agent is asked.
stale_asks :
    resolve_secret {E = Text}
      (codes "k")
      50
      (cache_value (codes "k") (codes "old") 10 20 [])
      (some (codes "new"))
      none
      (λ c. err c)
    ≡ ([], ok (some (codes "new")))
unfolding resolve_secret get_cached insert lookup erase text_eq
stale_asks = refl

-- One line end is stripped, and no more.
printed :
    exec_secret_command (λ bytes. some bytes) (exited (pos 0) (codes "pw \n")) ≡ ok (codes "pw ")
unfolding exec_secret_command strip_newline text_eq
printed = refl

printed_nothing :
    exec_secret_command (λ bytes. some bytes) (exited (pos 0) (13 ∷ 10 ∷ [])) ≡ err empty_output
unfolding exec_secret_command strip_newline text_eq
printed_nothing = refl
