-- ===== src/Tests/AuditRuns.antt =====
-- portal_mcp_server/audit.py on two entries.
use portal_mcp_server.Base.{◌≡◌, codes, [], ◌∷◌, none}
use portal_mcp_server.Audit.{Entry, make_entry}
use portal_mcp_server.Audit.Ring.{push_all, newest, push_all_lem}

abbrev first : Entry
first = make_entry (codes "t") (codes "agent") (codes "web01") (codes "exec") (codes "ls") none

abbrev second : Entry
second = make_entry (codes "u") (codes "agent") (codes "web02") (codes "exec") (codes "id") none

push_all_lem_example : push_all [] (first ∷ second ∷ []) ≡ newest (first ∷ second ∷ [])
push_all_lem_example = push_all_lem (first ∷ second ∷ [])
