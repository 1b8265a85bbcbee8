-- ===== src/Tests/SearchRuns.antt =====
-- portal_mcp_server/remote_search.py on lines as grep prints them.
use portal_mcp_server.Base.{
  ℕ, ◌≡◌, refl, text_eq, codes, lstrip, strip, true, false, some, List, [], ◌∷◌, arith,
}
use portal_mcp_server.Search.{
  page, relativize, counted_files, read_int, split_colon, rsplit_colon, number_dash, context_row,
  match_row, ContentRow, read_row, glob_page,
}
use portal_mcp_server.Search.Paging.{collect, collect_lem}

abbrev files : List ℕ
files = 10 ∷ 11 ∷ 12 ∷ 13 ∷ 14 ∷ []

collect_lem_example : collect files 2 (omega arith) 6 0 ≡ some files
collect_lem_example = collect_lem files 2 (omega arith) 6 0 (omega arith) (omega arith)

last_page : page files 4 2 ≡ record { rows = 14 ∷ []; total = 5; truncated = false }
unfolding page
last_page = refl

twelve : read_int (codes "12") ≡ some 12
unfolding read_int strip lstrip
twelve = refl

abbrev row : ContentRow
row = record { file = codes "a.py"; line = 12; text = codes "x: 1"; is_context = false }

context :
    read_row true (codes ".") (codes "./a.py-13-y")
    ≡ some (record { file = codes "a.py"; line = 13; text = codes "y"; is_context = true })
unfolding read_row match_row split_colon context_row number_dash relativize text_eq
context = refl

-- The text of line 13 is `at 10:30:00`; the row is taken for a match in line 30 of another file.
context_with_colons :
    read_row true (codes ".") (codes "./a.py-13-at 10:30:00")
    ≡ some
        (record { file = codes "a.py-13-at 10"; line = 30; text = codes "00"; is_context = false })
unfolding read_row match_row split_colon context_row number_dash relativize text_eq read_int strip
    lstrip
context_with_colons = refl

counted :
    counted_files false (codes ".") (codes "./a:2" ∷ codes "./b:0" ∷ codes "none" ∷ [])
    ≡ (codes "a", 2) ∷ []
unfolding counted_files rsplit_colon relativize text_eq read_int strip lstrip
counted = refl

globbed :
    glob_page true (codes "./.env" ∷ codes " " ∷ codes "b" ∷ [])
    ≡ record { rows = codes "b" ∷ codes ".env" ∷ []; total = 2; truncated = false }
unfolding glob_page strip lstrip
globbed = refl
