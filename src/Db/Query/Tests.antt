-- ===== src/Db/Query/Tests.antt =====
-- The queries of internal/db/db.go at concrete texts.
use filesearch.Base.{ℕ, ◌≡◌, refl, [], ◌∷◌, Text, codes, length}
use filesearch.Base.Int.{pos}
use filesearch.Base.Result.{Result, ok, wrap, ◌>>=◌}
use filesearch.Db.Rows.{Answer, scanned}
use filesearch.Db.Query.{
  Statement, search, count, SearchFilter, sanitize_query, search_sql, count_sql, with_ext,
  ext_param, text, number, blank_keywords, fields,
}
use filesearch.Db.Query.Words.{HasNoKeyword}
use filesearch.Db.Query.Sanitized.{ArePlain, sanitize_query_again}
use filesearch.Db.Query.Statements.{marks, with_any_ext, search-count_bound}

abbrev typed : Text
typed = codes " \"annual  report\" AND (2024*) "

abbrev sent : Text
sent = codes "annual report 2024"

typed-sent : sanitize_query typed ≡ ok sent
unfolding sanitize_query blank_keywords fields
typed-sent = refl

sanitize_query_again_example :
    (sanitize_query sent ≡ ok sent) × ArePlain sent × HasNoKeyword [] sent
sanitize_query_again_example = sanitize_query_again typed sent typed-sent

-- What is left may still mean something to FTS5.
operators_left : sanitize_query (codes "-a NEAR b+c") ≡ ok (codes "-a NEAR b+c")
unfolding sanitize_query blank_keywords fields
operators_left = refl

abbrev pdf_today : SearchFilter
pdf_today = record { ext = codes ".pdf"; since = codes "today" }

search-count_bound_example :
    (s c : Statement) × ((query : Statement → Result (Answer Text))
      → search query typed (pos 10) (pos 20) pdf_today
        ≡ (wrap (codes "db search") (query s) >>= scanned (wrap (codes "db scan"))))
    × ((query : Statement → Result ℕ) → count query typed pdf_today ≡ query c)
    × (s.args
        ≡ text sent ∷ with_ext (ext_param pdf_today.ext) (number (pos 10) ∷ number (pos 20) ∷ []))
    × (c.args ≡ text sent ∷ with_ext (ext_param pdf_today.ext) [])
    × (marks s.sql ≡ length s.args)
    × (marks c.sql ≡ length c.args)
    × (s.sql ≡ (search_sql [] (pos 0) (pos 0) (with_any_ext pdf_today)).sql)
    × (c.sql ≡ (count_sql [] (with_any_ext pdf_today)).sql)
search-count_bound_example = search-count_bound typed sent (pos 10) (pos 20) pdf_today typed-sent
