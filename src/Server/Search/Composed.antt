-- ===== src/Server/Search/Composed.antt =====
-- `handleSearch` of internal/server/server.go on the database of internal/db/db.go: the handler, the
-- cleaning of the query and the statements, down to what the engine answers.
use filesearch.Base.{
  ℕ, ◌-◌, ◌*◌, ◌%◌, ◌^◌, false, ltb, Option, none, some, List, Text, codes, ◌∷◌, if◌then◌else◌,
}
use filesearch.Base.Int.{ℤ, pos, negsuc}
use filesearch.Base.Result.{Error, Result, ok, err, wrap}
use filesearch.Cache
use filesearch.Cache.{Cache}
use filesearch.Db.Rows.{Answer, scanned}
use filesearch.Db.Query
use filesearch.Db.Query.{Statement, search_sql, count_sql}
use filesearch.Server.Search.{Database, Reply, failed, page_reply}

-- The int64 of its bits.
abbrev pub int64_of : ℕ → ℤ
int64_of n = if ltb n (2 ^ 63) then pos n else negsuc (2 ^ 64 - 1 - n)

module _ (query : Statement → Result (Answer Cache.Result))
    (query_count : Statement → Result ℕ) where
  -- The database that the handler uses.
  abbrev pub sql_database : Database
  sql_database = record {
    search = λ q limit offset f. Query.search query q (pos limit) (int64_of offset) f;
    count = λ q f. Query.count query_count q f;
  }

  abbrev Handled : Type 0
  Handled = Option Cache × Reply × Option (Text × ℕ)

  abbrev refused_search : Error → Handled
  refused_search e = (none, failed (codes "search failed: ") e, none)

  -- What the handler should do, by what the engine answers to each statement in turn.
  abbrev by_count : Text → ℕ → List Cache.Result → Result ℕ → Handled
  by_count q page results (err e) = (none, failed (codes "count failed: ") e, none)
  by_count q page results (ok total) = (none, page_reply false results total page, some (q, total))

  abbrev by_rows : Text → ℕ → Result ℕ → Result (List Cache.Result) → Handled
  by_rows q page counting (err e) = refused_search e
  by_rows q page counting (ok results) = by_count q page results counting

  abbrev by_answer : Text → ℕ → Result ℕ → Result (Answer Cache.Result) → Handled
  by_answer q page counting (err e) = refused_search (codes "db search" ∷ e)
  by_answer q page counting (ok answer) =
      by_rows q page counting (scanned (wrap (codes "db scan")) answer)

  abbrev pub by_query : Text → ℕ → Query.SearchFilter → Result Text → Handled
  by_query q page f (err e) = refused_search (codes "invalid query" ∷ e)
  by_query q page f (ok safe) =
      by_answer q page (query_count (count_sql safe f))
        (query (search_sql safe (pos 10) (int64_of ((page - 1) * 10 % 2 ^ 64)) f))
