-- ===== src/Server/Search/Tests.antt =====
-- The theorems on `handleSearch` of internal/server/server.go at concrete searches.
use filesearch.Base.{
  ℕ, ◌+◌, ◌-◌, ◌*◌, ◌≤◌, ◌<◌, ◌≡◌, ◌⊎◌, refl, Bool, true, false, Option, none, some, List, [], ◌∷◌,
  ◌++◌, Text, codes, arith,
}
use filesearch.Base.Int.{pos}
use filesearch.Base.Result.{Result, ok, err}
use filesearch.Cache
use filesearch.Cache.{Cache, new}
use filesearch.Cache.Represents.{Represents}
use filesearch.Cache.Refines.{new-Represents}
use filesearch.Server.Search.{SearchRequest, Database, page_reply, handle_search, key_of}
use filesearch.Db.Rows.{Answer}
use filesearch.Db.Query.{Statement, sanitize_query, search_sql, count_sql}
use filesearch.Server.Search.Composed.{sql_database}
use filesearch.Server.Search.Repeat.{handle_search_again}

abbrev request : SearchRequest
request = record { q = codes " invoice"; page = pos 0; filter = record { ext = []; since = [] } }

abbrev hit : Cache.Result
hit = record { path = codes "/a.txt"; snippet = codes "invoice" }

abbrev database : Database
database = record { search = λ q limit offset f. ok (hit ∷ []); count = λ q f. ok 1 }

abbrev broken : Database
broken = record { search = λ q limit offset f. err []; count = λ q f. err [] }

abbrev empty_cache : Cache
empty_cache = new (pos 2) (pos 100)

empty_Represents : Represents 2 100 empty_cache []
unfolding new
empty_Represents = new-Represents (pos 2) (pos 100)

abbrev filled : Cache
filled = Cache.set (Cache.get empty_cache 5 (key_of request)).0 6 (key_of request) (hit ∷ []) 1

missed_at : (Cache.get empty_cache 5 (key_of request)).1 ≡ none
unfolding Cache.get new filesearch.Base.lookup
missed_at = refl

filled_at : (handle_search (some database) (some empty_cache) 5 6 request).0 ≡ some filled
unfolding handle_search Cache.get filesearch.Base.lookup new
filled_at = refl

handle_search_again_example :
    (handle_search (some broken) (some filled) 7 8 request).1 ≡ page_reply true (hit ∷ []) 1 1
handle_search_again_example =
    handle_search_again empty_Represents database request 5 hit [] 1 refl missed_at refl refl broken
      filled 6 7 8 filled_at (omega arith)

-- An engine that finds one document, whatever it is asked.
abbrev one_row : Statement → Result (Answer Cache.Result)
one_row statement = ok (record { rows = ok hit ∷ []; after = none })

abbrev one_count : Statement → Result ℕ
one_count statement = ok 1

found_one :
    handle_search (some (sql_database one_row one_count)) none 5 6 request
    ≡ (none, page_reply false (hit ∷ []) 1 1, some (codes "invoice", 1))
unfolding handle_search filesearch.Db.Query.search filesearch.Db.Query.count sanitize_query
    filesearch.Db.Query.blank_keywords filesearch.Db.Query.fields search_sql count_sql
found_one = refl
