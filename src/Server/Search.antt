-- ===== src/Server/Search.antt =====
-- `handleSearch` of internal/server/server.go over the cache of `Cache`. The database is what its
-- `Search` and `Count` return in the call; `none` is a server without one. The reply and the entry
-- of the audit log are results.
pub mod Paging
pub mod Repeat
pub mod Composed
mod Tests
use filesearch.Base.{
  ℕ, zero, suc, ◌+◌, ◌-◌, ◌*◌, ◌/◌, ◌%◌, ◌^◌, Bool, true, false, not, ◌&&◌, Option, none, some,
  List, [], ◌∷◌, ◌++◌, Text, codes, is_empty, ltb, ◌==◌, trim_space, decimal, if◌then◌else◌,
}
use filesearch.Base.Int.{ℤ, pos, negsuc}
use filesearch.Base.Result.{Error, Result, ok, err}
use filesearch.Db.Query.{SearchFilter}
use filesearch.Cache
use filesearch.Cache.{Cache}

abbrev pub page_size : ℕ
page_size = 10

-- The parameters of the request; the page is what `strconv.Atoi` gives.
pub record SearchRequest : Type 0 where
  pub q : Text
  pub page : ℤ
  pub filter : SearchFilter

-- A page below 1 is the first.
abbrev pub page_of : ℤ → ℕ
page_of (pos zero) = 1
page_of (pos (suc n)) = suc n
page_of (negsuc n) = 1

-- `(page - 1) * pageSize`, as the bits of an int64
abbrev pub offset_of : ℕ → ℕ
offset_of page = (page - 1) * page_size % 2 ^ 64

-- The number of pages, at least one.
unfoldable pub pages_of : ℕ → ℕ
pages_of total = let pages = (total + page_size - 1) / page_size in if ltb pages 1 then 1 else pages

-- fmt.Sprintf("%s|%s|%s|%d", q, f.Ext, f.Since, page)
unfoldable pub cache_key : Text → SearchFilter → ℕ → Text
cache_key q f page = q ++ b'|' ∷ (f.ext ++ b'|' ∷ (f.since ++ b'|' ∷ decimal page))

pub record Page : Type 0 where
  pub results : List Cache.Result
  pub total : ℕ
  pub page : ℕ
  pub pages : ℕ
  pub cached : Bool

-- A page, or an internal server error.
pub data Reply : Type 0 where
  found : Page → Reply
  failed : Text → Error → Reply

-- `Search` with a limit and an offset, and `Count`.
pub record Database : Type 0 where
  pub search : Text → ℕ → ℕ → SearchFilter → Result (List Cache.Result)
  pub count : Text → SearchFilter → Result ℕ

abbrev pub page_reply : Bool → List Cache.Result → ℕ → ℕ → Reply
page_reply cached results total page = found (record {
  results = results;
  total = total;
  page = page;
  pages = pages_of total;
  cached = cached;
})

-- The cache is filled where there are results.
abbrev store : Option Cache → ℕ → Text → List Cache.Result → ℕ → Option Cache
store none now key results total = none
store (some c) now key [] total = some c
store (some c) now key (r ∷ results) total = some (Cache.set c now key (r ∷ results) total)

abbrev counted :
    Option Cache
    → ℕ
    → Text
    → ℕ
    → Text
    → List Cache.Result
    → Result ℕ
    → Option Cache × Reply × Option (Text × ℕ)
counted cache now key page q results (err e) = (cache, failed (codes "count failed: ") e, none)
counted cache now key page q results (ok total) =
    (store cache now key results total, page_reply false results total page, some (q, total))

abbrev searched :
    Database
    → SearchFilter
    → Option Cache
    → ℕ
    → Text
    → ℕ
    → Text
    → Result (List Cache.Result)
    → Option Cache × Reply × Option (Text × ℕ)
searched db f cache now key page q (err e) = (cache, failed (codes "search failed: ") e, none)
searched db f cache now key page q (ok results) =
    counted cache now key page q results (db.count q f)

-- The cache is asked first.
abbrev looked_up : Option Cache → ℕ → Text → Option Cache × Option (List Cache.Result × ℕ)
looked_up none now key = (none, none)
looked_up (some c) now key = let (c1, answer) = Cache.get c now key in (some c1, answer)

abbrev answered :
    Database
    → SearchFilter
    → Option Cache
    → ℕ
    → Text
    → ℕ
    → Text
    → Option (List Cache.Result × ℕ)
    → Option Cache × Reply × Option (Text × ℕ)
answered db f cache now key page q (some (results, total)) =
    (cache, page_reply true results total page, none)
answered db f cache now key page q none =
    searched db f cache now key page q (db.search q page_size (offset_of page) f)

abbrev pub key_of : SearchRequest → Text
key_of r = cache_key (trim_space r.q) r.filter (page_of r.page)

-- handleSearch: the cache after it, the reply, and the query and total that are logged. `now` is
-- the time of `Get`, and `later` that of `Set`.
unfoldable pub handle_search :
    Option Database
    → Option Cache
    → ℕ
    → ℕ
    → SearchRequest
    → Option Cache × Reply × Option (Text × ℕ)
handle_search none cache now later r = (cache, page_reply false [] 0 (page_of r.page), none)
handle_search (some db) cache now later r =
    if is_empty (trim_space r.q)
    then (cache, page_reply false [] 0 (page_of r.page), none)
    else (let (cache1, answer) = looked_up cache now (key_of r) in
        answered db r.filter cache1 later (key_of r) (page_of r.page) (trim_space r.q) answer)
