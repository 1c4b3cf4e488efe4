-- ===== src/Server/Search/Repeat.antt =====
-- The cache in `handleSearch` of internal/server/server.go.
use filesearch.Base.{
  ℕ, ◌+◌, ◌≤◌, ◌≡◌, refl, sym, ap, ◌∙◌, true, false, Option, none, some, List, ◌∷◌, Text,
  trim_space, is_empty, arith,
}
use filesearch.Base.Result.{ok}
use filesearch.Cache
use filesearch.Cache.{Cache}
use filesearch.Cache.Spec.{Slot}
use filesearch.Cache.Represents.{Represents}
use filesearch.Cache.Refines.{get-Represents}
use filesearch.Cache.Runs.{get-set}
use filesearch.Server.Search.{
  SearchRequest, Database, Reply, page_reply, page_size, page_of, offset_of, key_of, handle_search,
}

module _ {max_size ttl : ℕ} {c : Cache} {l : List Slot} (rep : Represents max_size ttl c l)
    (db : Database) (r : SearchRequest) (now : ℕ) (first : Cache.Result)
    (others : List Cache.Result) (total : ℕ) (asked : is_empty (trim_space r.q) ≡ false)
    (miss : (Cache.get c now (key_of r)).1 ≡ none)
    (search : db.search (trim_space r.q) page_size (offset_of (page_of r.page)) r.filter
      ≡ ok (first ∷ others))
    (count : db.count (trim_space r.q) r.filter ≡ ok total) where
  stored :
      (later : ℕ)
      → handle_search (some db) (some c) now later r ≡ (
        some (Cache.set (Cache.get c now (key_of r)).0 later (key_of r) (first ∷ others) total),
        page_reply false (first ∷ others) total (page_of r.page),
        some (trim_space r.q, total),
      )
  unfolding handle_search
  stored later = rw (asked, miss, search, count) refl

  -- A search that the cache misses and the database answers, with results, is answered from the
  -- cache when it is repeated within the time to live, with the same results and total, whatever
  -- the database would say by then.
  pub handle_search_again :
      (db' : Database) (c1 : Cache) (stored_at again later : ℕ)
      → (handle_search (some db) (some c) now stored_at r).0 ≡ some c1
      → again ≤ stored_at + ttl
      → (handle_search (some db') (some c1) again later r).1
        ≡ page_reply true (first ∷ others) total (page_of r.page)
  unfolding handle_search
  handle_search_again db' c1 stored_at again later at soon =
      let kept = (get-Represents rep now (key_of r)).0 in
      let hit = get-set kept stored_at again (key_of r) (first ∷ others) total in
      let is : some
            (Cache.set (Cache.get c now (key_of r)).0 stored_at (key_of r) (first ∷ others) total)
          ≡ some c1 =
        sym (ap (λ (x : Option Cache × Reply × Option (Text × ℕ)). x.0) (stored stored_at)) ∙ at in
      let answer : (Cache.get c1 again (key_of r)).1 ≡ some (first ∷ others, total) =
        ground (arith, hit, is, soon) in
      rw (asked, answer) refl
