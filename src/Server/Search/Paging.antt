-- ===== src/Server/Search/Paging.antt =====
-- The number of pages and the key of the cache in `handleSearch` of internal/server/server.go.
use mathlib.Core.List.{append_assoc}
use filesearch.Base.{decimal, ℕ, ◌-◌, ◌*◌, ◌≤◌, ◌<◌, ◌≡◌, ap, sym, ◌∙◌, ◌⊎◌, ◌∷◌, ◌++◌, Text, arith}
use filesearch.Server.Search.{cache_key, pages_of, page_size}

-- The pages hold all the results, there is at least one, and the last one is not empty unless it
-- is the only one.
pub pages_of-covers :
    (total : ℕ)
    → (1 ≤ pages_of total)
      × (total ≤ pages_of total * page_size)
      × ((pages_of total ≡ 1) ⊎ ((pages_of total - 1) * page_size < total))
unfolding pages_of
pages_of-covers total = ground arith

-- Two searches whose text and extension join to the same, with a bar between them, have one key
-- in the cache.
pub cache_key_collides :
    (q middle ext since : Text) (page : ℕ)
    → cache_key (q ++ b'|' ∷ middle) (record { ext = ext; since = since }) page
      ≡ cache_key q (record { ext = middle ++ b'|' ∷ ext; since = since }) page
unfolding cache_key
cache_key_collides q middle ext since page =
    append_assoc q (b'|' ∷ middle) (b'|' ∷ (ext ++ b'|' ∷ (since ++ b'|' ∷ decimal page)))
    ∙ ap (λ t. q ++ b'|' ∷ t)
        (sym (append_assoc middle (b'|' ∷ ext) (b'|' ∷ (since ++ b'|' ∷ decimal page))))
