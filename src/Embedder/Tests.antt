-- ===== src/Embedder/Tests.antt =====
-- The theorem on the background indexer of internal/embedder/indexer.go at a concrete round.
use filesearch.Base.{
  ℕ, ◌≤◌, ◌≢◌, refl, Bool, true, Option, none, some, List, [], ◌∷◌, Text, codes, text_eq_ne, arith,
}
use filesearch.Embedder.{Vector, Progress, round}
use filesearch.Embedder.Attempts.{IsWithin, round-IsWithin}

abbrev unreadable : Text → Option Text
unreadable path = none

abbrev embed_text : Text → Option Vector
embed_text text = some (1 ∷ [])

abbrev stores : Text → Vector → Bool
stores path vec = true

abbrev fresh : Progress
fresh = record { vectors = []; failed = [] }

round-IsWithin_example :
    IsWithin (round unreadable embed_text stores (codes "/a" ∷ (codes "/b" ∷ [])) fresh)
unfolding filesearch.Base.lookup
round-IsWithin_example =
    round-IsWithin unreadable embed_text stores (codes "/a" ∷ (codes "/b" ∷ [])) fresh
      ((text_eq_ne (codes "/a") (codes "/b") refl, tt), (tt, tt)) (λ p. omega arith)
