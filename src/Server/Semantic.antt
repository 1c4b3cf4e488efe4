-- ===== src/Server/Semantic.antt =====
-- `handleSemanticSearch` of internal/server/server.go. The embedding client and the database are what
-- they return in the call, `none` where the server has none; `sort.Slice` is a parameter.
pub mod Best
mod Tests
use filesearch.Base.{
  ℕ, Bool, true, false, not, Option, none, some, List, [], ◌∷◌, Text, codes, is_empty, has_prefix,
  take, length, trim_space, if◌then◌else◌,
}
use filesearch.Base.Result.{Result, ok, err}
use filesearch.Embedder.Similarity.{Floats, cosine_similarity}
use filesearch.Server.Settings.{is_library_path}

pub record Hit (F : Type 0) : Type 0 where
  pub path : Text
  pub score : F

pub data SemanticReply (F : Type 0) : Type 0 where
  ranked : List (Hit F) → SemanticReply F
  unavailable : SemanticReply F
  load_failed : SemanticReply F

-- float32's comparisons: `score > 0.5` and `a > b`, and `sort.Slice` with a test for what comes first.
pub record Ranking (F : Type 0) : Type 0 where
  pub is_above_half : F → Bool
  pub is_greater : F → F → Bool
  pub sort_slice : (Hit F → Hit F → Bool) → List (Hit F) → List (Hit F)

module _ (fl : Floats) (ranking : Ranking fl.F32) where
  -- The loop over the vectors, in the order the map gives them.
  unfoldable pub hits_of : List fl.F32 → List (Text × List fl.F32) → List (Hit fl.F32)
  hits_of query [] = []
  hits_of query ((path, vector) ∷ vectors) =
      let rest = hits_of query vectors in
      let score = cosine_similarity fl query vector in
      if not (has_prefix path (codes "/"))
      then rest
      else if is_library_path path
      then rest
      else if ranking.is_above_half score
      then record { path = path; score = score } ∷ rest
      else rest

  abbrev pub comes_first : Hit fl.F32 → Hit fl.F32 → Bool
  comes_first a b = ranking.is_greater a.score b.score

  -- Sorted, and the first ten.
  abbrev pub best_of : List (Hit fl.F32) → List (Hit fl.F32)
  best_of hits = take 10 (ranking.sort_slice comes_first hits)

  -- What the two services give in the call.
  abbrev pub answer_vectors :
      Text
      → Option (List fl.F32)
      → Result (List (Text × List fl.F32))
      → SemanticReply fl.F32 × Option (Text × ℕ)
  answer_vectors q none vectors = (unavailable, none)
  answer_vectors q (some query) (err e) = (load_failed, none)
  answer_vectors q (some query) (ok vectors) =
      let hits = best_of (hits_of query vectors) in (ranked hits, some (q, length hits))

  -- handleSemanticSearch(w, r): the reply, and the query and the number of results for the audit log.
  unfoldable pub handle_semantic_search :
      Option (Text → Option (List fl.F32))
      → Option (Result (List (Text × List fl.F32)))
      → Text
      → SemanticReply fl.F32 × Option (Text × ℕ)
  unfolding hits_of
  handle_semantic_search client database raw =
      let q = trim_space raw in
      if is_empty q then (ranked [], none) else elim client [
        | none ↦ (unavailable, none)
        | some embed ↦ elim database [
          | none ↦ (unavailable, none)
          | some vectors ↦ answer_vectors q (embed q) vectors
        ]
      ]
