-- ===== src/Embedder.antt =====
-- internal/embedder: the text that is sent for an embedding, and a round of the background indexer.
-- Reading a file, the embedding server and the storing of a vector are arguments: `none` and `false`
-- are errors. Waiting and cancellation are left out: a round that is cancelled is one of fewer files.
pub mod Attempts
pub mod Similarity
mod Tests
use filesearch.Base.{
  ℕ, ◌+◌, Bool, true, false, not, ◌&&◌, ◌==◌, Option, none, some, List, [], ◌∷◌, Text, codes,
  is_empty, ltb, keep, take, lookup, insert, if◌then◌else◌,
}

-- New(baseURL, model)
pub record Client : Type 0 where
  pub base_url : Text
  pub model : Text

unfoldable pub new : Text → Text → Client
new base_url model = record {
  base_url = if is_empty base_url then codes "http://localhost:11434" else base_url;
  model = if is_empty model then codes "nomic-embed-text" else model;
}

-- The text that `Embed` sends: at most 2000 bytes.
abbrev pub prompt_of : Text → Text
prompt_of text = take 2000 text

abbrev pub Vector : Type 0
Vector = List ℕ

-- Embed(ctx, text), where the server answers a prompt with a status and a vector: no answer, another
-- status than 200 and an empty vector are errors.
abbrev answer_of : Option (ℕ × Vector) → Option Vector
answer_of none = none
answer_of (some (status, [])) = none
answer_of (some (status, v ∷ vec)) = if status == 200 then some (v ∷ vec) else none

unfoldable pub embed : (Text → Text → Option (ℕ × Vector)) → Client → Text → Option Vector
embed post client text = answer_of (post client.model (prompt_of text))

-- The stored vectors, and how often each path failed.
pub record Progress : Type 0 where
  pub vectors : List (Text × Vector)
  pub failed : List (Text × ℕ)

-- `failed[path]`
abbrev pub fails : List (Text × ℕ) → Text → ℕ
fails failed path = elim (lookup path failed) [ none ↦ 0 | some n ↦ n ]

-- `failed[path]++`
abbrev pub count_failure : Text → Progress → Progress
count_failure path s = record s { failed = insert path (fails s.failed path + 1) s.failed }

abbrev is_missing : Option Vector → Bool
is_missing none = true
is_missing (some vec) = false

-- The paths with no vector and less than three failures.
unfoldable pub todo : Progress → List Text → List Text
todo s = keep (λ p. is_missing (lookup p s.vectors) && ltb (fails s.failed p) 3)

module _ (read_file : Text → Option Text) (embed_text : Text → Option Vector)
    (upsert_vector : Text → Vector → Bool) where
  abbrev pub store_vector : Text → Progress → Option Vector → Progress
  store_vector path s none = count_failure path s
  store_vector path s (some vec) =
      if upsert_vector path vec then record s { vectors = insert path vec s.vectors } else s

  abbrev pub embed_content : Text → Progress → Option Text → Progress
  embed_content path s none = count_failure path s
  embed_content path s (some content) =
      if is_empty content then count_failure path s else store_vector path s (embed_text content)

  -- The loop over the files of a round.
  unfoldable pub embed_files : List Text → Progress → Progress
  embed_files [] s = s
  embed_files (path ∷ paths) s = embed_files paths (embed_content path s (read_file path))

  -- One turn of the loop of `Run`, for the paths that `AllPaths` returns.
  unfoldable pub round : List Text → Progress → Progress
  unfolding todo embed_files
  round paths s = embed_files (todo s paths) s
