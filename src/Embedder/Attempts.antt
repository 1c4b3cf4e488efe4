-- ===== src/Embedder/Attempts.antt =====
-- How often the background indexer of internal/embedder/indexer.go tries a file.
use filesearch.Base.{
  ◌+◌, ◌≤◌, ◌<◌, ◌≡◌, ◌≢◌, refl, inl, inr, Bool, Bool-cases, ◌&&◌, Option, none, some, List, [],
  ◌∷◌, Text, ltb, keep, lookup, lookup-insert, text_eq, text_eq_iff, is_empty, All, All-zip, arith,
}
use filesearch.Embedder.{
  Vector, Progress, fails, count_failure, is_missing, todo, store_vector, embed_content,
  embed_files, round,
}

-- No path occurs twice.
abbrev pub AreDistinct : List Text → Type 0
AreDistinct [] = Unit
AreDistinct (p ∷ ps) = All (λ q. p ≢ q) ps × AreDistinct ps

-- No path has failed more than three times.
abbrev pub IsWithin : Progress → Type 0
IsWithin s = (p : Text) → fails s.failed p ≤ 3

keep-All : (P : Text → Type 0) (f : Text → Bool) (ps : List Text) → All P ps → All P (keep f ps)
keep-All P f [] a = tt
keep-All P f (p ∷ ps) (h, a) = elim (Bool-cases (f p)) [
  | inl inside ↦ rw inside (h, keep-All P f ps a)
  | inr out ↦ rw out (keep-All P f ps a)
]

keep-AreDistinct : (f : Text → Bool) (ps : List Text) → AreDistinct ps → AreDistinct (keep f ps)
keep-AreDistinct f [] d = tt
keep-AreDistinct f (p ∷ ps) (apart, d) = elim (Bool-cases (f p)) [
  | inl inside ↦ rw inside (keep-All (λ q. p ≢ q) f ps apart, keep-AreDistinct f ps d)
  | inr out ↦ rw out (keep-AreDistinct f ps d)
]

todo-few : (s : Progress) (ps : List Text) → All (λ p. fails s.failed p < 3) (todo s ps)
unfolding todo
todo-few s [] = tt
todo-few s (p ∷ ps) =
    elim (Bool-cases (is_missing (lookup p s.vectors) && ltb (fails s.failed p) 3)) [
      | inl few ↦ rw few (ground (arith, few), todo-few s ps)
      | inr out ↦ rw out (todo-few s ps)
    ]

-- A file fails at most once more, and no other path does.
record Attempted (path : Text) (s t : Progress) : Type 0 where
  own : fails t.failed path ≤ fails s.failed path + 1
  others : (p : Text) → path ≢ p → fails t.failed p ≡ fails s.failed p

count_failure-Attempted : (path : Text) (s : Progress) → Attempted path s (count_failure path s)
count_failure-Attempted path s = record {
  own =
      ground
        (arith, lookup-insert path path (fails s.failed path + 1) s.failed, text_eq_iff path path);
  others = λ p ne.
      ground (arith, lookup-insert path p (fails s.failed path + 1) s.failed, text_eq_iff path p);
}

same_Attempted : (path : Text) (s t : Progress) → t.failed ≡ s.failed → Attempted path s t
same_Attempted path s t e = record { own = rw e (omega arith); others = λ p ne. rw e refl }

module _ (read_file : Text → Option Text) (embed_text : Text → Option Vector)
    (upsert_vector : Text → Vector → Bool) where
  store_vector-Attempted :
      (path : Text) (s : Progress) (o : Option Vector)
      → Attempted path s (store_vector read_file embed_text upsert_vector path s o)
  store_vector-Attempted path s none = count_failure-Attempted path s
  store_vector-Attempted path s (some vec) = same_Attempted path s _ (ground arith)

  embed_content-Attempted :
      (path : Text) (s : Progress) (o : Option Text)
      → Attempted path s (embed_content read_file embed_text upsert_vector path s o)
  embed_content-Attempted path s none = count_failure-Attempted path s
  embed_content-Attempted path s (some content) = elim (Bool-cases (is_empty content)) [
    | inl blank ↦ rw blank (count_failure-Attempted path s)
    | inr text ↦ rw text (store_vector-Attempted path s (embed_text content))
  ]

  attempt_Within :
      (path : Text) (s t : Progress)
      → fails s.failed path < 3
      → Attempted path s t
      → IsWithin s
      → IsWithin t
  attempt_Within path s t few a h p = elim (Bool-cases (text_eq path p)) [
    | inl same ↦ ground (arith, (text_eq_iff path p).0 same, a.own, few)
    | inr other ↦ ground (arith, a.others p (λ e. cc ((text_eq_iff path p).1 e, other)), h p)
  ]

  embed_files-IsWithin :
      (paths : List Text) (s : Progress)
      → AreDistinct paths
      → All (λ p. fails s.failed p < 3) paths
      → IsWithin s
      → IsWithin (embed_files read_file embed_text upsert_vector paths s)
  unfolding embed_files
  embed_files-IsWithin [] s d few h = h
  embed_files-IsWithin (path ∷ paths) s (apart, d) (mine, few) h =
      let a = embed_content-Attempted path s (read_file path) in
      let t = embed_content read_file embed_text upsert_vector path s (read_file path) in
      embed_files-IsWithin paths t d
        (All-zip (λ p. path ≢ p) (λ p. fails s.failed p < 3) (λ p. fails t.failed p < 3) paths
          (λ p ne lt. omega (arith, a.others p ne, lt)) apart few)
        (attempt_Within path s t mine a h)

  -- Where no path has failed more than three times, none has after a round over distinct paths.
  pub round-IsWithin :
      (paths : List Text) (s : Progress)
      → AreDistinct paths
      → IsWithin s
      → IsWithin (round read_file embed_text upsert_vector paths s)
  unfolding round todo
  round-IsWithin paths s d h =
      embed_files-IsWithin (todo s paths) s (keep-AreDistinct _ paths d) (todo-few s paths) h
