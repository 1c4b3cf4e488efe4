-- ===== src/Server/Semantic/Tests.antt =====
-- `handleSemanticSearch` of internal/server/server.go with an insertion sort and scores in tenths.
use mathlib.Core.List.{Permᴰ}
use mathlib.Core.List.Permᴰ
use filesearch.Base.{
  ℕ, ◌*◌, ◌+◌, ◌≡◌, refl, inl, inr, Bool, true, false, Bool-cases, Option, some, List, [], ◌∷◌, ltb,
  ◌==◌, length, Text, codes, All, All-map, arith, if◌then◌else◌,
}
use filesearch.Base.Result.{ok}
use filesearch.Embedder.Similarity.{Floats, cosine_similarity}
use filesearch.Server.Semantic.{Hit, Ranking, ranked, hits_of, comes_first, handle_semantic_search}
use filesearch.Server.Semantic.Best.{
  IsSort, IsRanked, IsHit, AreBest, IsComplete, All-Permᴰ, handle_semantic_search-AreBest,
}

-- Numbers whose product alone matters.
abbrev tenths : Floats
tenths = record {
  F32 = ℕ;
  F64 = ℕ;
  widen = λ x. x;
  narrow = λ x. x;
  zero_32 = 0;
  zero_64 = 0;
  is_zero = λ x. x == 0;
  add = λ x y. x + y;
  mul = λ x y. x * y;
  div = λ x y. x;
  sqrt = λ x. 1;
}

abbrev insert_hit : (Hit ℕ → Hit ℕ → Bool) → Hit ℕ → List (Hit ℕ) → List (Hit ℕ)
insert_hit first x [] = x ∷ []
insert_hit first x (y ∷ l) =
    let rest = insert_hit first x l in if first y x then y ∷ rest else x ∷ y ∷ l

abbrev insertion_sort : (Hit ℕ → Hit ℕ → Bool) → List (Hit ℕ) → List (Hit ℕ)
insertion_sort first [] = []
insertion_sort first (x ∷ l) = insert_hit first x (insertion_sort first l)

abbrev by_score : Ranking ℕ
by_score = record {
  is_above_half = λ x. ltb 5 x;
  is_greater = λ x y. ltb y x;
  sort_slice = insertion_sort;
}

insert_hit-Permᴰ :
    (first : Hit ℕ → Hit ℕ → Bool) (x : Hit ℕ) (l : List (Hit ℕ))
    → Permᴰ (insert_hit first x l) (x ∷ l)
insert_hit-Permᴰ first x [] = Permᴰ.refl (x ∷ [])
insert_hit-Permᴰ first x (y ∷ l) = elim (Bool-cases (first y x)) [
  | inl before ↦
      rw before
        (Permᴰ.trans (Permᴰ.cons refl (insert_hit-Permᴰ first x l)) (Permᴰ.swap {l = l} refl refl))
  | inr after ↦ rw after (Permᴰ.refl (x ∷ y ∷ l))
]

insertion_sort-Permᴰ :
    (first : Hit ℕ → Hit ℕ → Bool) (l : List (Hit ℕ)) → Permᴰ (insertion_sort first l) l
insertion_sort-Permᴰ first [] = Permᴰ.nil
insertion_sort-Permᴰ first (x ∷ l) =
    Permᴰ.trans (insert_hit-Permᴰ first x (insertion_sort first l))
      (Permᴰ.cons refl (insertion_sort-Permᴰ first l))

abbrev IsAtMost : Hit ℕ → Hit ℕ → Type 0
IsAtMost a b = ltb a.score b.score ≡ false

IsAtMost-trans : (a b c : Hit ℕ) → IsAtMost a b → IsAtMost b c → IsAtMost a c
IsAtMost-trans a b c h k = ground arith

IsAtMost-of_greater : (a b : Hit ℕ) → ltb b.score a.score ≡ true → IsAtMost a b
IsAtMost-of_greater a b h = ground arith

insert_hit-IsRanked :
    (x : Hit ℕ) (l : List (Hit ℕ))
    → IsRanked tenths by_score l
    → IsRanked tenths by_score (insert_hit (comes_first tenths by_score) x l)
insert_hit-IsRanked x [] r = (tt, tt)
insert_hit-IsRanked x (y ∷ l) (below, r) =
    let first = comes_first tenths by_score in
    elim (Bool-cases (ltb x.score y.score)) [
      | inl greater ↦ rw greater (
        All-Permᴰ (IsAtMost y) (insert_hit first x l) (x ∷ l) (insert_hit-Permᴰ first x l)
            (IsAtMost-of_greater y x greater, below),
        insert_hit-IsRanked x l r,
      )
      | inr less ↦ rw less (
        (less, All-map (IsAtMost y) (IsAtMost x) l (λ b h. IsAtMost-trans x y b less h) below),
        (below, r),
      )
    ]

insertion_sort-IsRanked :
    (l : List (Hit ℕ)) → IsRanked tenths by_score (insertion_sort (comes_first tenths by_score) l)
insertion_sort-IsRanked [] = tt
insertion_sort-IsRanked (x ∷ l) =
    insert_hit-IsRanked x (insertion_sort (comes_first tenths by_score) l)
      (insertion_sort-IsRanked l)

by_score-IsSort : IsSort tenths by_score
by_score-IsSort = record {
  permutes = λ first hits. insertion_sort-Permᴰ first hits;
  orders = λ hits above. insertion_sort-IsRanked hits;
}

abbrev stored : List (Text × List ℕ)
stored =
    (codes "/docs/a", 3 ∷ [])
    ∷ (codes "relative", 9 ∷ [])
    ∷ (codes "/docs/b", 4 ∷ [])
    ∷ (codes "/docs/c", 1 ∷ [])
    ∷ []

-- The query's vector has the length of the text as its number.
abbrev embed_length : Text → Option (List ℕ)
embed_length q = some (length q ∷ [])

handle_semantic_search-AreBest_example :
    (all hits : List (Hit ℕ)) × (handle_semantic_search tenths by_score
        (some embed_length)
        (some (ok stored))
        (codes " ab ")
      ≡ (ranked hits, some (codes "ab", length hits)))
    × All (IsHit tenths by_score (2 ∷ []) stored) all
    × IsComplete tenths by_score (2 ∷ []) stored all
    × AreBest tenths by_score all hits
handle_semantic_search-AreBest_example =
    handle_semantic_search-AreBest tenths by_score by_score-IsSort embed_length stored
      (codes " ab ") (2 ∷ []) refl refl

two_hits :
    handle_semantic_search tenths by_score (some embed_length) (some (ok stored)) (codes " ab ") ≡ (
      ranked (
          record { path = codes "/docs/b"; score = 8 }
          ∷ record { path = codes "/docs/a"; score = 6 }
          ∷ []),
      some (codes "ab", 2),
    )
unfolding handle_semantic_search hits_of cosine_similarity
    filesearch.Server.Settings.is_library_path
two_hits = refl

mul_comm : (x y : ℕ) → x * y ≡ y * x
mul_comm x y = grind arith
