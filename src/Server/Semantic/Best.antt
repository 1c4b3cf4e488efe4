-- ===== src/Server/Semantic/Best.antt =====
-- The results of `handleSemanticSearch` in internal/server/server.go: which they are, and their order.
use mathlib.Core.List.{Permᴰ, Memᴰ}
use filesearch.Base.{
  ℕ, zero, suc, ◌≤◌, ◌≡◌, ◌⊎◌, refl, sym, ap, subst, inl, inr, Bool, true, false, Bool-cases,
  Option, some, List, [], ◌∷◌, ◌++◌, Text, codes, is_empty, has_prefix, take, drop, length,
  length-take-le, trim_space, All, All-map,
}
use filesearch.Base.Result.{ok}
use filesearch.Embedder.Similarity.{Floats, cosine_similarity}
use filesearch.Server.Settings.{is_library_path}
use filesearch.Server.Semantic.{
  Hit, ranked, Ranking, hits_of, comes_first, best_of, handle_semantic_search,
}

module _ {A : Type 0} where
  take-drop : (n : ℕ) (l : List A) → take n l ++ drop n l ≡ l
  take-drop zero l = refl
  take-drop (suc n) [] = refl
  take-drop (suc n) (a ∷ l) = ap (λ t. a ∷ t) (take-drop n l)

  -- Nothing is dropped, or as many are taken as asked.
  drop-or-length : (n : ℕ) (l : List A) → (drop n l ≡ []) ⊎ (length (take n l) ≡ n)
  drop-or-length zero l = inr refl
  drop-or-length (suc n) [] = inl refl
  drop-or-length (suc n) (a ∷ l) = elim (drop-or-length n l) [
    | inl none_left ↦ inl none_left
    | inr full ↦ inr (ap suc full)
  ]

  pub All-Permᴰ : (P : A → Type 0) (l r : List A) → Permᴰ l r → All P r → All P l
  All-Permᴰ P [] [] Permᴰ.nil a = tt
  All-Permᴰ P (x ∷ l) (y ∷ r) (Permᴰ.cons e p) (h, a) = (subst P (sym e) h, All-Permᴰ P l r p a)
  All-Permᴰ P (x ∷ y ∷ l) _ (Permᴰ.swap e f) (h, (k, a)) =
      (subst P (sym e) k, (subst P (sym f) h, a))
  All-Permᴰ P l r (Permᴰ.trans {l₂} p q) a = All-Permᴰ P l l₂ p (All-Permᴰ P l₂ r q a)

module _ (fl : Floats) (ranking : Ranking fl.F32) where
  -- No hit has a greater score than one before it.
  abbrev pub IsRanked : List (Hit fl.F32) → Type 0
  IsRanked [] = Unit
  IsRanked (a ∷ hits) = All (λ b. ranking.is_greater b.score a.score ≡ false) hits × IsRanked hits

  abbrev pub IsAbove : Hit fl.F32 → Type 0
  IsAbove h = ranking.is_above_half h.score ≡ true

  -- What `sort.Slice` promises: a permutation, in the order of the test, which is a strict weak order
  -- on scores above one half.
  pub record IsSort : Type 0 where
    pub permutes :
        (first : Hit fl.F32 → Hit fl.F32 → Bool) (hits : List (Hit fl.F32))
        → Permᴰ (ranking.sort_slice first hits) hits
    pub orders :
        (hits : List (Hit fl.F32))
        → All IsAbove hits
        → IsRanked (ranking.sort_slice (comes_first fl ranking) hits)

  -- A hit of an absolute path outside the libraries, with its score above one half.
  abbrev pub IsHit : List fl.F32 → List (Text × List fl.F32) → Hit fl.F32 → Type 0
  IsHit query vectors h =
      (vector : List fl.F32) × Memᴰ (h.path, vector) vectors
      × (h.score ≡ cosine_similarity fl query vector)
      × (has_prefix h.path (codes "/") ≡ true)
      × (is_library_path h.path ≡ false)
      × IsAbove h

  IsHit-tail :
      (query : List fl.F32) (v : Text × List fl.F32) (vectors : List (Text × List fl.F32))
      (h : Hit fl.F32)
      → IsHit query vectors h
      → IsHit query (v ∷ vectors) h
  IsHit-tail query v vectors h (vector, m, score, absolute, own, above) =
      (vector, Memᴰ.tail m, score, absolute, own, above)

  hits_of-IsHit :
      (query : List fl.F32) (vectors : List (Text × List fl.F32))
      → All (IsHit query vectors) (hits_of fl ranking query vectors)
  unfolding hits_of
  hits_of-IsHit query [] = tt
  hits_of-IsHit query ((path, vector) ∷ vectors) =
      let rest =
        All-map (IsHit query vectors) (IsHit query ((path, vector) ∷ vectors))
          (hits_of fl ranking query vectors) (λ h i. IsHit-tail query (path, vector) vectors h i)
          (hits_of-IsHit query vectors) in
      let score = cosine_similarity fl query vector in
      elim (Bool-cases (has_prefix path (codes "/"))) [
        | inr relative ↦ rw (hits_of, relative) rest
        | inl absolute ↦ elim (Bool-cases (is_library_path path)) [
          | inl library ↦ rw (hits_of, absolute, library) rest
          | inr own ↦ elim (Bool-cases (ranking.is_above_half score)) [
            | inr low ↦ rw (hits_of, absolute, own, low) rest
            | inl above ↦
                rw (hits_of, absolute, own, above)
                  ((vector, Memᴰ.head refl, refl, absolute, own, above), rest)
          ]
        ]
      ]

  -- The hits are the best of all: with the rest they are a permutation of the hits, no hit stands after
  -- one with a smaller score, and there are ten or nothing is left.
  abbrev pub AreBest : List (Hit fl.F32) → List (Hit fl.F32) → Type 0
  AreBest all hits =
      (rest : List (Hit fl.F32)) × Permᴰ (hits ++ rest) all
      × IsRanked (hits ++ rest)
      × (length hits ≤ 10)
      × ((rest ≡ []) ⊎ (length hits ≡ 10))

  best_of-AreBest :
      (sort : IsSort) (all : List (Hit fl.F32))
      → All IsAbove all
      → AreBest all (best_of fl ranking all)
  best_of-AreBest sort all above =
      let sorted = ranking.sort_slice (comes_first fl ranking) all in
      let whole = sym (take-drop 10 sorted) in
      (
        drop 10 sorted,
        subst (λ l. Permᴰ l all) whole (sort.permutes (comes_first fl ranking) all),
        subst IsRanked whole (sort.orders all above),
        length-take-le 10 sorted,
        drop-or-length 10 sorted,
      )

  -- A vector that is to be among the hits: of an absolute path outside the libraries, and similar to
  -- the query.
  abbrev IsWanted : List fl.F32 → Text × List fl.F32 → Type 0
  IsWanted query (path, vector) =
      (has_prefix path (codes "/") ≡ true)
      × (is_library_path path ≡ false)
      × (ranking.is_above_half (cosine_similarity fl query vector) ≡ true)

  -- Every vector that is wanted has its hit.
  abbrev pub IsComplete : List fl.F32 → List (Text × List fl.F32) → List (Hit fl.F32) → Type 0
  IsComplete query vectors hits =
      (path : Text) (vector : List fl.F32)
      → Memᴰ (path, vector) vectors
      → IsWanted query (path, vector)
      → Memᴰ (record { path = path; score = cosine_similarity fl query vector }) hits

  -- A loop goes on with what it has found before.
  hits_of-tail :
      (query : List fl.F32) (v : Text × List fl.F32) (vectors : List (Text × List fl.F32))
      (h : Hit fl.F32)
      → Memᴰ h (hits_of fl ranking query vectors)
      → Memᴰ h (hits_of fl ranking query (v ∷ vectors))
  unfolding hits_of
  hits_of-tail query (path, vector) vectors h m = elim (Bool-cases (has_prefix path (codes "/"))) [
    | inr relative ↦ rw (hits_of, relative) m
    | inl absolute ↦ elim (Bool-cases (is_library_path path)) [
      | inl library ↦ rw (hits_of, absolute, library) m
      | inr own ↦ elim (Bool-cases (ranking.is_above_half (cosine_similarity fl query vector))) [
        | inr low ↦ rw (hits_of, absolute, own, low) m
        | inl above ↦ rw (hits_of, absolute, own, above) (Memᴰ.tail m)
      ]
    ]
  ]

  hits_of-head :
      (query : List fl.F32) (v : Text × List fl.F32) (vectors : List (Text × List fl.F32))
      → IsWanted query v
      → Memᴰ
          (record { path = v.0; score = cosine_similarity fl query v.1 })
          (hits_of fl ranking query (v ∷ vectors))
  unfolding hits_of
  hits_of-head query (path, vector) vectors (absolute, own, above) =
      rw (hits_of, absolute, own, above) (Memᴰ.head refl)

  hits_of-IsComplete :
      (query : List fl.F32) (vectors : List (Text × List fl.F32))
      → IsComplete query vectors (hits_of fl ranking query vectors)
  hits_of-IsComplete query [] path vector m wanted = elim m [ ]
  hits_of-IsComplete query (v ∷ vectors) path vector (Memᴰ.head e) wanted =
      subst
        (λ u.
          Memᴰ (record { path = u.0; score = cosine_similarity fl query u.1 })
            (hits_of fl ranking query (v ∷ vectors)))
        (sym e) (hits_of-head query v vectors (subst (IsWanted query) e wanted))
  hits_of-IsComplete query (v ∷ vectors) path vector (Memᴰ.tail m) wanted =
      hits_of-tail query v vectors _ (hits_of-IsComplete query vectors path vector m wanted)

  -- Where the text is not blank and the client and the database answer, the reply is ranked hits
  -- and the query is logged with their number. They are taken from a list in which each hit is an
  -- absolute path outside the libraries with a vector whose similarity to the query's is its
  -- score, above one half, and in which every such path and vector has its hit: they are ordered
  -- by score, and they are the ten best of that list, or all of it where there are fewer, if
  -- sort.Slice sorts.
  pub handle_semantic_search-AreBest :
      (sort : IsSort) (embed : Text → Option (List fl.F32)) (vectors : List (Text × List fl.F32))
      (raw : Text) (query : List fl.F32)
      → is_empty (trim_space raw) ≡ false
      → embed (trim_space raw) ≡ some query
      → (all hits : List (Hit fl.F32)) × (handle_semantic_search fl ranking
            (some embed)
            (some (ok vectors))
            raw
          ≡ (ranked hits, some (trim_space raw, length hits)))
        × All (IsHit query vectors) all
        × IsComplete query vectors all
        × AreBest all hits
  unfolding handle_semantic_search
  handle_semantic_search-AreBest sort embed vectors raw query filled embedded =
      let all = hits_of fl ranking query vectors in
      let are_hits = hits_of-IsHit query vectors in
      let above =
        All-map (IsHit query vectors) IsAbove all (λ h (v, m, score, absolute, own, above). above)
          are_hits in
      (
        all,
        best_of fl ranking all,
        rw (filled, embedded) refl,
        are_hits,
        hits_of-IsComplete query vectors,
        best_of-AreBest sort all above,
      )
