-- ===== src/Embedder/Similarity.antt =====
-- `CosineSimilarity` of internal/embedder/embedder.go, over the operations of Go's floating-point types.
use filesearch.Base.{
  ℕ, ◌≡◌, refl, inl, inr, Bool, ◌||◌, Bool-cases, ◌==◌, List, [], ◌∷◌, length, if◌then◌else◌, arith,
}

-- float32 and float64 with what the function uses of them.
pub record Floats : Type 1 where
  pub F32 : Type 0
  pub F64 : Type 0
  pub widen : F32 → F64
  pub narrow : F64 → F32
  pub zero_32 : F32
  pub zero_64 : F64
  pub is_zero : F64 → Bool
  pub add : F64 → F64 → F64
  pub mul : F64 → F64 → F64
  pub div : F64 → F64 → F64
  pub sqrt : F64 → F64

module _ (fl : Floats) where
  -- dot, normA and normB after the loop, from their values before.
  abbrev pub sums : fl.F64 → fl.F64 → fl.F64 → List fl.F32 → List fl.F32 → fl.F64 × fl.F64 × fl.F64
  sums dot norm_a norm_b (x ∷ a) (y ∷ b) =
      sums (fl.add dot (fl.mul (fl.widen x) (fl.widen y)))
        (fl.add norm_a (fl.mul (fl.widen x) (fl.widen x)))
        (fl.add norm_b (fl.mul (fl.widen y) (fl.widen y))) a b
  sums dot norm_a norm_b _ _ = (dot, norm_a, norm_b)

  abbrev pub quotient : fl.F64 × fl.F64 × fl.F64 → fl.F32
  quotient (dot, norm_a, norm_b) =
      if fl.is_zero norm_a || fl.is_zero norm_b
      then fl.zero_32
      else fl.narrow (fl.div dot (fl.mul (fl.sqrt norm_a) (fl.sqrt norm_b)))

  -- CosineSimilarity(a, b)
  unfoldable pub cosine_similarity : List fl.F32 → List fl.F32 → fl.F32
  cosine_similarity a b =
      if length a == length b
      then quotient (sums fl.zero_64 fl.zero_64 fl.zero_64 a b)
      else fl.zero_32

module _ (fl : Floats) (mul_comm : (x y : fl.F64) → fl.mul x y ≡ fl.mul y x) where
  -- The sums of swapped vectors are the swapped sums.
  sums-swap :
      (dot na nb : fl.F64) (a b : List fl.F32)
      → (s : fl.F64) × (p : fl.F64) × (q : fl.F64) × (sums fl dot na nb a b ≡ (s, p, q))
        × (sums fl dot nb na b a ≡ (s, q, p))
  sums-swap dot na nb [] [] = (dot, na, nb, refl, refl)
  sums-swap dot na nb [] (y ∷ b) = (dot, na, nb, refl, refl)
  sums-swap dot na nb (x ∷ a) [] = (dot, na, nb, refl, refl)
  sums-swap dot na nb (x ∷ a) (y ∷ b) =
      let w = fl.widen in
      rw (mul_comm (w y) (w x)) (
        sums-swap (fl.add dot (fl.mul (w x) (w y))) (fl.add na (fl.mul (w x) (w x)))
          (fl.add nb (fl.mul (w y) (w y))) a b)

  quotient-swap : (s p q : fl.F64) → quotient fl (s, p, q) ≡ quotient fl (s, q, p)
  quotient-swap s p q = elim (Bool-cases (fl.is_zero p)) [
    | inl a ↦ elim (Bool-cases (fl.is_zero q)) [ inl b ↦ rw (a, b) refl | inr b ↦ rw (a, b) refl ]
    | inr a ↦ elim (Bool-cases (fl.is_zero q)) [
      | inl b ↦ rw (a, b) refl
      | inr b ↦ rw (a, b, mul_comm (fl.sqrt p) (fl.sqrt q)) refl
    ]
  ]

  ==-comm : (m n : ℕ) → (m == n) ≡ (n == m)
  ==-comm m n = ground arith

  -- Where the product of float64 numbers commutes, the similarity does, bit for bit, also of vectors of
  -- different lengths and of ones with no length.
  pub cosine_similarity_comm :
      (a b : List fl.F32) → cosine_similarity fl a b ≡ cosine_similarity fl b a
  unfolding cosine_similarity
  cosine_similarity_comm a b =
      let (s, p, q, there, back) = sums-swap fl.zero_64 fl.zero_64 fl.zero_64 a b in
      rw (==-comm (length a) (length b), there, back, quotient-swap s p q) refl
