-- ===== src/Db/Vectors.antt =====
-- The stored embeddings of internal/db/vectors.go. A float32 is its bit pattern, a number below
-- 2 ^ 32: `math.Float32bits` and `math.Float32frombits` are the identity on it.
use filesearch.Base.{
  ℕ, ◌+◌, ◌*◌, ◌/◌, ◌%◌, ◌^◌, ◌<◌, ◌≡◌, ◌≢◌, ◌⊎◌, inl, inr, Bool-cases, refl, ap, Option, none,
  some, List, [], ◌∷◌, ◌++◌, Text, ◌==◌, length, All, arith, if◌then◌else◌, insert,
}

abbrev pub word : ℕ
word = 2 ^ 32

-- binary.LittleEndian.PutUint32 and Uint32
abbrev pub put_uint32 : ℕ → Text
put_uint32 v = v % 256 ∷ v / 256 % 256 ∷ v / 65536 % 256 ∷ v / 16777216 % 256 ∷ []

abbrev pub uint32 : ℕ → ℕ → ℕ → ℕ → ℕ
uint32 a b c d = a + b * 256 + c * 65536 + d * 16777216

-- float32SliceToBytes(vec)
unfoldable pub float32_slice_to_bytes : List ℕ → Text
float32_slice_to_bytes [] = []
float32_slice_to_bytes (v ∷ vec) = put_uint32 v ++ float32_slice_to_bytes vec

-- The loop of `bytesToFloat32Slice`, over whole words.
unfoldable pub read_words : Text → List ℕ
read_words (a ∷ b ∷ c ∷ d ∷ buf) = uint32 a b c d ∷ read_words buf
read_words _ = []

-- bytesToFloat32Slice(buf)
unfoldable pub bytes_to_float32_slice : Text → Option (List ℕ)
unfolding read_words
bytes_to_float32_slice buf = if length buf % 4 == 0 then some (read_words buf) else none

abbrev pub max_vectors : ℕ
max_vectors = 50000

-- The loop of `AllVectors` over the rows that the query returns, the most recent first, at most
-- `maxVectors` of them: a row that does not decode is skipped.
unfoldable pub collect_vectors : List (Text × Text) → List (Text × List ℕ) → List (Text × List ℕ)
collect_vectors [] result = result
collect_vectors ((path, blob) ∷ rows) result =
    collect_vectors rows
      (elim (bytes_to_float32_slice blob) [ none ↦ result | some vec ↦ insert path vec result ])

length-float32_slice_to_bytes :
    (vec : List ℕ) → length (float32_slice_to_bytes vec) ≡ 4 * length vec
unfolding float32_slice_to_bytes
length-float32_slice_to_bytes [] = omega arith
length-float32_slice_to_bytes (v ∷ vec) = omega (arith, length-float32_slice_to_bytes vec)

uint32-put_uint32 :
    (v : ℕ) → v < word → uint32 (v % 256) (v / 256 % 256) (v / 65536 % 256) (v / 16777216 % 256) ≡ v
uint32-put_uint32 v h = omega arith

read_words-float32_slice_to_bytes :
    (vec : List ℕ) → All (λ v. v < word) vec → read_words (float32_slice_to_bytes vec) ≡ vec
unfolding float32_slice_to_bytes read_words
read_words-float32_slice_to_bytes [] h = refl
read_words-float32_slice_to_bytes (v ∷ vec) (lt, h) =
    rw (uint32-put_uint32 v lt) (ap (◌∷◌ v) (read_words-float32_slice_to_bytes vec h))

-- A vector of float32 values is read back as it was stored.
pub bytes_to_float32_slice-float32_slice_to_bytes :
    (vec : List ℕ)
    → All (λ v. v < word) vec
    → bytes_to_float32_slice (float32_slice_to_bytes vec) ≡ some vec
unfolding bytes_to_float32_slice
bytes_to_float32_slice-float32_slice_to_bytes vec h =
    ground (arith, length-float32_slice_to_bytes vec, read_words-float32_slice_to_bytes vec h)

module _ (a b c d : ℕ) (pa : a < 256) (pb : b < 256) (pc : c < 256) (pd : d < 256) where
  byte0 : uint32 a b c d % 256 ≡ a
  byte0 = omega arith

  byte1 : uint32 a b c d / 256 % 256 ≡ b
  byte1 = omega arith

  byte2 : uint32 a b c d / 65536 % 256 ≡ c
  byte2 = omega arith

  byte3 : uint32 a b c d / 16777216 % 256 ≡ d
  byte3 = omega arith

encode-read :
    (buf : Text)
    → All (λ b. b < 256) buf
    → length buf % 4 ≡ 0
    → float32_slice_to_bytes (read_words buf) ≡ buf
unfolding float32_slice_to_bytes read_words
encode-read (a ∷ b ∷ c ∷ d ∷ buf) (pa, (pb, (pc, (pd, h)))) e = cc (
  byte0 a b c d pa pb pc pd,
  byte1 a b c d pa pb pc pd,
  byte2 a b c d pa pb pc pd,
  byte3 a b c d pa pb pc pd,
  encode-read buf h (omega arith),
)
encode-read [] h e = refl
encode-read (a ∷ []) h e = absurd (omega arith)
encode-read (a ∷ b ∷ []) h e = absurd (omega arith)
encode-read (a ∷ b ∷ c ∷ []) h e = absurd (omega arith)

-- A blob of bytes whose length is not a multiple of four is refused; any other is the encoding of
-- the vector that is read from it.
pub bytes_to_float32_slice_exact :
    (buf : Text)
    → All (λ b. b < 256) buf
    → ((length buf % 4 ≢ 0) × (bytes_to_float32_slice buf ≡ none))
      ⊎ ((vec : List ℕ) × (bytes_to_float32_slice buf ≡ some vec)
          × (float32_slice_to_bytes vec ≡ buf))
unfolding bytes_to_float32_slice
bytes_to_float32_slice_exact buf h = elim (Bool-cases (length buf % 4 == 0)) [
  | inl whole ↦ inr (read_words buf, ground arith, encode-read buf h (ground arith))
  | inr cut ↦ inl (ground arith, ground arith)
]
