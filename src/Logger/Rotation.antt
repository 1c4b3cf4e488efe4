-- ===== src/Logger/Rotation.antt =====
-- The sizes and the backups of the log of internal/logger/logger.go.
use filesearch.Base.{
  All, ℕ, ◌+◌, ◌≤◌, ◌⊎◌, inl, inr, Bool-cases, ltb, ltb-false→le, Option-cases, List, [], ◌∷◌, Text,
  length, arith,
}
use filesearch.Logger.{max_log_size, LogSystem, RotatingWriter, rotate, append, write}

-- The larger of the limit and the length of a text.
abbrev pub IsWithin : ℕ → ℕ → Type 0
IsWithin bound size = (size ≤ max_log_size) ⊎ (size ≤ bound)

module _ (os : LogSystem) where
  -- What io.Writer promises: no more bytes are written than there are.
  abbrev pub WritesAtMost : Type 0
  WritesAtMost = (s : os.State) (f : os.File) (p : Text) → (os.write_file s f p).1 ≤ length p

  le_trans : (a b c d : ℕ) → a ≤ b + c → b + c ≤ d → a ≤ d
  le_trans a b c d h k = omega arith

  zero_le : (n bound : ℕ) → n ≤ bound → 0 + n ≤ bound
  zero_le n bound h = omega arith

  grows : (size n m : ℕ) → n ≤ m → size + n ≤ size + m
  grows size n m h = omega arith

  append-size :
      (promise : WritesAtMost) (s : os.State) (w : RotatingWriter os) (p : Text)
      → (append os s w p).1.size ≤ w.size + length p
  append-size promise s w p = elim (Option-cases w.file) [
    | inl closed ↦ rw (append, closed) (ground arith)
    | inr (f, opened) ↦
        rw (append, opened) (grows w.size (os.write_file s f p).1 (length p) (promise s f p))
  ]

  write-IsWithin :
      (promise : WritesAtMost) (bound : ℕ) (s : os.State) (w : RotatingWriter os) (p : Text)
      → IsWithin bound w.size
      → length p ≤ bound
      → IsWithin bound (write os s w p).1.size
  unfolding write rotate
  write-IsWithin promise bound s w p within short =
      elim (Bool-cases (ltb max_log_size (w.size + length p))) [
        | inl full ↦
            let grown = append-size promise (rotate os s w).0 (rotate os s w).1 p in
            rw (write, full)
              (inr (
                le_trans (append os (rotate os s w).0 (rotate os s w).1 p).1.size 0 (length p) bound
                  grown (zero_le (length p) bound short)))
        | inr fits ↦
            let grown = append-size promise s w p in
            let room = ltb-false→le max_log_size (w.size + length p) fits in
            rw (write, fits)
              (inl (le_trans (append os s w p).1.size w.size (length p) max_log_size grown room))
      ]

  -- The writer after texts, written one after the other.
  abbrev pub write_all : os.State → RotatingWriter os → List Text → os.State × RotatingWriter os
  write_all s w [] = (s, w)
  write_all s w (p ∷ ps) = let (t, v, n, failed) = write os s w p in write_all t v ps

  -- The size that the writer counts stays at most 10 MB, or at most the length of the longest
  -- text where that is more, through any number of writes and rotations, whatever calls fail, if
  -- it was before.
  pub write_all-IsWithin :
      (promise : WritesAtMost) (bound : ℕ) (s : os.State) (w : RotatingWriter os) (ps : List Text)
      → IsWithin bound w.size
      → All (λ p. length p ≤ bound) ps
      → IsWithin bound (write_all s w ps).1.size
  write_all-IsWithin promise bound s w [] within short = within
  write_all-IsWithin promise bound s w (p ∷ ps) within (one, short) =
      write_all-IsWithin promise bound (write os s w p).0 (write os s w p).1 ps
        (write-IsWithin promise bound s w p within one) short
