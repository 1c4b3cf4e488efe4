-- ===== src/Logger/Backups.antt =====
-- Where the bytes of the log of internal/logger/logger.go go when it rotates, on a file system whose
-- calls succeed.
use mathlib.Core.List.{append_cancel_left}
use filesearch.Base.{
  ℕ, ◌+◌, ◌≡◌, ◌≢◌, refl, sym, ap, ◌∙◌, inl, inr, true, ltb, Option, none, some, Option-cases, [],
  ◌∷◌, ◌++◌, Text, codes, text_eq_ne, length, length-append, decimal, arith,
}
use filesearch.Base.Result.{ok}
use filesearch.Logger.{
  max_log_size, LogSystem, RotatingWriter, backup, close_current, reopen, rotate, append, write,
}

-- A file system on which no call of the rotation fails: the files by their names, and the name at
-- which the file of a handle is. Renaming a file that is not there changes nothing.
pub record IsReliable (os : LogSystem) : Type 1 where
  pub content : os.State → Text → Option Text
  pub named : os.State → os.File → Option Text
  pub closes : (s : os.State) (f : os.File) (x : Text) → content (os.close_file s f) x ≡ content s x
  pub renames :
      (s : os.State) (a b c : Text)
      → a ≢ b
      → content s a ≡ some c
      → (content (os.rename s a b) b ≡ some c) × (content (os.rename s a b) a ≡ none)
  pub renames_missing :
      (s : os.State) (a b x : Text) → content s a ≡ none → content (os.rename s a b) x ≡ content s x
  pub renames_other :
      (s : os.State) (a b x : Text) → x ≢ a → x ≢ b → content (os.rename s a b) x ≡ content s x
  pub truncs :
      (s : os.State) (path : Text)
      → (t : os.State) × (f : os.File) × (os.open_trunc s path ≡ ok (t, f))
        × (named t f ≡ some path)
        × (content t path ≡ some [])
        × ((x : Text) → x ≢ path → content t x ≡ content s x)
  pub writes :
      (s : os.State) (f : os.File) (p path old : Text)
      → named s f ≡ some path
      → content s path ≡ some old
      → (t : os.State) × (os.write_file s f p ≡ (t, length p, none))
        × (content t path ≡ some (old ++ p))
        × ((x : Text) → x ≢ path → content t x ≡ content s x)

append-ne : (p : Text) (c : ℕ) (t : Text) → p ≢ p ++ c ∷ t
append-ne p c t h = let e = ap length h ∙ length-append p (c ∷ t) in ground arith

backups-ne : (p s t : Text) → s ≢ t → p ++ s ≢ p ++ t
backups-ne p s t ne h = ne (append_cancel_left p s t h)

-- The first of two.
abbrev pub or_else : Option Text → Option Text → Option Text
or_else none o = o
or_else (some c) o = some c

module _ (os : LogSystem) (fs : IsReliable os) where
  -- The names after a renaming.
  moved :
      (s : os.State) (a b : Text)
      → a ≢ b
      → (fs.content (os.rename s a b) b ≡ or_else (fs.content s a) (fs.content s b))
        × (fs.content (os.rename s a b) a ≡ none)
  moved s a b ne = elim (Option-cases (fs.content s a)) [
    | inl missing ↦
        rw missing
          (fs.renames_missing s a b b missing, fs.renames_missing s a b a missing ∙ missing)
    | inr (c, found) ↦ rw found (fs.renames s a b c ne found)
  ]

  closed :
      (s : os.State) (file : Option os.File) (x : Text)
      → fs.content (close_current os s file) x ≡ fs.content s x
  closed s none x = refl
  closed s (some f) x = fs.closes s f x

  -- The three renamings on their names, which differ.
  shifted :
      (s : os.State) (path one two three : Text)
      → path ≢ one
      → path ≢ two
      → path ≢ three
      → one ≢ two
      → one ≢ three
      → two ≢ three
      → let t = os.rename (os.rename (os.rename s two three) one two) path one in
        (fs.content t one ≡ fs.content s path)
        × (fs.content t two ≡ fs.content s one)
        × (fs.content t three ≡ or_else (fs.content s two) (fs.content s three))
  shifted s path one two three p1 p2 p3 n12 n13 n23 =
      let s1 = os.rename s two three in
      let s2 = os.rename s1 one two in
      let (three_1, two_1) = moved s two three n23 in
      let (two_2, one_2) = moved s1 one two n12 in
      let (one_3, path_3) = moved s2 path one p1 in
      let one_1 = fs.renames_other s two three one n12 n13 in
      let path_1 = fs.renames_other s two three path p2 p3 in
      let path_2 = fs.renames_other s1 one two path p1 p2 ∙ path_1 in
      let three_2 =
        fs.renames_other s1 one two three (λ e. n13 (sym e)) (λ e. n23 (sym e)) ∙ three_1 in
      let three_3 =
        fs.renames_other s2 path one three (λ e. p3 (sym e)) (λ e. n13 (sym e)) ∙ three_2 in
      let two_3 = fs.renames_other s2 path one two (λ e. p2 (sym e)) (λ e. n12 (sym e)) ∙ two_2 in
      (
        one_3 ∙ rw (path_2, one_2) (or_else-none (fs.content s path)),
        two_3 ∙ rw (one_1, two_1) (or_else-none (fs.content s one)),
        three_3,
      )
    where
      or_else-none : (o : Option Text) → or_else o none ≡ o
      or_else-none none = refl
      or_else-none (some c) = refl

  reopened :
      (s t : os.State) (f : os.File) (path : Text)
      → os.open_trunc s path ≡ ok (t, f)
      → reopen os s path ≡ (t, some f)
  reopened s t f path h = rw (reopen, h) refl

  appended :
      (t u : os.State) (f : os.File) (path p : Text) (size n : ℕ)
      → os.write_file t f p ≡ (u, n, none)
      → append os t (record { path = path; file = some f; size = size }) p
        ≡ (u, record { path = path; file = some f; size = size + n }, n, none)
  appended t u f path p size n h = rw (append, h) refl

  write-full :
      (s : os.State) (w : RotatingWriter os) (p : Text)
      → ltb max_log_size (w.size + length p) ≡ true
      → write os s w p ≡ append os (rotate os s w).0 (rotate os s w).1 p
  unfolding write
  write-full s w p full = rw (write, full) refl

  -- On a file system whose calls succeed, a write that does not fit starts a new file with just
  -- its bytes: the file before becomes the first backup, the first the second, and the second,
  -- where there is one, the third; the third is lost then.
  pub write-shifts :
      (s : os.State) (w : RotatingWriter os) (p : Text)
      → ltb max_log_size (w.size + length p) ≡ true
      → (t : os.State) × (v : RotatingWriter os) × (write os s w p ≡ (t, v, length p, none))
        × (v.size ≡ length p)
        × (fs.content t w.path ≡ some p)
        × (fs.content t (backup os w.path 1) ≡ fs.content s w.path)
        × (fs.content t (backup os w.path 2) ≡ fs.content s (backup os w.path 1))
        × (fs.content t (backup os w.path 3)
            ≡ or_else (fs.content s (backup os w.path 2)) (fs.content s (backup os w.path 3)))
  unfolding write rotate decimal
  write-shifts s w p full =
      let path = w.path in
      let one = backup os path 1 in
      let two = backup os path 2 in
      let three = backup os path 3 in
      let s0 = close_current os s w.file in
      let s3 = os.rename (os.rename (os.rename s0 two three) one two) path one in
      let p1 = append-ne path b'.' (decimal 1) in
      let p2 = append-ne path b'.' (decimal 2) in
      let p3 = append-ne path b'.' (decimal 3) in
      let (to_one, to_two, to_three) =
        shifted s0 path one two three p1 p2 p3
          (backups-ne path (codes ".1") (codes ".2") (text_eq_ne (codes ".1") (codes ".2") refl))
          (backups-ne path (codes ".1") (codes ".3") (text_eq_ne (codes ".1") (codes ".3") refl))
          (backups-ne path (codes ".2") (codes ".3") (text_eq_ne (codes ".2") (codes ".3") refl)) in
      let (t, f, opened, at, new, kept) = fs.truncs s3 path in
      let (u, wrote, holds, kept_2) = fs.writes t f p path [] at new in
      let same =
        λ (x : Text) (ne : path ≢ x). kept_2 x (λ e. ne (sym e)) ∙ kept x (λ e. ne (sym e)) in
      let same_0 = closed s w.file in
      (
        u,
        record { path = path; file = some f; size = 0 + length p },
        write-full s w p full
            ∙ ap
                (λ (r : os.State × Option os.File).
                  append os r.0 (record { path = path; file = r.1; size = 0 }) p)
                (reopened s3 t f path opened)
            ∙ appended t u f path p 0 (length p) wrote,
        zero_plus (length p),
        holds,
        same one p1 ∙ to_one ∙ same_0 path,
        same two p2 ∙ to_two ∙ same_0 one,
        same three p3 ∙ to_three ∙ rw (same_0 two, same_0 three) refl,
      )
    where
      zero_plus : (n : ℕ) → 0 + n ≡ n
      zero_plus n = omega arith
