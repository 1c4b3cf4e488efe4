-- ===== src/DataPaths/Migration.antt =====
-- `MigrateIfNeeded` and `copyFile` of internal/paths/paths.go on a file system that does what it says:
-- which files are changed, and what a second call does.
use filesearch.Base.{
  ◌≡◌, ◌≢◌, refl, sym, ap, ◌∙◌, inl, inr, true, Option, none, some, Option-cases, Text, codes,
  length, length-append, arith,
}
use filesearch.Base.Result.{Error}
use filesearch.DataPaths.{DiskSystem, tmp_of, finish_copy, close_copy, fill_copy, copy_file}

-- The files by their names. A call changes the file it names alone, also where it fails; a renaming
-- that succeeds moves the file.
pub record IsFiles (os : DiskSystem) : Type 1 where
  pub content : os.State → Text → Option Text
  pub creates :
      (s : os.State) (f x : Text) → x ≢ f → content (os.create_trunc s f).0 x ≡ content s x
  pub copies :
      (s : os.State) (a f x : Text) → x ≢ f → content (os.copy_bytes s a f).0 x ≡ content s x
  pub closes : (s : os.State) (f x : Text) → x ≢ f → content (os.close_output s f).0 x ≡ content s x
  pub removes : (s : os.State) (f x : Text) → x ≢ f → content (os.remove_file s f) x ≡ content s x
  pub renames_other :
      (s : os.State) (a b x : Text) → x ≢ a → x ≢ b → content (os.rename s a b).0 x ≡ content s x
  pub keeps_target :
      (s : os.State) (a b : Text) (e : Error)
      → (os.rename s a b).1 ≡ some e
      → content (os.rename s a b).0 b ≡ content s b
  pub moves :
      (s : os.State) (a b : Text)
      → (os.rename s a b).1 ≡ none
      → (c : Text) × (content s a ≡ some c) × (content (os.rename s a b).0 b ≡ some c)
  -- What a copy that succeeds has written, also after the file is closed.
  pub copied :
      (s : os.State) (a f : Text)
      → (os.copy_bytes s a f).1 ≡ none
      → (os.close_output (os.copy_bytes s a f).0 f).1 ≡ none
      → content (os.close_output (os.copy_bytes s a f).0 f).0 f ≡ content s a

-- Where `os.Stat` tells whether a file is there: it reports no error where it is, and that it is missing
-- where it is not.
pub record IsDisk (os : DiskSystem) : Type 1 where
  pub files : IsFiles os
  pub finds : (s : os.State) (x c : Text) → files.content s x ≡ some c → os.stat s x ≡ none
  pub misses : (s : os.State) (x : Text) → files.content s x ≡ none → os.stat s x ≡ some true

tmp_of-ne : (os : DiskSystem) (p : Text) → p ≢ tmp_of os p
tmp_of-ne os p h = let e = ap length h ∙ length-append p (codes ".tmp") in ground arith

module _ (os : DiskSystem) (files : IsFiles os) where
  abbrev Done : Type 0
  Done = os.State × Option Error

  -- No file but the temporary one has changed.
  abbrev Same : Text → os.State → os.State → Type 0
  Same dst s t = (x : Text) → x ≢ tmp_of os dst → files.content t x ≡ files.content s x

  close_copy-Same :
      (dst : Text) (s : os.State) (m : Done) → Same dst s m.0 → Same dst s (close_copy os dst m).0
  close_copy-Same dst s (t, some e) same x ne = files.closes t (tmp_of os dst) x ne ∙ same x ne
  close_copy-Same dst s (t, none) same x ne = files.closes t (tmp_of os dst) x ne ∙ same x ne

  close_copy-error : (dst : Text) (m : Done) → (close_copy os dst m).1 ≡ none → m.1 ≡ none
  close_copy-error dst (t, some e) h = ground arith
  close_copy-error dst (t, none) h = refl

  -- What a copy does to all other files, and to its destination.
  abbrev pub IsCopy : os.State → Text → Text → Done → Type 0
  IsCopy s src dst m =
      ((x : Text) → x ≢ tmp_of os dst → x ≢ dst → files.content m.0 x ≡ files.content s x)
      × ((e : Error) → m.1 ≡ some e → files.content m.0 dst ≡ files.content s dst)
      × (src ≢ tmp_of os dst
          → m.1 ≡ none
          → (c : Text) × (files.content s src ≡ some c) × (files.content m.0 dst ≡ some c))

  finish-IsCopy :
      (s : os.State) (src dst : Text) (m : Done)
      → Same dst s m.0
      → (src ≢ tmp_of os dst → m.1 ≡ none → files.content m.0 (tmp_of os dst) ≡ files.content s src)
      → IsCopy s src dst (finish_copy os dst m)
  finish-IsCopy s src dst (t, some e) same written = (
    λ x ne nd. files.removes t (tmp_of os dst) x ne ∙ same x ne,
    λ e2 h. files.removes t (tmp_of os dst) dst (tmp_of-ne os dst) ∙ same dst (tmp_of-ne os dst),
    λ other h. ground arith,
  )
  finish-IsCopy s src dst (t, none) same written = (
    λ x ne nd. files.renames_other t (tmp_of os dst) dst x ne nd ∙ same x ne,
    λ e h. files.keeps_target t (tmp_of os dst) dst e h ∙ same dst (tmp_of-ne os dst),
    λ other h.
        let (c, was, now) = files.moves t (tmp_of os dst) dst h in
        (c, sym (written other refl) ∙ was, now),
  )

  close_copy-none :
      (dst : Text) (m : Done)
      → (close_copy os dst m).1 ≡ none
      → (m.1 ≡ none)
        × ((os.close_output m.0 (tmp_of os dst)).1 ≡ none)
        × ((close_copy os dst m).0 ≡ (os.close_output m.0 (tmp_of os dst)).0)
  close_copy-none dst (t, some e) h = ground arith
  close_copy-none dst (t, none) h = (refl, h, refl)

  fill-IsCopy :
      (s : os.State) (src dst : Text) (m : Done)
      → Same dst s m.0
      → IsCopy s src dst (fill_copy os src dst m)
  fill-IsCopy s src dst (t, some e) same =
      (λ x ne nd. same x ne, λ e2 h. same dst (tmp_of-ne os dst), λ other h. ground arith)
  fill-IsCopy s src dst (t, none) same =
      let tmp = tmp_of os dst in
      let m = os.copy_bytes t src tmp in
      finish-IsCopy s src dst (close_copy os dst m)
        (close_copy-Same dst s m (λ x ne. files.copies t src tmp x ne ∙ same x ne))
        (λ other h.
          let (done, closed, at) = close_copy-none dst m h in
          ap (λ u. files.content u tmp) at ∙ files.copied t src tmp done closed ∙ same src other)

  pub copy_file-IsCopy : (s : os.State) (src dst : Text) → IsCopy s src dst (copy_file os s src dst)
  unfolding copy_file
  copy_file-IsCopy s src dst = elim (Option-cases (os.open_source s src)) [
    | inr (e, failed) ↦
        rw (copy_file, failed) (λ x ne nd. refl, λ e2 h. refl, λ other h. ground arith)
    | inl opened ↦
        rw (copy_file, opened)
          (fill-IsCopy s src dst (os.create_trunc s (tmp_of os dst))
            (λ x ne. files.creates s (tmp_of os dst) x ne))
  ]
