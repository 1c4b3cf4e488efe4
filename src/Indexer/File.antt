-- ===== src/Indexer/File.antt =====
-- `IndexFile` of internal/indexer/indexer.go, over the database of `Db.Index`. `os.Stat` is an
-- argument, with the size and the time of a file; so is `extractText`.
use filesearch.Base.{
  ℕ, ◌≤◌, ◌*◌, ◌≡◌, ◌≢◌, sym, inl, inr, Bool-cases, ltb, ltb-false→le, [], ◌∷◌, ◌++◌, Text, codes,
  is_empty, base, ext, length, take, trim_space, ◌-◌, arith, if◌then◌else◌,
}
use filesearch.Base.Int.{ℤ}
use filesearch.Base.Result.{Result, ok, err, ◌>>=◌, wrap, wrap->>=-eq-ok}
use filesearch.Indexer.Policy.{max_file_size}
use filesearch.Db.Engine.{Engine, IsSql}
use filesearch.Db.Index.{upsert_with_mtime}
use filesearch.Db.Index.Reads.{Shows, upsert_with_mtime-Shows}
use filesearch.Db.Index.Consistent.{Consistent, upsert_with_mtime-Consistent}

-- strings.TrimSuffix(filename, filepath.Ext(filename))
abbrev pub name_without_ext : Text → Text
name_without_ext filename = take (length filename - length (ext filename)) filename

-- The text that is stored for a file: its name, its name without the extension, its content.
abbrev pub indexed_text : Text → Text → Text
indexed_text path content = base path ++ b'\n' ∷ (name_without_ext (base path) ++ b'\n' ∷ content)

module _ (e : Engine) (digest : Text → Text) (stat : Text → Result (ℕ × ℤ))
    (extract_text : Text → Result Text) where
  unfoldable pub index_content : e.State → Text → ℤ → Text → Result e.State
  index_content s path mtime content =
      if is_empty (trim_space (indexed_text path content))
      then ok s
      else upsert_with_mtime e digest s path (indexed_text path content) mtime

  unfoldable pub index_sized : e.State → Text → ℕ → ℤ → Result e.State
  unfolding index_content
  index_sized s path size mtime =
      if ltb max_file_size size
      then err (codes "file too large" ∷ [])
      else wrap (codes "extract") (extract_text path) >>= index_content s path mtime

  -- IndexFile(ctx, database, path)
  unfoldable pub index_file : e.State → Text → Result e.State
  unfolding index_sized
  index_file s path = do
    (size, mtime) ← wrap (codes "stat") (stat path)
    index_sized s path size mtime

  -- What a successful `IndexFile` went through.
  pub record WasIndexed (s t : e.State) (path : Text) : Type 0 where
    pub size : ℕ
    pub mtime : ℤ
    pub content : Text
    pub found : stat path ≡ ok (size, mtime)
    pub fits : size ≤ max_file_size
    pub extracted : extract_text path ≡ ok content
    pub stored : index_content s path mtime content ≡ ok t

  -- A successful `IndexFile` found a file that is not too large, got its text, and stored it.
  pub index_file-WasIndexed :
      (s t : e.State) (path : Text) → index_file s path ≡ ok t → WasIndexed s t path
  unfolding index_file
  index_file-WasIndexed s t path h =
      let ((size, mtime), found, h1) = wrap->>=-eq-ok (codes "stat") (stat path) _ h in
      elim (Bool-cases (ltb max_file_size size)) [
        | inl large ↦ absurd (ground (arith, h1, large))
        | inr fits ↦
            let (content, extracted, stored) =
              wrap->>=-eq-ok (codes "extract") (extract_text path) _ (rw fits at h1) in
            record {
              size = size;
              mtime = mtime;
              content = content;
              found = found;
              fits = ltb-false→le max_file_size size fits;
              extracted = extracted;
              stored = stored;
            }
      ]

  -- Where the statements do what SQL says, a successful `IndexFile` keeps the tables in
  -- agreement.
  pub index_file-Consistent :
      (sql : IsSql e) (s t : e.State) (path : Text)
      → index_file s path ≡ ok t
      → Consistent e digest s
      → Consistent e digest t
  unfolding index_content
  index_file-Consistent sql s t path h k =
      let w = index_file-WasIndexed s t path h in
      elim (Bool-cases (is_empty (trim_space (indexed_text path w.content)))) [
        | inl blank ↦ ground (arith, blank, w.stored, k)
        | inr text ↦
            upsert_with_mtime-Consistent e digest sql s t path (indexed_text path w.content) w.mtime
              (rw text at w.stored) k
      ]

  -- Where the statements do what SQL says and the tables agree, a successful `IndexFile` of a
  -- file with a given size and text means that the size is at most 50 MB, and leaves tables that
  -- agree, in which the path has a document with the hash of its name, its name without the
  -- extension and its text, on lines of their own; where these are all blanks it changes nothing.
  -- The digest of a text is not empty.
  pub index_file-Shows :
      (sql : IsSql e) (s t : e.State) (path content : Text) (size : ℕ) (mtime : ℤ)
      → ((c : Text) → digest c ≢ [])
      → Consistent e digest s
      → stat path ≡ ok (size, mtime)
      → extract_text path ≡ ok content
      → index_file s path ≡ ok t
      → let text = base path ++ b'\n' ∷ (name_without_ext (base path) ++ b'\n' ∷ content) in
        (size ≤ 50 * 1024 * 1024)
        × Consistent e digest t
        × (if is_empty (trim_space text) then t ≡ s else Shows e sql digest t path text)
  unfolding index_content
  index_file-Shows sql s t path content size mtime hashes k found extracted h =
      let w = index_file-WasIndexed s t path h in
      let same_size : w.size ≡ size = cc (w.found, found) in
      let same_content : w.content ≡ content = cc (w.extracted, extracted) in
      let stored : index_content s path w.mtime content ≡ ok t = rw (sym same_content) w.stored in
      (
        rw (sym same_size) w.fits,
        index_file-Consistent sql s t path h k,
        elim (Bool-cases (is_empty (trim_space (indexed_text path content)))) [
          | inl blank ↦ rw blank (ground (arith, blank, stored))
          | inr text ↦ rw text (
              upsert_with_mtime-Shows e sql digest s t path (indexed_text path content) w.mtime
                (hashes (indexed_text path content)) k (rw text at stored))
        ],
      )
