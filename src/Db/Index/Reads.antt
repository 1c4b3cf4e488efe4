-- ===== src/Db/Index/Reads.antt =====
-- What can be read after an `UpsertWithMtime` of internal/db/db.go.
use filesearch.Base.{
  ◌≡◌, ◌≢◌, inl, inr, refl, sym, ap, ◌∙◌, some, [], ◌∷◌, Text, text_eq_iff, text_eq_refl, arith,
}
use filesearch.Base.Int.{ℤ}
use filesearch.Base.Result.{ok}
use filesearch.Db.Engine.{Engine, IsSql, FileRow}
use filesearch.Db.Index.{content_hash, hex_encode, upsert_with_mtime}
use filesearch.Db.Index.Writes.{
  Stored, SameRows, Upserted, unchanged, replaced, added, upsert_with_mtime-Upserted,
}
use filesearch.Db.Index.Consistent.{Consistent}

module _ (e : Engine) (sql : IsSql e) (digest : Text → Text) where
  -- The document of a path.
  pub record Shows (t : e.State) (path content : Text) : Type 0 where
    pub row : FileRow
    pub at : e.file_row t path ≡ some row
    pub shown : Text
    pub document : e.document t row.doc_rowid ≡ some (path, shown)
    pub same : content_hash e digest shown ≡ content_hash e digest content

  hex_ne : (bytes : Text) → bytes ≢ [] → hex_encode bytes ≢ []
  unfolding hex_encode
  hex_ne [] ne = absurd (ne refl)
  hex_ne (b ∷ bytes) ne = cc

  Stored-Shows :
      (s t : e.State) (path content : Text) (mtime : ℤ)
      → Stored e digest s t path content mtime
      → Shows t path content
  Stored-Shows s t path content mtime st = record {
    row = record { doc_rowid = st.rowid; hash = content_hash e digest content; mtime = mtime };
    at = ground (arith, st.files path, text_eq_refl path);
    shown = content;
    document = ground (arith, st.documents st.rowid);
    same = refl;
  }

  unchanged_Shows :
      (s t : e.State) (path content : Text) (f : FileRow)
      → digest content ≢ []
      → Consistent e digest s
      → e.file_row s path ≡ some f
      → f.hash ≡ content_hash e digest content
      → SameRows e s t
      → Shows t path content
  unchanged_Shows s t path content f ne k row hash same =
      let (c, doc) = k.filed path f row in
      record {
        row = f;
        at = same.files path ∙ row;
        shown = c;
        document = same.documents f.doc_rowid ∙ doc;
        same = known c doc;
      }
    where
      known :
          (c : Text)
          → e.document s f.doc_rowid ≡ some (path, c)
          → content_hash e digest c ≡ content_hash e digest content
      known c doc =
          let ix = k.indexed f.doc_rowid path c doc in
          let mine : ix.row ≡ f = cc (ix.at, row) in
          elim ix.hash [
            | inl old ↦ absurd (
                hex_ne (digest content) ne
                  (sym hash ∙ sym (ap (λ (g : FileRow). g.hash) mine) ∙ old))
            | inr now ↦ sym now ∙ ap (λ (g : FileRow). g.hash) mine ∙ hash
          ]

  -- After a successful `UpsertWithMtime` on tables that agree, the path has a document whose
  -- content has the hash of the given one, where the digest of the content is not empty.
  pub upsert_with_mtime-Shows :
      (s t : e.State) (path content : Text) (mtime : ℤ)
      → digest content ≢ []
      → Consistent e digest s
      → upsert_with_mtime e digest s path content mtime ≡ ok t
      → Shows t path content
  upsert_with_mtime-Shows s t path content mtime ne k h =
      go (upsert_with_mtime-Upserted e sql digest s t path content mtime h)
    where
      go : Upserted e sql digest s t path content mtime → Shows t path content
      go (unchanged f row hash same) = unchanged_Shows s t path content f ne k row hash same
      go (replaced f u row hash gone st) = Stored-Shows u t path content mtime st
      go (added miss st) = Stored-Shows s t path content mtime st

  -- A successful `UpsertWithMtime` leaves the rows of the other paths alone.
  pub upsert_with_mtime_other :
      (s t : e.State) (path content other : Text) (mtime : ℤ)
      → path ≢ other
      → upsert_with_mtime e digest s path content mtime ≡ ok t
      → e.file_row t other ≡ e.file_row s other
  upsert_with_mtime_other s t path content other mtime ne h =
      go (upsert_with_mtime-Upserted e sql digest s t path content mtime h)
    where
      go : Upserted e sql digest s t path content mtime → e.file_row t other ≡ e.file_row s other
      go (unchanged f row hash same) = same.files other
      go (replaced f u row hash gone st) =
          ground (arith, st.files other, gone.files other, text_eq_iff path other)
      go (added miss st) = ground (arith, st.files other, text_eq_iff path other)

  -- Where the stored hash is that of the given content, a successful `UpsertWithMtime` changes no
  -- row: the path keeps its modification time, whatever the new one is.
  pub upsert_with_mtime_unchanged :
      (s t : e.State) (path content : Text) (mtime : ℤ) (f : FileRow)
      → e.file_row s path ≡ some f
      → f.hash ≡ content_hash e digest content
      → upsert_with_mtime e digest s path content mtime ≡ ok t
      → (e.file_row t path ≡ some f) × SameRows e s t
  upsert_with_mtime_unchanged s t path content mtime f row hash h =
      go (upsert_with_mtime-Upserted e sql digest s t path content mtime h)
    where
      go :
          Upserted e sql digest s t path content mtime
          → (e.file_row t path ≡ some f) × SameRows e s t
      go (unchanged g at eq same) = (same.files path ∙ row, same)
      go (replaced g u at ne gone st) = absurd (ne (cc (at, row, hash)))
      go (added miss st) = cc
