-- ===== src/Db/Index/Consistent.antt =====
-- The two tables of internal/db/db.go agree, and every write keeps it so.
use filesearch.Base.{
  ℕ, ◌==◌, ◌≡◌, ◌≢◌, ◌⊎◌, inl, inr, sym, ap, ◌∙◌, false, none, some, [], Text, text_eq, text_eq_iff,
  text_eq_refl, Bool-cases, arith,
}
use filesearch.Base.Int.{ℤ}
use filesearch.Base.Result.{ok}
use filesearch.Db.Engine.{Engine, IsSql, FileRow}
use filesearch.Db.Index.{content_hash, upsert_with_mtime, delete}
use filesearch.Db.Index.Writes.{
  Stored, SameRows, Dropped, Deleted, Upserted, unchanged, replaced, added,
  upsert_with_mtime-Upserted, delete-Deleted,
}

module _ (e : Engine) (digest : Text → Text) where
  -- The path's row names the rowid, under no hash (a row of an older schema) or the content's.
  pub record Indexed (s : e.State) (r : ℕ) (p c : Text) : Type 0 where
    pub row : FileRow
    pub at : e.file_row s p ≡ some row
    pub rowid : row.doc_rowid ≡ r
    pub hash : (row.hash ≡ []) ⊎ (row.hash ≡ content_hash e digest c)

  -- Every path has its document, and every document is the one of its path.
  pub record Consistent (s : e.State) : Type 0 where
    pub filed :
        (p : Text) (f : FileRow)
        → e.file_row s p ≡ some f
        → (c : Text) × (e.document s f.doc_rowid ≡ some (p, c))
    pub indexed : (r : ℕ) (p c : Text) → e.document s r ≡ some (p, c) → Indexed s r p c

  -- The same, but for one path, which has no document.
  record ConsistentBut (path : Text) (s : e.State) : Type 0 where
    filed :
        (p : Text) (f : FileRow)
        → path ≢ p
        → e.file_row s p ≡ some f
        → (c : Text) × (e.document s f.doc_rowid ≡ some (p, c))
    indexed : (r : ℕ) (p c : Text) → e.document s r ≡ some (p, c) → (path ≢ p) × Indexed s r p c

  ne_of : (path p : Text) → text_eq path p ≡ false → path ≢ p
  ne_of path p other same = cc ((text_eq_iff path p).1 same, other)

  Stored-filed :
      (s t : e.State) (path content : Text) (mtime : ℤ)
      → ConsistentBut path s
      → Stored e digest s t path content mtime
      → (p : Text) (f : FileRow) → e.file_row t p ≡ some f
      → (c : Text) × (e.document t f.doc_rowid ≡ some (p, c))
  Stored-filed s t path content mtime k st p f row = elim (Bool-cases (text_eq path p)) [
    | inl same ↦ (content, ground (arith, st.files p, st.documents f.doc_rowid, text_eq_iff path p))
    | inr other ↦
        let (c, doc) = k.filed p f (ne_of path p other) (ground (arith, st.files p)) in
        (c, ground (arith, st.documents f.doc_rowid, st.free, doc))
  ]

  Stored-Indexed :
      (s t : e.State) (path content : Text) (mtime : ℤ)
      → ConsistentBut path s
      → Stored e digest s t path content mtime
      → (r : ℕ) (p c : Text) → e.document t r ≡ some (p, c)
      → Indexed t r p c
  Stored-Indexed s t path content mtime k st r p c doc = elim (Bool-cases (st.rowid == r)) [
    | inl same ↦ record {
      row = record { doc_rowid = st.rowid; hash = content_hash e digest content; mtime = mtime };
      at = ground (arith, st.files p, st.documents r, text_eq_iff path p);
      rowid = ground arith;
      hash = inr (ap (content_hash e digest) (ground (arith, st.documents r)));
    }
    | inr other ↦
        let (ne, ix) = k.indexed r p c (ground (arith, st.documents r)) in
        record {
          row = ix.row;
          at = ground (arith, st.files p, ix.at, ne, text_eq_iff path p);
          rowid = ix.rowid;
          hash = ix.hash;
        }
  ]

  Stored-Consistent :
      (s t : e.State) (path content : Text) (mtime : ℤ)
      → ConsistentBut path s
      → Stored e digest s t path content mtime
      → Consistent t
  Stored-Consistent s t path content mtime k st = record {
    filed = Stored-filed s t path content mtime k st;
    indexed = Stored-Indexed s t path content mtime k st;
  }

  same_Consistent : (s t : e.State) → SameRows e s t → Consistent s → Consistent t
  same_Consistent s t same k = record {
    filed = λ p f row.
        let (c, doc) = k.filed p f (sym (same.files p) ∙ row) in
        (c, same.documents f.doc_rowid ∙ doc);
    indexed = λ r p c doc.
        let ix = k.indexed r p c (sym (same.documents r) ∙ doc) in
        record { row = ix.row; at = same.files p ∙ ix.at; rowid = ix.rowid; hash = ix.hash };
  }

  -- Without the document of a path, the tables agree on the others.
  module _ (s u : e.State) (path : Text) (f : FileRow) (row : e.file_row s path ≡ some f)
      (k : Consistent s) (gone : Dropped e s u f.doc_rowid) where
    Dropped-filed :
        (p : Text) (g : FileRow)
        → path ≢ p
        → e.file_row u p ≡ some g
        → (c : Text) × (e.document u g.doc_rowid ≡ some (p, c))
    Dropped-filed p g ne at =
        let (c, doc) = k.filed p g (sym (gone.files p) ∙ at) in
        let (c', doc') = k.filed path f row in
        (c, ground (arith, gone.documents g.doc_rowid, doc, doc'))

    dropped-Indexed :
        (r : ℕ) (p c : Text) → e.document u r ≡ some (p, c) → (path ≢ p) × Indexed u r p c
    dropped-Indexed r p c doc =
        let ix = k.indexed r p c (ground (arith, gone.documents r)) in
        (
          (λ same. ground (arith, ap (e.file_row s) same, row, ix.at, ix.rowid, gone.documents r)),
          record { row = ix.row; at = gone.files p ∙ ix.at; rowid = ix.rowid; hash = ix.hash },
        )

    dropped_ConsistentBut : ConsistentBut path u
    dropped_ConsistentBut = record { filed = Dropped-filed; indexed = dropped-Indexed }

  added_ConsistentBut :
      (s : e.State) (path : Text) → e.file_row s path ≡ none → Consistent s → ConsistentBut path s
  added_ConsistentBut s path miss k = record {
    filed = λ p f ne row. k.filed p f row;
    indexed = λ r p c doc.
        let ix = k.indexed r p c doc in ((λ same. cc (ap (e.file_row s) same, ix.at)), ix);
  }

  Upserted-Consistent :
      (sql : IsSql e) (s t : e.State) (path content : Text) (mtime : ℤ)
      → Upserted e sql digest s t path content mtime
      → Consistent s
      → Consistent t
  Upserted-Consistent sql s t path content mtime (unchanged f row hash same) k =
      same_Consistent s t same k
  Upserted-Consistent sql s t path content mtime (replaced f u row hash gone st) k =
      Stored-Consistent u t path content mtime (dropped_ConsistentBut s u path f row k gone) st
  Upserted-Consistent sql s t path content mtime (added miss st) k =
      Stored-Consistent s t path content mtime (added_ConsistentBut s path miss k) st

  -- Where the statements do what SQL says, a successful `UpsertWithMtime` keeps the tables
  -- `files` and `documents` in agreement: every path has its document, and every document is that
  -- of its path.
  pub upsert_with_mtime-Consistent :
      (sql : IsSql e) (s t : e.State) (path content : Text) (mtime : ℤ)
      → upsert_with_mtime e digest s path content mtime ≡ ok t
      → Consistent s
      → Consistent t
  upsert_with_mtime-Consistent sql s t path content mtime h =
      Upserted-Consistent sql s t path content mtime
        (upsert_with_mtime-Upserted e sql digest s t path content mtime h)

  no_document :
      (t : e.State) (path : Text)
      → Consistent t
      → e.file_row t path ≡ none
      → (r : ℕ) (c : Text) → e.document t r ≢ some (path, c)
  no_document t path k miss r c doc = cc ((k.indexed r path c doc).at, miss)

  Deleted-Consistent :
      (s t : e.State) (path : Text) (f : FileRow)
      → e.file_row s path ≡ some f
      → Deleted e s t path f.doc_rowid
      → Consistent s
      → Consistent t
  Deleted-Consistent s t path f row gone k = record {
    filed = λ p g at.
        let (c, doc) = k.filed p g (ground (arith, gone.files p)) in
        let (c', doc') = k.filed path f row in
        (
          c,
          ground (arith, gone.files p, gone.documents g.doc_rowid, doc, doc', text_eq_iff path p),
        );
    indexed = λ r p c doc.
        let ix = k.indexed r p c (ground (arith, gone.documents r)) in
        record {
          row = ix.row;
          at = ground (
            arith,
            gone.files p,
            gone.documents r,
            ix.at,
            ix.rowid,
            row,
            text_eq_iff path p,
            ap (e.file_row s),
          );
          rowid = ix.rowid;
          hash = ix.hash;
        };
  }

  -- Where the statements do what SQL says, a successful `Delete` keeps the tables in agreement,
  -- and leaves neither the path nor a document of it.
  pub delete-Consistent :
      (sql : IsSql e) (s t : e.State) (path : Text)
      → delete e digest s path ≡ ok t
      → Consistent s
      → Consistent t
        × (e.file_row t path ≡ none)
        × ((r : ℕ) (c : Text) → e.document t r ≢ some (path, c))
  delete-Consistent sql s t path h k = elim (delete-Deleted e sql digest s t path h) [
    | inl (miss, same) ↦
        let kept = same_Consistent s t same k in
        let none_left = same.files path ∙ miss in
        (kept, none_left, no_document t path kept none_left)
    | inr (f, row, gone) ↦
        let kept = Deleted-Consistent s t path f row gone k in
        let none_left : e.file_row t path ≡ none =
          ground (arith, gone.files path, text_eq_refl path) in
        (kept, none_left, no_document t path kept none_left)
  ]
