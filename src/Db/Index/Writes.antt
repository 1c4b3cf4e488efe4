-- ===== src/Db/Index/Writes.antt =====
-- What the successful writes of internal/db/db.go do to the two tables.
use filesearch.Base.{
  ℕ, ◌==◌, ◌≡◌, ◌≢◌, ◌⊎◌, inl, inr, ap, ◌∙◌, subst, none, some, Text, codes, text_eq, text_eq_iff,
  Bool-cases, Option-cases, if◌then◌else◌,
}
use filesearch.Base.Int.{ℤ}
use filesearch.Base.Result.{ok, wrap->>=-eq-ok}
use filesearch.Db.Engine.{Engine, IsSql, FileRow, rowid_hash, rowid_of}
use filesearch.Db.Index.{
  content_hash, store_document, replace_document, upsert_with_mtime, delete_rows, delete,
}

-- The tables after a document was stored under a rowid that was free.
pub record Stored (e : Engine) (digest : Text → Text) (s t : e.State) (path content : Text)
    (mtime : ℤ) : Type 0 where
  pub rowid : ℕ
  pub free : e.document s rowid ≡ none
  pub files :
      (j : Text)
      → e.file_row t j ≡ (
          if text_eq path j
          then some
              (record { doc_rowid = rowid; hash = content_hash e digest content; mtime = mtime })
          else e.file_row s j)
  pub documents :
      (k : ℕ) → e.document t k ≡ (if rowid == k then some (path, content) else e.document s k)

-- The same rows.
pub record SameRows (e : Engine) (s t : e.State) : Type 0 where
  pub files : (j : Text) → e.file_row t j ≡ e.file_row s j
  pub documents : (k : ℕ) → e.document t k ≡ e.document s k

-- The tables without one document.
pub record Dropped (e : Engine) (s t : e.State) (rowid : ℕ) : Type 0 where
  pub files : (j : Text) → e.file_row t j ≡ e.file_row s j
  pub documents : (k : ℕ) → e.document t k ≡ (if rowid == k then none else e.document s k)

-- The tables without one document and its path.
pub record Deleted (e : Engine) (s t : e.State) (path : Text) (rowid : ℕ) : Type 0 where
  pub files : (j : Text) → e.file_row t j ≡ (if text_eq path j then none else e.file_row s j)
  pub documents : (k : ℕ) → e.document t k ≡ (if rowid == k then none else e.document s k)

module _ (e : Engine) (sql : IsSql e) (digest : Text → Text) where
  pub store_document-Stored :
      (s t : e.State) (path content : Text) (mtime : ℤ)
      → store_document e digest s path content mtime ≡ ok t
      → Stored e digest s t path content mtime
  unfolding store_document
  store_document-Stored s t path content mtime h =
      let ((s1, o), ins, h1) =
        wrap->>=-eq-ok (codes "db upsert insert") (e.insert_document s path content) _ h in
      let (r, new, h2) = wrap->>=-eq-ok (codes "db upsert rowid") o _ h1 in
      let row : FileRow = record {
        doc_rowid = r;
        hash = content_hash e digest content;
        mtime = mtime;
      } in
      let (s2, up, done) =
        wrap->>=-eq-ok (codes "db upsert files") (e.upsert_file s1 path row) _ h2 in
      let ins' : e.insert_document s path content ≡ ok (s1, ok r) =
        ins ∙ ap (λ x. ok (s1, x)) new in
      record {
        rowid = r;
        free = sql.insert_document_new s s1 path content r ins';
        files = λ j.
            sql.commit_file s2 t j done
            ∙ sql.upsert_file_lem s1 s2 path j row up
            ∙ ap (λ x. if text_eq path j then some row else x)
                (sql.insert_document_file s s1 path content j (ok r) ins');
        documents = λ k.
            sql.commit_document s2 t k done
            ∙ sql.upsert_file_document s1 s2 path row k up
            ∙ sql.insert_document_lem s s1 path content r k ins';
      }

  pub commit-SameRows : (s t : e.State) → e.commit s ≡ ok t → SameRows e s t
  commit-SameRows s t h = record {
    files = λ j. sql.commit_file s t j h;
    documents = λ k. sql.commit_document s t k h;
  }

  pub delete_document-Dropped :
      (s t : e.State) (r : ℕ) → e.delete_document s r ≡ ok t → Dropped e s t r
  delete_document-Dropped s t r h = record {
    files = λ j. sql.delete_document_file s t r j h;
    documents = λ k. sql.delete_document_lem s t r k h;
  }

  -- The three ways in which `UpsertWithMtime` succeeds.
  pub data Upserted (s t : e.State) (path content : Text) (mtime : ℤ) : Type 0 where
    unchanged :
        (f : FileRow)
        → e.file_row s path ≡ some f
        → f.hash ≡ content_hash e digest content
        → SameRows e s t
        → Upserted s t path content mtime
    replaced :
        (f : FileRow) (u : e.State)
        → e.file_row s path ≡ some f
        → f.hash ≢ content_hash e digest content
        → Dropped e s u f.doc_rowid
        → Stored e digest u t path content mtime
        → Upserted s t path content mtime
    added :
        e.file_row s path ≡ none
        → Stored e digest s t path content mtime
        → Upserted s t path content mtime

  replace_found :
      (s t : e.State) (path content : Text) (mtime : ℤ) (f : FileRow)
      → e.file_row s path ≡ some f
      → replace_document e digest s path content mtime (some (f.doc_rowid, f.hash)) ≡ ok t
      → Upserted s t path content mtime
  unfolding replace_document
  replace_found s t path content mtime f row h =
      elim (Bool-cases (text_eq f.hash (content_hash e digest content))) [
        | inl same ↦
            unchanged f row ((text_eq_iff f.hash (content_hash e digest content)).0 same)
              (commit-SameRows s t (rw same at h))
        | inr other ↦
            let (u, gone, stored) =
              wrap->>=-eq-ok (codes "db upsert delete doc") (e.delete_document s f.doc_rowid) _
                (rw other at h) in
            replaced f u row
              (λ same. cc ((text_eq_iff f.hash (content_hash e digest content)).1 same, other))
              (delete_document-Dropped s u f.doc_rowid gone)
              (store_document-Stored u t path content mtime stored)
      ]

  -- A successful `UpsertWithMtime` leaves equal content alone, or replaces the document of the
  -- path, or adds one.
  pub upsert_with_mtime-Upserted :
      (s t : e.State) (path content : Text) (mtime : ℤ)
      → upsert_with_mtime e digest s path content mtime ≡ ok t
      → Upserted s t path content mtime
  unfolding upsert_with_mtime replace_document
  upsert_with_mtime-Upserted s t path content mtime h =
      let (_, began, h1) = wrap->>=-eq-ok (codes "db upsert begin") (e.begin_tx s) _ h in
      let (o, looked, h2) = wrap->>=-eq-ok (codes "db upsert lookup") (e.select_file s path) _ h1 in
      let found = sql.select_file_lem s path o looked in
      elim (Option-cases (e.file_row s path)) [
        | inl miss ↦ added miss (
            store_document-Stored s t path content mtime (
              subst (λ x. replace_document e digest s path content mtime x ≡ ok t)
                (found ∙ ap rowid_hash miss) h2))
        | inr (f, row) ↦ replace_found s t path content mtime f row (
            subst (λ x. replace_document e digest s path content mtime x ≡ ok t)
              (found ∙ ap rowid_hash row) h2)
      ]

  -- A successful `Delete` takes the path and its document out, if it was there.
  pub delete-Deleted :
      (s t : e.State) (path : Text)
      → delete e digest s path ≡ ok t
      → ((e.file_row s path ≡ none) × SameRows e s t)
        ⊎ ((f : FileRow) × (e.file_row s path ≡ some f) × Deleted e s t path f.doc_rowid)
  unfolding delete delete_rows
  delete-Deleted s t path h =
      let (_, began, h1) = wrap->>=-eq-ok (codes "db delete begin") (e.begin_tx s) _ h in
      let (o, looked, h2) =
        wrap->>=-eq-ok (codes "db delete lookup") (e.select_rowid s path) _ h1 in
      let found = sql.select_rowid_lem s path o looked in
      elim (Option-cases (e.file_row s path)) [
        | inl miss ↦ inl (
          miss,
          commit-SameRows s t
              (subst (λ x. delete_rows e digest s path x ≡ ok t) (found ∙ ap rowid_of miss) h2),
        )
        | inr (f, row) ↦ inr (
          f,
          row,
          deleted f
              (subst (λ x. delete_rows e digest s path x ≡ ok t) (found ∙ ap rowid_of row) h2),
        )
      ]
    where
      deleted :
          (f : FileRow)
          → delete_rows e digest s path (some f.doc_rowid) ≡ ok t
          → Deleted e s t path f.doc_rowid
      deleted f g =
          let (s1, gone, g1) =
            wrap->>=-eq-ok (codes "db delete doc") (e.delete_document s f.doc_rowid) _ g in
          let (s2, cleared, done) =
            wrap->>=-eq-ok (codes "db delete files") (e.delete_file s1 path) _ g1 in
          record {
            files = λ j.
                sql.commit_file s2 t j done
                ∙ sql.delete_file_lem s1 s2 path j cleared
                ∙ ap (λ x. if text_eq path j then none else x)
                    (sql.delete_document_file s s1 f.doc_rowid j gone);
            documents = λ k.
                sql.commit_document s2 t k done
                ∙ sql.delete_file_document s1 s2 path k cleared
                ∙ sql.delete_document_lem s s1 f.doc_rowid k gone;
          }
