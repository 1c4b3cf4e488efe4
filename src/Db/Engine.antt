-- ===== src/Db/Engine.antt =====
-- What internal/db uses of SQLite: one operation for each statement, on the state of the database,
-- and what the documentation of SQL says of them. The engine (modernc.org/sqlite) is not part of
-- the repository. A statement may fail, for any reason; the state may hold whatever decides that.
use filesearch.Base.{ℕ, ◌==◌, ◌≡◌, Option, none, some, Text, text_eq, if◌then◌else◌}
use filesearch.Base.Int.{ℤ}
use filesearch.Base.Result.{Result, ok}

-- A row of the table `files`, under its path.
pub record FileRow : Type 0 where
  pub doc_rowid : ℕ
  pub hash : Text
  pub mtime : ℤ

-- The columns that the program reads of a row.
abbrev pub rowid_hash : Option FileRow → Option (ℕ × Text)
rowid_hash none = none
rowid_hash (some f) = some (f.doc_rowid, f.hash)

abbrev pub rowid_of : Option FileRow → Option ℕ
rowid_of none = none
rowid_of (some f) = some f.doc_rowid

pub record Engine : Type 1 where
  pub State : Type 0
  -- What the tables hold: `files` by path, and `documents` by rowid, a path with a content.
  pub file_row : State → Text → Option FileRow
  pub document : State → ℕ → Option (Text × Text)
  -- BEGIN and COMMIT
  pub begin_tx : State → Result (Unit {0})
  pub commit : State → Result State
  -- SELECT doc_rowid, hash FROM files WHERE path = ?
  pub select_file : State → Text → Result (Option (ℕ × Text))
  -- SELECT doc_rowid FROM files WHERE path = ?
  pub select_rowid : State → Text → Result (Option ℕ)
  -- DELETE FROM documents WHERE rowid = ?
  pub delete_document : State → ℕ → Result State
  -- INSERT INTO documents(path, content) VALUES (?, ?), and its LastInsertId
  pub insert_document : State → Text → Text → Result (State × Result ℕ)
  -- INSERT INTO files … ON CONFLICT(path) DO UPDATE SET …
  pub upsert_file : State → Text → FileRow → Result State
  -- DELETE FROM files WHERE path = ?
  pub delete_file : State → Text → Result State

-- The statements do what SQL says, where they succeed.
pub record IsSql (e : Engine) : Type 0 where
  pub select_file_lem :
      (s : e.State) (p : Text) (o : Option (ℕ × Text))
      → e.select_file s p ≡ ok o
      → o ≡ rowid_hash (e.file_row s p)
  pub select_rowid_lem :
      (s : e.State) (p : Text) (o : Option ℕ)
      → e.select_rowid s p ≡ ok o
      → o ≡ rowid_of (e.file_row s p)
  pub commit_file : (s t : e.State) (p : Text) → e.commit s ≡ ok t → e.file_row t p ≡ e.file_row s p
  pub commit_document :
      (s t : e.State) (r : ℕ) → e.commit s ≡ ok t → e.document t r ≡ e.document s r
  pub delete_document_file :
      (s t : e.State) (r : ℕ) (p : Text)
      → e.delete_document s r ≡ ok t
      → e.file_row t p ≡ e.file_row s p
  pub delete_document_lem :
      (s t : e.State) (r q : ℕ)
      → e.delete_document s r ≡ ok t
      → e.document t q ≡ (if r == q then none else e.document s q)
  pub insert_document_file :
      (s t : e.State) (p c q : Text) (o : Result ℕ)
      → e.insert_document s p c ≡ ok (t, o)
      → e.file_row t q ≡ e.file_row s q
  -- A new row has a rowid that no row had.
  pub insert_document_new :
      (s t : e.State) (p c : Text) (r : ℕ)
      → e.insert_document s p c ≡ ok (t, ok r)
      → e.document s r ≡ none
  pub insert_document_lem :
      (s t : e.State) (p c : Text) (r q : ℕ)
      → e.insert_document s p c ≡ ok (t, ok r)
      → e.document t q ≡ (if r == q then some (p, c) else e.document s q)
  pub upsert_file_lem :
      (s t : e.State) (p q : Text) (f : FileRow)
      → e.upsert_file s p f ≡ ok t
      → e.file_row t q ≡ (if text_eq p q then some f else e.file_row s q)
  pub upsert_file_document :
      (s t : e.State) (p : Text) (f : FileRow) (r : ℕ)
      → e.upsert_file s p f ≡ ok t
      → e.document t r ≡ e.document s r
  pub delete_file_lem :
      (s t : e.State) (p q : Text)
      → e.delete_file s p ≡ ok t
      → e.file_row t q ≡ (if text_eq p q then none else e.file_row s q)
  pub delete_file_document :
      (s t : e.State) (p : Text) (r : ℕ)
      → e.delete_file s p ≡ ok t
      → e.document t r ≡ e.document s r
