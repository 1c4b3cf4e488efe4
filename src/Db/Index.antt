-- ===== src/Db/Index.antt =====
-- The writes to the index of internal/db/db.go: `UpsertWithMtime`, `Upsert` and `Delete`, over the
-- statements of `Db.Engine`. An error rolls the transaction back, so it leaves the state as it was:
-- the operations return the new state, or an error. `digest` is SHA-256 as a list of bytes.
pub mod Consistent
pub mod Writes
pub mod Reads
use filesearch.Base.{
  ℕ, ◌+◌, ◌/◌, ◌%◌, Option, none, some, List, [], ◌∷◌, Text, codes, text_eq, ltb, if◌then◌else◌,
}
use filesearch.Base.Int.{ℤ, pos}
use filesearch.Base.Result.{Result, ok, err, ◌>>=◌, ◌>>◌, wrap}
use filesearch.Db.Engine.{Engine, FileRow}

-- hex.EncodeToString(src)
abbrev hex_digit : ℕ → ℕ
hex_digit n = if ltb n 10 then b'0' + n else 87 + n

unfoldable pub hex_encode : Text → Text
hex_encode [] = []
hex_encode (b ∷ src) = hex_digit (b / 16) ∷ hex_digit (b % 16) ∷ hex_encode src

module _ (e : Engine) (digest : Text → Text) where
  -- contentHash(content)
  abbrev pub content_hash : Text → Text
  content_hash content = hex_encode (digest content)

  -- `UpsertWithMtime` from the insertion on.
  unfoldable pub store_document : e.State → Text → Text → ℤ → Result e.State
  store_document s path content mtime = do
    (s1, inserted) ← wrap (codes "db upsert insert") (e.insert_document s path content)
    new_rowid ← wrap (codes "db upsert rowid") inserted
    s2 ← wrap (codes "db upsert files") (
        e.upsert_file s1 path
          (record { doc_rowid = new_rowid; hash = content_hash content; mtime = mtime }))
    e.commit s2

  -- The switch on the row that the path has.
  unfoldable pub replace_document : e.State → Text → Text → ℤ → Option (ℕ × Text) → Result e.State
  replace_document s path content mtime none = store_document s path content mtime
  replace_document s path content mtime (some (existing_rowid, existing_hash)) =
      if text_eq existing_hash (content_hash content) then e.commit s else do
        s1 ← wrap (codes "db upsert delete doc") (e.delete_document s existing_rowid)
        store_document s1 path content mtime

  -- UpsertWithMtime(ctx, path, content, mtime)
  unfoldable pub upsert_with_mtime : e.State → Text → Text → ℤ → Result e.State
  upsert_with_mtime s path content mtime = do
    _ ← wrap (codes "db upsert begin") (e.begin_tx s)
    existing ← wrap (codes "db upsert lookup") (e.select_file s path)
    replace_document s path content mtime existing

  -- Upsert(ctx, path, content)
  unfoldable pub upsert : e.State → Text → Text → Result e.State
  upsert s path content = upsert_with_mtime s path content (pos 0)

  unfoldable pub delete_rows : e.State → Text → Option ℕ → Result e.State
  delete_rows s path none = e.commit s
  delete_rows s path (some rowid) = do
    s1 ← wrap (codes "db delete doc") (e.delete_document s rowid)
    s2 ← wrap (codes "db delete files") (e.delete_file s1 path)
    e.commit s2

  -- Delete(ctx, path)
  unfoldable pub delete : e.State → Text → Result e.State
  delete s path = do
    _ ← wrap (codes "db delete begin") (e.begin_tx s)
    found ← wrap (codes "db delete lookup") (e.select_rowid s path)
    delete_rows s path found
