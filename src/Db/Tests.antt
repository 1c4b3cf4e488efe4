-- ===== src/Db/Tests.antt =====
-- The theorems on internal/db at concrete rows, over the engine in memory.
use filesearch.Base.{
  ℕ, ◌+◌, ◌*◌, ◌/◌, ◌%◌, ◌<◌, ◌≡◌, ◌≢◌, ◌⊎◌, inl, inr, refl, Option, none, some, List, [], ◌∷◌,
  ◌++◌, Text, codes, text_eq, text_eq_ne, arith, length, lookup,
}
use filesearch.Base.Int.{pos}
use filesearch.Base.Result.{ok}
use filesearch.Db.Vectors.{
  float32_slice_to_bytes, bytes_to_float32_slice, bytes_to_float32_slice-float32_slice_to_bytes,
}
use filesearch.Db.Engine.{FileRow}
use filesearch.Db.Memory.{memory, memory-IsSql, Tables}
use filesearch.Db.Index.{upsert_with_mtime, delete, content_hash}
use filesearch.Db.Index.Consistent.{Consistent, upsert_with_mtime-Consistent, delete-Consistent}
use filesearch.Db.Index.Reads.{Shows, upsert_with_mtime-Shows}

float32_round_trip :
    bytes_to_float32_slice (float32_slice_to_bytes (1065353216 ∷ (0 ∷ [])))
    ≡ some (1065353216 ∷ (0 ∷ []))
float32_round_trip =
    bytes_to_float32_slice-float32_slice_to_bytes (1065353216 ∷ (0 ∷ []))
      (omega arith, (omega arith, tt))

-- A digest of two bytes, in place of SHA-256.
abbrev digest : Text → Text
digest t = 1 ∷ (length t % 256 ∷ [])

abbrev row : FileRow
row = record { doc_rowid = 0; hash = content_hash memory digest (codes "old"); mtime = pos 1 }

abbrev tables : Tables
tables = record { files = (codes "/a", row) ∷ []; docs = some (codes "/a", codes "old") ∷ [] }

abbrev no_tables : Tables
no_tables = record { files = []; docs = [] }

abbrev newer : FileRow
newer = record { doc_rowid = 1; hash = content_hash memory digest (codes "newer"); mtime = pos 2 }

abbrev updated : Tables
updated = record {
  files = (codes "/a", newer) ∷ [];
  docs = none ∷ (some (codes "/a", codes "newer") ∷ []);
}

abbrev deleted : Tables
deleted = record { files = []; docs = none ∷ (none ∷ []) }

stored_at : upsert_with_mtime memory digest no_tables (codes "/a") (codes "old") (pos 1) ≡ ok tables
unfolding upsert_with_mtime filesearch.Db.Index.replace_document lookup
    filesearch.Db.Index.store_document filesearch.Base.insert
stored_at = refl

updated_at :
    upsert_with_mtime memory digest tables (codes "/a") (codes "newer") (pos 2) ≡ ok updated
unfolding upsert_with_mtime filesearch.Db.Index.replace_document lookup
    filesearch.Db.Index.hex_encode filesearch.Db.Index.store_document filesearch.Base.insert
updated_at = refl

deleted_at : delete memory digest updated (codes "/a") ≡ ok deleted
unfolding delete filesearch.Db.Index.delete_rows lookup filesearch.Base.remove
deleted_at = refl

none_Consistent : Consistent memory digest no_tables
unfolding lookup
none_Consistent = record {
  filed = λ p f h. absurd (ground arith);
  indexed = λ r p c h. absurd (ground arith);
}

tables-Consistent : Consistent memory digest tables
tables-Consistent =
    upsert_with_mtime-Consistent memory digest memory-IsSql no_tables tables (codes "/a")
      (codes "old") (pos 1) stored_at none_Consistent

upsert_with_mtime-Consistent_example : Consistent memory digest updated
upsert_with_mtime-Consistent_example =
    upsert_with_mtime-Consistent memory digest memory-IsSql tables updated (codes "/a")
      (codes "newer") (pos 2) updated_at tables-Consistent

updated-Consistent : Consistent memory digest updated
updated-Consistent =
    upsert_with_mtime-Consistent memory digest memory-IsSql tables updated (codes "/a")
      (codes "newer") (pos 2) updated_at tables-Consistent

delete-Consistent_example :
    Consistent memory digest deleted
    × (memory.file_row deleted (codes "/a") ≡ none)
    × ((r : ℕ) (c : Text) → memory.document deleted r ≢ some (codes "/a", c))
delete-Consistent_example =
    delete-Consistent memory digest memory-IsSql updated deleted (codes "/a") deleted_at
      updated-Consistent

digest_ne : digest (codes "newer") ≢ []
digest_ne = text_eq_ne (digest (codes "newer")) [] refl

upsert_with_mtime-Shows_example :
    Shows memory memory-IsSql digest updated (codes "/a") (codes "newer")
upsert_with_mtime-Shows_example =
    upsert_with_mtime-Shows memory memory-IsSql digest tables updated (codes "/a") (codes "newer")
      (pos 2) digest_ne tables-Consistent updated_at

same_at : upsert_with_mtime memory digest tables (codes "/a") (codes "old") (pos 9) ≡ ok tables
unfolding upsert_with_mtime filesearch.Db.Index.replace_document lookup
    filesearch.Db.Index.hex_encode
same_at = refl
