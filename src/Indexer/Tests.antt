-- ===== src/Indexer/Tests.antt =====
-- The theorems on internal/indexer/indexer.go at a concrete tree and files.
use filesearch.Base.{
  ℕ, ◌+◌, ◌*◌, ◌≤◌, ◌≡◌, ◌≢◌, ◌⊎◌, refl, Bool, true, false, Option, none, some, List, [], ◌∷◌, ◌++◌,
  Text, codes, text_eq_ne, length, arith,
}
use filesearch.Base.Int.{ℤ, pos}
use filesearch.Base.Result.{Result, ok}
use filesearch.Indexer.Policy.{DirEntry, FileEntry}
use filesearch.Indexer.Walk.{Tree, empty, file, dir, start_walk, walk}
use filesearch.Indexer.Walk.Started.{wanted, walk-wanted}
use filesearch.Indexer.Extract.{extract_raw}
use filesearch.Indexer.File.{index_file, index_file-Shows}
use filesearch.Db.Memory.{memory, memory-IsSql, Tables}
use filesearch.Db.Index.Reads.{Shows}
use filesearch.Db.Index.Consistent.{Consistent}

abbrev notes : FileEntry
notes = record { path = codes "/d/a.txt"; size = some 3; is_placeholder = false }

abbrev key : FileEntry
key = record { path = codes "/d/id_rsa"; size = some 3; is_placeholder = false }

abbrev ssh : DirEntry
ssh = record { path = codes "/d/.ssh"; has_pyvenv = false; read_fails = false }

abbrev root : DirEntry
root = record { path = codes "/d"; has_pyvenv = false; read_fails = false }

abbrev tree : Tree
tree = dir root (file notes (file key (dir ssh (file notes empty) empty))) empty

abbrev never : ℕ → Bool
never n = false

walk-wanted_example :
    (more : List Text) × ((walk never [] tree start_walk).0.started ++ more ≡ [] ++ wanted [] tree)
    × (((walk never [] tree start_walk).1 ≡ false) ⊎ (more ≡ []))
walk-wanted_example = walk-wanted [] never tree start_walk

abbrev succeed : ℕ → Text → ℕ × Bool
succeed s path = (s + 1, true)

raw_at : extract_raw (codes "ab" ∷ []) none ≡ ok (codes "ab\n")
unfolding extract_raw
raw_at = refl

abbrev digest : Text → Text
digest t = 1 ∷ []

abbrev stat : Text → Result (ℕ × ℤ)
stat path = ok (3, pos 7)

abbrev extract : Text → Result Text
extract path = ok (codes "abc")

abbrev no_tables : Tables
no_tables = record { files = []; docs = [] }

abbrev tables : Tables
tables = record {
  files = (codes "/a.txt", record { doc_rowid = 0; hash = codes "01"; mtime = pos 7 }) ∷ [];
  docs = some (codes "/a.txt", codes "a.txt\na\nabc") ∷ [];
}

indexed_at : index_file memory digest stat extract no_tables (codes "/a.txt") ≡ ok tables
unfolding index_file filesearch.Db.Index.upsert_with_mtime filesearch.Db.Index.replace_document
    filesearch.Base.lookup filesearch.Db.Index.store_document filesearch.Base.insert
    filesearch.Db.Index.hex_encode
indexed_at = refl

none_Consistent : Consistent memory digest no_tables
unfolding filesearch.Base.lookup
none_Consistent = record {
  filed = λ p f h. absurd (ground arith);
  indexed = λ r p c h. absurd (ground arith);
}

index_file-Shows_example :
    (3 ≤ 50 * 1024 * 1024)
    × Consistent memory digest tables
    × Shows memory memory-IsSql digest tables (codes "/a.txt") (codes "a.txt\na\nabc")
index_file-Shows_example =
    index_file-Shows memory digest stat extract memory-IsSql no_tables tables (codes "/a.txt")
      (codes "abc") 3 (pos 7) (λ c h. cc) none_Consistent refl refl indexed_at
