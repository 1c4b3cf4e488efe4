-- ===== src/Db/Memory.antt =====
-- An engine in memory, for the tests of internal/db: it meets what `Db.Engine` asks of SQLite.
use filesearch.Base.{
  ℕ, zero, suc, ◌==◌, ◌≡◌, refl, Option, none, some, List, [], ◌∷◌, ◌++◌, Text, length, lookup,
  insert, remove, lookup-insert, lookup-remove, arith, if◌then◌else◌,
}
use filesearch.Base.Result.{ok}
use filesearch.Db.Engine.{Engine, IsSql, FileRow, rowid_hash, rowid_of}

abbrev Row : Type 0
Row = Option (Text × Text)

-- The row at a place; past the end there is none.
abbrev row_at : List Row → ℕ → Row
row_at [] k = none
row_at (d ∷ docs) zero = d
row_at (d ∷ docs) (suc k) = row_at docs k

abbrev clear_at : List Row → ℕ → List Row
clear_at [] k = []
clear_at (d ∷ docs) zero = none ∷ docs
clear_at (d ∷ docs) (suc k) = d ∷ clear_at docs k

abbrev pub Tables : Type 0
Tables = record { files : List (Text × FileRow); docs : List Row }

abbrev pub memory : Engine
memory = record {
  State = Tables;
  file_row = λ s p. lookup p s.files;
  document = λ s k. row_at s.docs k;
  begin_tx = λ s. ok tt;
  commit = λ s. ok s;
  select_file = λ s p. ok (rowid_hash (lookup p s.files));
  select_rowid = λ s p. ok (rowid_of (lookup p s.files));
  delete_document = λ s k. ok (record { files = s.files; docs = clear_at s.docs k });
  insert_document = λ s p c.
      ok (record { files = s.files; docs = s.docs ++ some (p, c) ∷ [] }, ok (length s.docs));
  upsert_file = λ s p f. ok (record { files = insert p f s.files; docs = s.docs });
  delete_file = λ s p. ok (record { files = remove p s.files; docs = s.docs });
}

row_at-clear_at :
    (docs : List Row) (r q : ℕ)
    → row_at (clear_at docs r) q ≡ (if r == q then none else row_at docs q)
row_at-clear_at [] r q = ground arith
row_at-clear_at (d ∷ docs) zero zero = refl
row_at-clear_at (d ∷ docs) zero (suc q) = ground arith
row_at-clear_at (d ∷ docs) (suc r) zero = ground arith
row_at-clear_at (d ∷ docs) (suc r) (suc q) = ground (arith, row_at-clear_at docs r q)

row_at_end : (docs : List Row) → row_at docs (length docs) ≡ none
row_at_end [] = refl
row_at_end (d ∷ docs) = row_at_end docs

row_at-append :
    (docs : List Row) (d : Text × Text) (q : ℕ)
    → row_at (docs ++ some d ∷ []) q ≡ (if length docs == q then some d else row_at docs q)
row_at-append [] d zero = refl
row_at-append [] d (suc q) = ground arith
row_at-append (x ∷ docs) d zero = ground arith
row_at-append (x ∷ docs) d (suc q) = ground (arith, row_at-append docs d q)

pub memory-IsSql : IsSql memory
memory-IsSql = record {
  select_file_lem = λ s p o h. cc;
  select_rowid_lem = λ s p o h. cc;
  commit_file = λ s t p h. ground arith;
  commit_document = λ s t r h. ground arith;
  delete_document_file = λ s t r p h. ground arith;
  delete_document_lem = λ s t r q h. ground (arith, row_at-clear_at s.docs r q);
  insert_document_file = λ s t p c q o h. ground arith;
  insert_document_new = λ s t p c r h. ground (arith, row_at_end s.docs);
  insert_document_lem = λ s t p c r q h. ground (arith, row_at-append s.docs (p, c) q);
  upsert_file_lem = λ s t p q f h. ground (arith, lookup-insert p q f s.files);
  upsert_file_document = λ s t p f r h. ground arith;
  delete_file_lem = λ s t p q h. ground (arith, lookup-remove p q s.files);
  delete_file_document = λ s t p r h. ground arith;
}
