-- ===== src/Db/Schema/Tests.antt =====
-- The schema of internal/db/db.go on an engine in memory that fails once, after a number of statements.
use filesearch.Base.{
  ℕ, zero, suc, ◌≡◌, refl, Bool, true, false, Option, none, some, codes, [], ◌∷◌, arith,
}
use filesearch.Base.Int.{ℤ, pos}
use filesearch.Base.Result.{Error, ok}
use filesearch.Db.Schema.{
  Command, pragma, create_documents, create_files, backfill, add_mtime, create_audit_log,
  set_user_version, SchemaEngine, migrate, new_db, apply_pragmas,
}
use filesearch.Db.Schema.Effects.{
  Table, documents, files, audit_entries, is_stamp, created, IsSqlite, IsReady,
}
use filesearch.Db.Schema.Ready.{new_db-IsReady}
use filesearch.Db.Schema.Column.{IsAltered, migrate_retried}

-- The statements that succeed before one fails, the version, and which tables there are.
record Database : Type 0 where
  left : ℕ
  version : ℤ
  has_documents : Bool
  has_files : Bool
  has_audit_log : Bool

abbrev has : Database → Table → Bool
has d documents = d.has_documents
has d files = d.has_files
has d audit_entries = d.has_audit_log

abbrev applied : Command → ℕ → Database → Database
applied create_documents left d = record {
  left = left;
  version = d.version;
  has_documents = true;
  has_files = d.has_files;
  has_audit_log = d.has_audit_log;
}
applied create_files left d = record {
  left = left;
  version = d.version;
  has_documents = d.has_documents;
  has_files = true;
  has_audit_log = d.has_audit_log;
}
applied create_audit_log left d = record {
  left = left;
  version = d.version;
  has_documents = d.has_documents;
  has_files = d.has_files;
  has_audit_log = true;
}
applied (set_user_version n) left d = record {
  left = left;
  version = pos n;
  has_documents = d.has_documents;
  has_files = d.has_files;
  has_audit_log = d.has_audit_log;
}
applied _ left d = record {
  left = left;
  version = d.version;
  has_documents = d.has_documents;
  has_files = d.has_files;
  has_audit_log = d.has_audit_log;
}

abbrev execute : ℕ → Database → Command → Database × Option Error
execute zero d c = (applied backfill 100 d, some (codes "disk I/O error" ∷ []))
execute (suc n) d c = (applied c n d, none)

abbrev in_memory : SchemaEngine
in_memory = record {
  State = Database;
  exec = λ d c. execute d.left d c;
  user_version = λ d. ok d.version;
  close = λ d. d;
}

applied-keeps :
    (c : Command) (n : ℕ) (d : Database) (x : Table) → has d x ≡ true → has (applied c n d) x ≡ true
applied-keeps create_documents n d documents h = refl
applied-keeps create_documents n d files h = h
applied-keeps create_documents n d audit_entries h = h
applied-keeps create_files n d documents h = h
applied-keeps create_files n d files h = refl
applied-keeps create_files n d audit_entries h = h
applied-keeps create_audit_log n d documents h = h
applied-keeps create_audit_log n d files h = h
applied-keeps create_audit_log n d audit_entries h = refl
applied-keeps (set_user_version k) n d documents h = h
applied-keeps (set_user_version k) n d files h = h
applied-keeps (set_user_version k) n d audit_entries h = h
applied-keeps (pragma p) n d documents h = h
applied-keeps (pragma p) n d files h = h
applied-keeps (pragma p) n d audit_entries h = h
applied-keeps backfill n d documents h = h
applied-keeps backfill n d files h = h
applied-keeps backfill n d audit_entries h = h
applied-keeps add_mtime n d documents h = h
applied-keeps add_mtime n d files h = h
applied-keeps add_mtime n d audit_entries h = h

in_memory-IsSqlite : IsSqlite in_memory
in_memory-IsSqlite = record {
  version = λ d. d.version;
  Has = λ d x. has d x ≡ true;
  reads = λ s v h. version_of s v h;
  keeps_version = λ s c h. kept s.left s c h;
  stamps = λ s n h. stamped s.left s n h;
  stamp_fails = λ s n e h. unstamped s.left s n e h;
  keeps_table = λ s c x h. keeps s.left s c x h;
  creates = λ s c x made h. makes s.left s c x made h;
}
  where
    version_of : (d : Database) (v : ℤ) → ok d.version ≡ ok v → v ≡ d.version
    version_of d v h = ground arith

    kept :
        (n : ℕ) (d : Database) (c : Command)
        → is_stamp c ≡ false
        → (execute n d c).0.version ≡ d.version
    kept zero d c h = refl
    kept (suc n) d create_documents h = refl
    kept (suc n) d create_files h = refl
    kept (suc n) d create_audit_log h = refl
    kept (suc n) d (set_user_version k) h = ground arith
    kept (suc n) d (pragma p) h = refl
    kept (suc n) d backfill h = refl
    kept (suc n) d add_mtime h = refl

    stamped :
        (n : ℕ) (d : Database) (k : ℕ)
        → (execute n d (set_user_version k)).1 ≡ none
        → (execute n d (set_user_version k)).0.version ≡ pos k
    stamped zero d k h = ground arith
    stamped (suc n) d k h = refl

    unstamped :
        (n : ℕ) (d : Database) (k : ℕ) (e : Error)
        → (execute n d (set_user_version k)).1 ≡ some e
        → (execute n d (set_user_version k)).0.version ≡ d.version
    unstamped zero d k e h = refl
    unstamped (suc n) d k e h = ground arith

    keeps :
        (n : ℕ) (d : Database) (c : Command) (x : Table)
        → has d x ≡ true
        → has (execute n d c).0 x ≡ true
    keeps zero d c x h = applied-keeps backfill 100 d x h
    keeps (suc n) d c x h = applied-keeps c n d x h

    makes :
        (n : ℕ) (d : Database) (c : Command) (x : Table)
        → created c ≡ some x
        → (execute n d c).1 ≡ none
        → has (execute n d c).0 x ≡ true
    makes zero d c x made h = ground arith
    makes (suc n) d create_documents documents made h = refl
    makes (suc n) d create_files files made h = refl
    makes (suc n) d create_audit_log audit_entries made h = refl
    makes (suc n) d _ x made h = ground arith

abbrev empty_database : ℕ → Database
empty_database left = record {
  left = left;
  version = pos 0;
  has_documents = false;
  has_files = false;
  has_audit_log = false;
}

abbrev complete : ℕ → Database
complete left = record {
  left = left;
  version = pos 3;
  has_documents = true;
  has_files = true;
  has_audit_log = true;
}

new_db-IsReady_example :
    IsReady in_memory in_memory-IsSqlite (complete 89)
    × ((v : ℤ) → ok (pos 3) ≡ ok v → migrate in_memory (complete 89) ≡ (complete 89, none))
unfolding new_db migrate apply_pragmas in_memory-IsSqlite
new_db-IsReady_example =
    new_db-IsReady in_memory in_memory-IsSqlite (empty_database 100) (complete 89)
      (λ h. ground arith, λ h. ground arith) refl

-- The table files of this engine has the column from the start.
in_memory-IsAltered : IsAltered in_memory in_memory-IsSqlite
unfolding in_memory-IsSqlite
in_memory-IsAltered = record {
  Column = λ d. has d files ≡ true;
  keeps_column = λ s c h. kept s.left s c h;
  alters = λ s there h. kept s.left s add_mtime there;
  alter_fails = λ s e there h. there;
}
  where
    kept :
        (n : ℕ) (d : Database) (c : Command)
        → has d files ≡ true
        → has (execute n d c).0 files ≡ true
    kept zero d c h = applied-keeps backfill 100 d files h
    kept (suc n) d c h = applied-keeps c n d files h

migrate_retried_example :
    (in_memory-IsSqlite.version
        (applied backfill 100 (applied create_documents 0 (empty_database 1)))
      ≡ pos 0)
    × IsReady in_memory in_memory-IsSqlite (complete 94)
    × ((complete 94).has_files ≡ true)
unfolding migrate in_memory-IsSqlite in_memory-IsAltered
migrate_retried_example =
    migrate_retried in_memory in_memory-IsSqlite in_memory-IsAltered (empty_database 1)
      (applied backfill 100 (applied create_documents 0 (empty_database 1))) (complete 94)
      (codes "db migrate v1 files" ∷ codes "disk I/O error" ∷ [])
      (λ h. ground arith, λ h. ground arith) (λ h. ground arith) refl refl
