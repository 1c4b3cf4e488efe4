-- ===== src/Db/Schema.antt =====
-- `New`, `applyPragmas` and `migrate` of internal/db/db.go with `EnsureAuditTable` of
-- internal/db/audit.go. SQLite is a state with one operation for each statement, which may change the
-- state also where it reports an error.
pub mod Effects
pub mod Migrated
pub mod Ready
pub mod Column
mod Tests
use filesearch.Base.{
  ℕ, Bool, true, false, ltb, List, [], ◌∷◌, ◌++◌, Option, none, some, Text, codes, if◌then◌else◌,
}
use filesearch.Base.Int.{ℤ, pos, negsuc}
use filesearch.Base.Result.{Error, Result, ok, err}

-- The statements of the two functions.
pub data Command : Type 0 where
  pragma : Text → Command
  create_documents : Command
  create_files : Command
  backfill : Command
  add_mtime : Command
  create_audit_log : Command
  set_user_version : ℕ → Command

pub record SchemaEngine : Type 1 where
  pub State : Type 0
  pub exec : State → Command → State × Option Error
  -- PRAGMA user_version
  pub user_version : State → Result ℤ
  pub close : State → State

abbrev pub current_schema_version : ℕ
current_schema_version = 3

-- version < n
abbrev pub is_below : ℕ → ℤ → Bool
is_below n (pos version) = ltb version n
is_below n (negsuc version) = true

abbrev pub pragmas : List Text
pragmas =
    codes "PRAGMA journal_mode=WAL"
    ∷ codes "PRAGMA synchronous=NORMAL"
    ∷ codes "PRAGMA cache_size=-32000"
    ∷ codes "PRAGMA temp_store=MEMORY"
    ∷ codes "PRAGMA mmap_size=268435456"
    ∷ []

module _ (engine : SchemaEngine) where
  -- One statement after what was done so far, unless that failed; its error gets a message.
  abbrev pub and_exec : Text → Command → engine.State × Option Error → engine.State × Option Error
  and_exec message command (s, some e) = (s, some e)
  and_exec message command (s, none) =
      let (t, failed) = engine.exec s command in
      (t, elim failed [ none ↦ none | some e ↦ some (message ∷ e) ])

  -- A statement whose error is dropped.
  abbrev pub and_try : Command → engine.State × Option Error → engine.State × Option Error
  and_try command (s, some e) = (s, some e)
  and_try command (s, none) = ((engine.exec s command).0, none)

  abbrev pragmas_from : List Text → engine.State × Option Error → engine.State × Option Error
  pragmas_from [] m = m
  pragmas_from (p ∷ ps) m =
      pragmas_from ps (and_exec (codes "pragma \"" ++ (p ++ b'"' ∷ [])) (pragma p) m)

  -- applyPragmas(ctx)
  unfoldable pub apply_pragmas : engine.State → engine.State × Option Error
  apply_pragmas s = pragmas_from pragmas (s, none)

  -- v0 → v1
  abbrev pub to_v1 : ℤ → engine.State × Option Error → engine.State × Option Error
  to_v1 version m =
      if is_below 1 version
      then and_exec (codes "db migrate v1 backfill") backfill (
          and_exec (codes "db migrate v1 files") create_files
            (and_exec (codes "db migrate v1 fts5") create_documents m))
      else m

  -- v1 → v2
  abbrev pub to_v2 : ℤ → engine.State × Option Error → engine.State × Option Error
  to_v2 version m = if is_below 2 version then and_try add_mtime m else m

  -- v2 → v3
  abbrev pub to_v3 : ℤ → engine.State × Option Error → engine.State × Option Error
  to_v3 version m =
      if is_below 3 version then and_exec (codes "db migrate v3 audit") create_audit_log m else m

  abbrev pub stamp : ℤ → engine.State × Option Error → engine.State × Option Error
  stamp version m =
      if is_below current_schema_version version
      then and_exec (codes "db migrate: cannot set user_version")
          (set_user_version current_schema_version) m
      else m

  -- migrate(ctx)
  unfoldable pub migrate : engine.State → engine.State × Option Error
  migrate s = elim (engine.user_version s) [
    | ok version ↦ stamp version (to_v3 version (to_v2 version (to_v1 version (s, none))))
    | err e ↦ (s, some (codes "db migrate: cannot read user_version" ∷ e))
  ]

  abbrev pub and_migrate : engine.State × Option Error → engine.State × Option Error
  and_migrate (s, some e) = (s, some e)
  and_migrate (s, none) = migrate s

-- What `New` returns: a connection, or an error; a connection that was made is closed then.
pub data Opened (State : Type 0) : Type 0 where
  connected : State → Opened State
  rejected : State → Error → Opened State
  unopened : Error → Opened State

module _ (engine : SchemaEngine) where
  abbrev pub or_close : engine.State × Option Error → Opened engine.State
  or_close (s, some e) = rejected (engine.close s) e
  or_close (s, none) = connected s

  -- New(ctx, path), on what `sql.Open` gives.
  unfoldable pub new_db : Result engine.State → Opened engine.State
  unfolding migrate apply_pragmas
  new_db (err e) = unopened (codes "db open" ∷ e)
  new_db (ok s) = or_close (and_migrate engine (apply_pragmas engine s))
