-- ===== src/Db/Schema/Effects.antt =====
-- What SQLite says of the statements of internal/db/db.go that make the schema, and what each step of a
-- migration does to the version and the tables.
use filesearch.Base.{
  ℕ, ◌≡◌, refl, sym, ◌∙◌, subst, inl, inr, Bool, true, false, Option, none, some, Option-cases,
  Text, arith,
}
use filesearch.Base.Int.{ℤ, pos}
use filesearch.Base.Result.{Error, ok}
use filesearch.Db.Schema.{
  Command, create_documents, create_files, create_audit_log, set_user_version, SchemaEngine,
  current_schema_version, is_below, and_exec, and_try,
}

pub data Table : Type 0 where
  documents : Table
  files : Table
  audit_entries : Table

abbrev pub is_stamp : Command → Bool
is_stamp (set_user_version n) = true
is_stamp _ = false

abbrev pub created : Command → Option Table
created create_documents = some documents
created create_files = some files
created create_audit_log = some audit_entries
created _ = none

-- A statement that fails changes neither the version nor the tables; a table once there stays.
pub record IsSqlite (engine : SchemaEngine) : Type 1 where
  pub version : engine.State → ℤ
  pub Has : engine.State → Table → Type 0
  pub reads : (s : engine.State) (v : ℤ) → engine.user_version s ≡ ok v → v ≡ version s
  pub keeps_version :
      (s : engine.State) (c : Command)
      → is_stamp c ≡ false
      → version (engine.exec s c).0 ≡ version s
  pub stamps :
      (s : engine.State) (n : ℕ)
      → (engine.exec s (set_user_version n)).1 ≡ none
      → version (engine.exec s (set_user_version n)).0 ≡ pos n
  pub stamp_fails :
      (s : engine.State) (n : ℕ) (e : Error)
      → (engine.exec s (set_user_version n)).1 ≡ some e
      → version (engine.exec s (set_user_version n)).0 ≡ version s
  pub keeps_table :
      (s : engine.State) (c : Command) (x : Table) → Has s x → Has (engine.exec s c).0 x
  pub creates :
      (s : engine.State) (c : Command) (x : Table)
      → created c ≡ some x
      → (engine.exec s c).1 ≡ none
      → Has (engine.exec s c).0 x

module _ (engine : SchemaEngine) (sql : IsSqlite engine) where
  -- The tables that the version of a database stands for are there.
  abbrev pub IsSound : engine.State → Type 0
  IsSound s =
      (is_below 1 (sql.version s) ≡ false → sql.Has s documents × sql.Has s files)
      × (is_below 3 (sql.version s) ≡ false → sql.Has s audit_entries)

  -- The version is the current one or a later one, and all tables are there.
  abbrev pub IsReady : engine.State → Type 0
  IsReady s =
      (is_below current_schema_version (sql.version s) ≡ false)
      × sql.Has s documents
      × sql.Has s files
      × sql.Has s audit_entries

  abbrev Done : Type 0
  Done = engine.State × Option Error

  -- The version and the tables of a state are those of the state before, at least.
  abbrev pub Stays : engine.State → Done → Type 0
  Stays s m = (sql.version m.0 ≡ sql.version s) × ((x : Table) → sql.Has s x → sql.Has m.0 x)

  pub and_exec-Has :
      (message : Text) (c : Command) (x : Table) (m : Done)
      → sql.Has m.0 x
      → sql.Has (and_exec engine message c m).0 x
  and_exec-Has message c x (s, some e) h = h
  and_exec-Has message c x (s, none) h = sql.keeps_table s c x h

  pub and_exec-Stays :
      (message : Text) (c : Command) (s : engine.State) (m : Done)
      → is_stamp c ≡ false
      → Stays s m
      → Stays s (and_exec engine message c m)
  and_exec-Stays message c s (t, some e) plain stays = stays
  and_exec-Stays message c s (t, none) plain (same, keeps) =
      (sql.keeps_version t c plain ∙ same, λ x h. sql.keeps_table t c x (keeps x h))

  pub and_try-Stays :
      (c : Command) (s : engine.State) (m : Done)
      → is_stamp c ≡ false
      → Stays s m
      → Stays s (and_try engine c m)
  and_try-Stays c s (t, some e) plain stays = stays
  and_try-Stays c s (t, none) plain (same, keeps) =
      (sql.keeps_version t c plain ∙ same, λ x h. sql.keeps_table t c x (keeps x h))

  -- A step that succeeded: so did what came before, and its own statement.
  pub and_exec-none :
      (message : Text) (c : Command) (m : Done)
      → (and_exec engine message c m).1 ≡ none
      → (m.1 ≡ none)
        × ((engine.exec m.0 c).1 ≡ none)
        × ((and_exec engine message c m).0 ≡ (engine.exec m.0 c).0)
  and_exec-none message c (s, some e) h = ground arith
  and_exec-none message c (s, none) h = elim (Option-cases (engine.exec s c).1) [
    | inl none_yet ↦ (refl, none_yet, refl)
    | inr (e, failed) ↦ ground arith
  ]

  pub and_exec-creates :
      (message : Text) (c : Command) (x : Table) (m : Done)
      → created c ≡ some x
      → (and_exec engine message c m).1 ≡ none
      → sql.Has (and_exec engine message c m).0 x
  and_exec-creates message c x m makes h =
      let (before, done, same) = and_exec-none message c m h in
      subst (λ s. sql.Has s x) (sym same) (sql.creates m.0 c x makes done)

  pub and_try-none :
      (c : Command) (x : Table) (m : Done)
      → ((and_try engine c m).1 ≡ none → m.1 ≡ none)
        × (sql.Has m.0 x → sql.Has (and_try engine c m).0 x)
  and_try-none c x (s, some e) = (λ h. h, λ h. h)
  and_try-none c x (s, none) = (λ h. refl, λ h. sql.keeps_table s c x h)
