-- ===== src/Db/Schema/Column.antt =====
-- The column mtime of the table files, which `migrate` of internal/db/db.go adds by a statement whose
-- error is dropped, and migrations after one that failed.
use filesearch.Base.{
  ◌≡◌, refl, sym, ap, ◌∙◌, subst, inl, inr, false, Bool-cases, Option, none, some, Option-cases,
  Text, codes, arith,
}
use filesearch.Base.Int.{ℤ}
use filesearch.Base.Result.{Error, Result-cases}
use filesearch.Db.Schema.{
  Command, create_documents, create_files, backfill, add_mtime, create_audit_log, set_user_version,
  SchemaEngine, current_schema_version, is_below, and_exec, to_v1, to_v2, to_v3, stamp, migrate,
}
use filesearch.Db.Schema.Effects.{files, IsSqlite, IsSound, IsReady}
use filesearch.Db.Schema.Migrated.{to_v1-Has}
use filesearch.Db.Schema.Ready.{Migrates, migrate-Migrates}

-- The table files has the column, once it was there or was added; the statement that adds it fails on
-- the table only where the column is there.
pub record IsAltered (engine : SchemaEngine) (sql : IsSqlite engine) : Type 1 where
  pub Column : engine.State → Type 0
  pub keeps_column : (s : engine.State) (c : Command) → Column s → Column (engine.exec s c).0
  pub alters :
      (s : engine.State)
      → sql.Has s files
      → (engine.exec s add_mtime).1 ≡ none
      → Column (engine.exec s add_mtime).0
  pub alter_fails :
      (s : engine.State) (e : Error)
      → sql.Has s files
      → (engine.exec s add_mtime).1 ≡ some e
      → Column s

module _ (engine : SchemaEngine) (sql : IsSqlite engine) (column : IsAltered engine sql) where
  abbrev Done : Type 0
  Done = engine.State × Option Error

  and_exec-Column :
      (message : Text) (c : Command) (m : Done)
      → column.Column m.0
      → column.Column (and_exec engine message c m).0
  and_exec-Column message c (s, some e) h = h
  and_exec-Column message c (s, none) h = column.keeps_column s c h

  -- Without an error the column is there.
  abbrev Has : Done → Type 0
  Has m = m.1 ≡ none → column.Column m.0

  and_exec-Has :
      (message : Text) (c : Command) (m : Done) → Has m → Has (and_exec engine message c m)
  and_exec-Has message c (s, some e) has h = ground arith
  and_exec-Has message c (s, none) has h = column.keeps_column s c (has refl)

  to_v1-Column :
      (v : ℤ) (s : engine.State) → column.Column s → column.Column (to_v1 engine v (s, none)).0
  to_v1-Column v s h =
      let first = and_exec engine (codes "db migrate v1 fts5") create_documents (s, none) in
      let second = and_exec engine (codes "db migrate v1 files") create_files first in
      elim (Bool-cases (is_below 1 v)) [
        | inl old ↦ rw old (
            and_exec-Column (codes "db migrate v1 backfill") backfill second (
              and_exec-Column (codes "db migrate v1 files") create_files first
                (and_exec-Column (codes "db migrate v1 fts5") create_documents (s, none) h)))
        | inr new ↦ rw new h
      ]

  altered : (s : engine.State) → sql.Has s files → column.Column (engine.exec s add_mtime).0
  altered s there = elim (Option-cases (engine.exec s add_mtime).1) [
    | inl done ↦ column.alters s there done
    | inr (e, failed) ↦ column.keeps_column s add_mtime (column.alter_fails s e there failed)
  ]

  to_v2-Has :
      (v : ℤ) (m : Done)
      → (m.1 ≡ none → sql.Has m.0 files)
      → (is_below 2 v ≡ false → column.Column m.0)
      → Has (to_v2 engine v m)
  to_v2-Has v (s, some e) there known = elim (Bool-cases (is_below 2 v)) [
    | inl old ↦ rw old (λ h. ground arith)
    | inr new ↦ rw new (λ h. ground arith)
  ]
  to_v2-Has v (s, none) there known = elim (Bool-cases (is_below 2 v)) [
    | inl old ↦ rw old (λ h. altered s (there refl))
    | inr new ↦ rw new (λ h. known new)
  ]

  to_v3-Has : (v : ℤ) (m : Done) → Has m → Has (to_v3 engine v m)
  to_v3-Has v m has = elim (Bool-cases (is_below 3 v)) [
    | inl old ↦ rw old (and_exec-Has (codes "db migrate v3 audit") create_audit_log m has)
    | inr new ↦ rw new has
  ]

  stamp-Has : (v : ℤ) (m : Done) → Has m → Has (stamp engine v m)
  stamp-Has v m has = elim (Bool-cases (is_below 3 v)) [
    | inl old ↦ rw old (
        and_exec-Has (codes "db migrate: cannot set user_version")
          (set_user_version current_schema_version) m has)
    | inr new ↦ rw new has
  ]

  -- A version from 2 on stands for the column.
  abbrev pub IsWhole : engine.State → Type 0
  IsWhole s = is_below 2 (sql.version s) ≡ false → column.Column s

  migrate-Has : (s : engine.State) → IsSound engine sql s → IsWhole s → Has (migrate engine s)
  unfolding migrate
  migrate-Has s sound whole = elim (Result-cases (engine.user_version s)) [
    | inr (e, failed) ↦ rw (migrate, failed) (λ h. ground arith)
    | inl (v, read) ↦
        let v_is = sym (sql.reads s v read) in
        let m1 = to_v1 engine v (s, none) in
        let there : m1.1 ≡ none → sql.Has m1.0 files =
          subst
            (λ u. (to_v1 engine u (s, none)).1 ≡ none → sql.Has (to_v1 engine u (s, none)).0 files)
            v_is (λ h. (to_v1-Has engine sql s sound h).1) in
        let known : is_below 2 v ≡ false → column.Column m1.0 =
          λ new. to_v1-Column v s (whole (ap (is_below 2) v_is ∙ new)) in
        rw (migrate, read)
          (stamp-Has v (to_v3 engine v (to_v2 engine v m1))
            (to_v3-Has v (to_v2 engine v m1) (to_v2-Has v m1 there known)))
  ]

  migrate-Column : (s : engine.State) → column.Column s → column.Column (migrate engine s).0
  unfolding migrate
  migrate-Column s h = elim (Result-cases (engine.user_version s)) [
    | inr (e, failed) ↦ rw (migrate, failed) h
    | inl (v, read) ↦
        let m1 = to_v1 engine v (s, none) in
        let c1 = to_v1-Column v s h in
        rw (migrate, read)
          (stamp-Column v (to_v3 engine v (to_v2 engine v m1))
            (to_v3-Column v (to_v2 engine v m1) (to_v2-Column v m1 c1)))
  ]
    where
      to_v2-Column : (v : ℤ) (m : Done) → column.Column m.0 → column.Column (to_v2 engine v m).0
      to_v2-Column v (s, some e) h = elim (Bool-cases (is_below 2 v)) [
        | inl old ↦ rw old h
        | inr new ↦ rw new h
      ]
      to_v2-Column v (s, none) h = elim (Bool-cases (is_below 2 v)) [
        | inl old ↦ rw old (column.keeps_column s add_mtime h)
        | inr new ↦ rw new h
      ]

      to_v3-Column : (v : ℤ) (m : Done) → column.Column m.0 → column.Column (to_v3 engine v m).0
      to_v3-Column v m h = elim (Bool-cases (is_below 3 v)) [
        | inl old ↦ rw old (and_exec-Column (codes "db migrate v3 audit") create_audit_log m h)
        | inr new ↦ rw new h
      ]

      stamp-Column : (v : ℤ) (m : Done) → column.Column m.0 → column.Column (stamp engine v m).0
      stamp-Column v m h = elim (Bool-cases (is_below 3 v)) [
        | inl old ↦ rw old (
            and_exec-Column (codes "db migrate: cannot set user_version")
              (set_user_version current_schema_version) m h)
        | inr new ↦ rw new h
      ]

  -- A migration that fails, at whichever statement, leaves the version as it was, and a later
  -- migration that succeeds leaves the current version or a later one, the three tables and the
  -- column mtime, on a database whose version stood for its tables and that column, where the
  -- ALTER TABLE whose error is dropped fails only because the column is there.
  pub migrate_retried :
      (s t u : engine.State) (e : Error)
      → IsSound engine sql s
      → IsWhole s
      → migrate engine s ≡ (t, some e)
      → migrate engine t ≡ (u, none)
      → (sql.version t ≡ sql.version s) × IsReady engine sql u × column.Column u
  migrate_retried s t u e sound whole failed done =
      let (x, kept, sound_t) =
        subst (Migrates engine sql s) failed (migrate-Migrates engine sql s sound) in
      let (ready, y, z) =
        subst (Migrates engine sql t) done (migrate-Migrates engine sql t sound_t) in
      let whole_t : IsWhole t = λ new.
        subst (λ m. column.Column m.0) failed
          (migrate-Column s (whole (ap (is_below 2) (sym (kept e refl)) ∙ new))) in
      (kept e refl, ready refl, subst Has done (migrate-Has t sound_t whole_t) refl)
