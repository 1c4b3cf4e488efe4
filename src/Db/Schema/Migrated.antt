-- ===== src/Db/Schema/Migrated.antt =====
-- The steps of `migrate` in internal/db/db.go, up to the one that sets the version.
use filesearch.Base.{◌≡◌, refl, inl, inr, true, Bool-cases, Option, none, codes}
use filesearch.Base.Int.{ℤ}
use filesearch.Base.Result.{Error}
use filesearch.Db.Schema.{
  create_documents, create_files, backfill, add_mtime, create_audit_log, SchemaEngine, is_below,
  and_exec, to_v1, to_v2, to_v3,
}
use filesearch.Db.Schema.Effects.{
  Table, documents, files, audit_entries, IsSqlite, IsSound, Stays, and_exec-Has, and_exec-Stays,
  and_try-Stays, and_exec-none, and_exec-creates, and_try-none,
}

module _ (engine : SchemaEngine) (sql : IsSqlite engine) where
  abbrev Done : Type 0
  Done = engine.State × Option Error

  to_v1-Stays : (v : ℤ) (s : engine.State) → Stays engine sql s (to_v1 engine v (s, none))
  to_v1-Stays v s = elim (Bool-cases (is_below 1 v)) [
    | inl old ↦ rw old (
        and_exec-Stays engine sql (codes "db migrate v1 backfill") backfill s
          (and_exec engine (codes "db migrate v1 files") create_files
            (and_exec engine (codes "db migrate v1 fts5") create_documents (s, none)))
          refl
          (and_exec-Stays engine sql (codes "db migrate v1 files") create_files s
            (and_exec engine (codes "db migrate v1 fts5") create_documents (s, none)) refl
            (and_exec-Stays engine sql (codes "db migrate v1 fts5") create_documents s (s, none)
              refl (refl, λ x h. h))))
    | inr new ↦ rw new (refl, λ x h. h)
  ]

  to_v1-creates :
      (v : ℤ) (s : engine.State)
      → is_below 1 v ≡ true
      → (to_v1 engine v (s, none)).1 ≡ none
      → sql.Has (to_v1 engine v (s, none)).0 documents × sql.Has (to_v1 engine v (s, none)).0 files
  to_v1-creates v s old h =
      let first = and_exec engine (codes "db migrate v1 fts5") create_documents (s, none) in
      let second = and_exec engine (codes "db migrate v1 files") create_files first in
      let (two, x, y) =
        and_exec-none engine sql (codes "db migrate v1 backfill") backfill second (rw old at h) in
      let (one, x2, y2) =
        and_exec-none engine sql (codes "db migrate v1 files") create_files first two in
      rw old (
        and_exec-Has engine sql (codes "db migrate v1 backfill") backfill documents second (
            and_exec-Has engine sql (codes "db migrate v1 files") create_files documents first (
              and_exec-creates engine sql (codes "db migrate v1 fts5") create_documents documents
                (s, none) refl one)),
        and_exec-Has engine sql (codes "db migrate v1 backfill") backfill files second (
            and_exec-creates engine sql (codes "db migrate v1 files") create_files files first refl
              two),
      )

  to_v2-Stays :
      (v : ℤ) (s : engine.State) (m : Done)
      → Stays engine sql s m
      → Stays engine sql s (to_v2 engine v m)
  to_v2-Stays v s m stays = elim (Bool-cases (is_below 2 v)) [
    | inl old ↦ rw old (and_try-Stays engine sql add_mtime s m refl stays)
    | inr new ↦ rw new stays
  ]

  to_v2-none :
      (v : ℤ) (x : Table) (m : Done)
      → ((to_v2 engine v m).1 ≡ none → m.1 ≡ none)
        × (sql.Has m.0 x → sql.Has (to_v2 engine v m).0 x)
  to_v2-none v x m = elim (Bool-cases (is_below 2 v)) [
    | inl old ↦ rw old (and_try-none engine sql add_mtime x m)
    | inr new ↦ rw new (λ h. h, λ h. h)
  ]

  to_v3-Stays :
      (v : ℤ) (s : engine.State) (m : Done)
      → Stays engine sql s m
      → Stays engine sql s (to_v3 engine v m)
  to_v3-Stays v s m stays = elim (Bool-cases (is_below 3 v)) [
    | inl old ↦
        rw old
          (and_exec-Stays engine sql (codes "db migrate v3 audit") create_audit_log s m refl stays)
    | inr new ↦ rw new stays
  ]

  to_v3-none :
      (v : ℤ) (x : Table) (m : Done)
      → ((to_v3 engine v m).1 ≡ none → m.1 ≡ none)
        × (sql.Has m.0 x → sql.Has (to_v3 engine v m).0 x)
  to_v3-none v x m = elim (Bool-cases (is_below 3 v)) [
    | inl old ↦ rw old (
      λ h. (and_exec-none engine sql (codes "db migrate v3 audit") create_audit_log m h).0,
      λ h. and_exec-Has engine sql (codes "db migrate v3 audit") create_audit_log x m h,
    )
    | inr new ↦ rw new (λ h. h, λ h. h)
  ]

  to_v3-creates :
      (v : ℤ) (m : Done)
      → is_below 3 v ≡ true
      → (to_v3 engine v m).1 ≡ none
      → sql.Has (to_v3 engine v m).0 audit_entries
  to_v3-creates v m old h = rw old (
      and_exec-creates engine sql (codes "db migrate v3 audit") create_audit_log audit_entries m
        refl (rw old at h))

  -- What stands before the version is set.
  abbrev pub prepared : ℤ → engine.State → Done
  prepared v s = to_v3 engine v (to_v2 engine v (to_v1 engine v (s, none)))

  pub prepared-Stays : (v : ℤ) (s : engine.State) → Stays engine sql s (prepared v s)
  prepared-Stays v s =
      to_v3-Stays v s (to_v2 engine v (to_v1 engine v (s, none)))
        (to_v2-Stays v s (to_v1 engine v (s, none)) (to_v1-Stays v s))

  -- The tables of the first step, where each statement of it succeeded.
  pub to_v1-Has :
      (s : engine.State)
      → IsSound engine sql s
      → (to_v1 engine (sql.version s) (s, none)).1 ≡ none
      → sql.Has (to_v1 engine (sql.version s) (s, none)).0 documents
        × sql.Has (to_v1 engine (sql.version s) (s, none)).0 files
  to_v1-Has s (base, audit) h =
      let (same, keeps) = to_v1-Stays (sql.version s) s in
      elim (Bool-cases (is_below 1 (sql.version s))) [
        | inl old ↦ to_v1-creates (sql.version s) s old h
        | inr new ↦ let (d, f) = base new in (keeps documents d, keeps files f)
      ]

  -- The three tables, where each statement before succeeded.
  pub prepared-Has :
      (s : engine.State)
      → IsSound engine sql s
      → (prepared (sql.version s) s).1 ≡ none
      → (sql.Has (prepared (sql.version s) s).0 documents)
        × (sql.Has (prepared (sql.version s) s).0 files)
        × (sql.Has (prepared (sql.version s) s).0 audit_entries)
  prepared-Has s sound h =
      let v = sql.version s in
      let m1 = to_v1 engine v (s, none) in
      let m2 = to_v2 engine v m1 in
      let h2 = (to_v3-none v files m2).0 h in
      let (d, f) = to_v1-Has s sound ((to_v2-none v files m1).0 h2) in
      let (same, keeps) = prepared-Stays v s in
      let audit : sql.Has (prepared v s).0 audit_entries = elim (Bool-cases (is_below 3 v)) [
        | inl old ↦ to_v3-creates v m2 old h
        | inr new ↦ keeps audit_entries (sound.1 new)
      ] in
      (
        (to_v3-none v documents m2).1 ((to_v2-none v documents m1).1 d),
        (to_v3-none v files m2).1 ((to_v2-none v files m1).1 f),
        audit,
      )
