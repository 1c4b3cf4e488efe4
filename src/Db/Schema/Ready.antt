-- ===== src/Db/Schema/Ready.antt =====
-- A database after `migrate` and `New` of internal/db/db.go, also after an attempt that failed.
use filesearch.Base.{
  ℕ, ◌≡◌, refl, sym, ap, ◌∙◌, subst, inl, inr, true, false, Bool-cases, ltb, List, [], ◌∷◌, ◌++◌,
  Option, none, some, Option-cases, Text, codes, arith,
}
use filesearch.Base.Int.{ℤ, pos, negsuc}
use filesearch.Base.Result.{Error, ok, Result-cases}
use filesearch.Db.Schema.{
  SchemaEngine, current_schema_version, is_below, set_user_version, and_exec, apply_pragmas, pragma,
  pragmas, pragmas_from, stamp, migrate, and_migrate, connected, or_close, new_db,
}
use filesearch.Db.Schema.Effects.{
  Table, documents, files, audit_entries, IsSqlite, IsSound, IsReady, Stays, and_exec-Stays,
}
use filesearch.Db.Schema.Migrated.{prepared, prepared-Stays, prepared-Has}

module _ (engine : SchemaEngine) (sql : IsSqlite engine) where
  abbrev pub Done : Type 0
  Done = engine.State × Option Error

  -- The result of a migration from a state.
  abbrev pub Migrates : engine.State → Done → Type 0
  Migrates s m =
      (m.1 ≡ none → IsReady engine sql m.0)
      × ((e : Error) → m.1 ≡ some e → sql.version m.0 ≡ sql.version s)
      × IsSound engine sql m.0

  -- A state with the version of a sound one and its tables is sound.
  Stays-IsSound :
      (s t : engine.State)
      → sql.version t ≡ sql.version s
      → ((x : Table) → sql.Has s x → sql.Has t x)
      → IsSound engine sql s
      → IsSound engine sql t
  Stays-IsSound s t same keeps (base, audit) = (
    λ h. let (d, f) = base (rw same at h) in (keeps documents d, keeps files f),
    λ h. keeps audit_entries (audit (rw same at h)),
  )

  IsReady-IsSound : (s : engine.State) → IsReady engine sql s → IsSound engine sql s
  IsReady-IsSound s (current, d, f, a) = (λ h. (d, f), λ h. a)

  abbrev Tables : engine.State → Type 0
  Tables s = sql.Has s documents × sql.Has s files × sql.Has s audit_entries

  -- The version is set where nothing failed before.
  and_stamp-Migrates :
      (message : Text) (s : engine.State) (m : Done)
      → IsSound engine sql s
      → sql.version m.0 ≡ sql.version s
      → ((x : Table) → sql.Has s x → sql.Has m.0 x)
      → (m.1 ≡ none → Tables m.0)
      → Migrates s (and_exec engine message (set_user_version current_schema_version) m)
  and_stamp-Migrates message s (t, some e) sound same keeps tables =
      (λ h. ground arith, λ e2 h. same, Stays-IsSound s t same keeps sound)
  and_stamp-Migrates message s (t, none) sound same keeps tables =
      let u = (engine.exec t (set_user_version current_schema_version)).0 in
      let lifts = λ (x : Table) (h : sql.Has t x).
        sql.keeps_table t (set_user_version current_schema_version) x h in
      elim (Option-cases (engine.exec t (set_user_version current_schema_version)).1) [
        | inl done ↦
            let (d, f, a) = tables refl in
            let set = sql.stamps t current_schema_version done in
            let ready : IsReady engine sql u = (
              ap (is_below current_schema_version) set,
              lifts documents d,
              lifts files f,
              lifts audit_entries a,
            ) in
            (λ h. ready, λ e h. ground arith, IsReady-IsSound u ready)
        | inr (e, failed) ↦
            let kept = sql.stamp_fails t current_schema_version e failed ∙ same in
            (
              λ h. ground arith,
              λ e2 h. kept,
              Stays-IsSound s u kept (λ x h. lifts x (keeps x h)) sound,
            )
      ]

  stamp-Migrates :
      (v : ℤ) (s : engine.State) (m : Done)
      → IsSound engine sql s
      → v ≡ sql.version s
      → sql.version m.0 ≡ sql.version s
      → ((x : Table) → sql.Has s x → sql.Has m.0 x)
      → (m.1 ≡ none → Tables m.0)
      → Migrates s (stamp engine v m)
  stamp-Migrates v s m sound read same keeps tables = elim (Bool-cases (is_below 3 v)) [
    | inl old ↦ rw old (
        and_stamp-Migrates (codes "db migrate: cannot set user_version") s m sound same keeps
          tables)
    | inr new ↦
        let current = ap (is_below 3) (same ∙ sym read) ∙ new in
        rw new (
          λ h. let (d, f, a) = tables h in (current, d, f, a),
          λ e h. same,
          Stays-IsSound s m.0 same keeps sound,
        )
  ]

  pub migrate-Migrates : (s : engine.State) → IsSound engine sql s → Migrates s (migrate engine s)
  unfolding migrate
  migrate-Migrates s sound = elim (Result-cases (engine.user_version s)) [
    | inl (v, read) ↦
        let same = sql.reads s v read in
        let (kept, keeps) = prepared-Stays engine sql v s in
        rw (migrate, read)
          (stamp-Migrates v s (prepared engine sql v s) sound same kept keeps (
            subst (λ u. (prepared engine sql u s).1 ≡ none → Tables (prepared engine sql u s).0)
              (sym same) (prepared-Has engine sql s sound)))
    | inr (e, failed) ↦ rw (migrate, failed) (λ h. ground arith, λ e2 h. refl, sound)
  ]

  pragmas_from-Stays :
      (ps : List Text) (s : engine.State) (m : Done)
      → Stays engine sql s m
      → Stays engine sql s (pragmas_from engine ps m)
  pragmas_from-Stays [] s m stays = stays
  pragmas_from-Stays (p ∷ ps) s m stays =
      let message = codes "pragma \"" ++ (p ++ b'"' ∷ []) in
      pragmas_from-Stays ps s (and_exec engine message (pragma p) m)
        (and_exec-Stays engine sql message (pragma p) s m refl stays)

  connected-inj : (t u : engine.State) → connected t ≡ connected u → t ≡ u
  connected-inj t u h = ground arith

  and_migrate-IsReady :
      (m : Done) (t : engine.State)
      → IsSound engine sql m.0
      → or_close engine (and_migrate engine m) ≡ connected t
      → IsReady engine sql t
  and_migrate-IsReady (s, some e) t sound h = ground arith
  and_migrate-IsReady (s, none) t sound h =
      finished (migrate engine s) ((migrate-Migrates s sound).0) h
    where
      finished :
          (m : Done)
          → (m.1 ≡ none → IsReady engine sql m.0)
          → or_close engine m ≡ connected t
          → IsReady engine sql t
      finished (u, none) ready h = subst (IsReady engine sql) (connected-inj u t h) (ready refl)
      finished (u, some e) ready h = ground arith

  migrate_current :
      (t : engine.State) (v : ℤ)
      → IsReady engine sql t
      → engine.user_version t ≡ ok v
      → migrate engine t ≡ (t, none)
  unfolding migrate
  migrate_current t v (current, d, f, a) read =
      let now : is_below 3 v ≡ false = ap (is_below 3) (sql.reads t v read) ∙ current in
      rw (migrate, read, now, is_below_less 1 v refl now, is_below_less 2 v refl now) refl
    where
      is_below_less : (n : ℕ) (v : ℤ) → ltb n 3 ≡ true → is_below 3 v ≡ false → is_below n v ≡ false
      is_below_less n (pos k) less h = ground arith
      is_below_less n (negsuc k) less h = ground arith

  -- When New returns a connection to a database whose tables are those that its version stands
  -- for, the database has the current version or a later one and all three tables, and a later
  -- migrate that can read the version executes nothing.
  pub new_db-IsReady :
      (s t : engine.State)
      → IsSound engine sql s
      → new_db engine (ok s) ≡ connected t
      → IsReady engine sql t
        × ((v : ℤ) → engine.user_version t ≡ ok v → migrate engine t ≡ (t, none))
  unfolding new_db apply_pragmas
  new_db-IsReady s t sound h =
      let (same, keeps) = pragmas_from-Stays pragmas s (s, none) (refl, λ x has. has) in
      let ready =
        and_migrate-IsReady (apply_pragmas engine s) t
          (Stays-IsSound s (apply_pragmas engine s).0 same keeps sound) h in
      (ready, λ v read. migrate_current t v ready read)
