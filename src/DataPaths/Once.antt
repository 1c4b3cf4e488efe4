-- ===== src/DataPaths/Once.antt =====
-- A migration of internal/paths/paths.go keeps the files that are there, copies what is missing, and
-- is done once.
use filesearch.Base.{
  refl, ◌≡◌, ◌≢◌, ◌⊎◌, sym, ap, ◌∙◌, subst, inl, inr, Bool, false, none, some, Text, codes, arith,
}
use filesearch.Base.Result.{Error}
use filesearch.DataPaths.{
  AppDirs, DiskSystem, join_below, tmp_of, migrate_pair, db_file, config_file, migrate_if_needed,
}
use filesearch.DataPaths.Migration.{IsFiles, IsDisk}
use filesearch.DataPaths.Pairs.{
  IsFound, pair-keeps, IsSettled, pair-IsSettled, pair-target, pair-others, or_else, two_pairs,
  skipped_pairs, stays-IsSettled,
}

module _ (os : DiskSystem) (files : IsFiles os) where
  -- A migration, whether it succeeds or fails, keeps every file that is there with its content,
  -- but for the two temporary files, whatever os.Stat answers; one of the two targets is kept if
  -- os.Stat reports no error for it where it is there.
  pub migrate_if_needed-keeps :
      (exe_dir : Text) (d : AppDirs) (s : os.State) (x c : Text)
      → x ≢ tmp_of os (db_file d)
      → x ≢ tmp_of os (config_file d)
      → ((x ≡ db_file d) ⊎ (x ≡ config_file d) → IsFound os files x)
      → files.content s x ≡ some c
      → files.content (migrate_if_needed os s exe_dir d).0 x ≡ some c
  unfolding migrate_if_needed
  migrate_if_needed-keeps exe_dir d s x c nd nc known found =
      let a = join_below exe_dir (codes "data/index.db") in
      let b = join_below exe_dir (codes "data/config.json") in
      let first = pair-keeps os files s a (db_file d) x c (λ e. known (inl e)) nd found in
      let t = (migrate_pair os s a (db_file d)).0 in
      elim (two_pairs os files s a (db_file d) b (config_file d)) [
        | inl (at, why) ↦ rw at first
        | inr (done, at, next) ↦
            rw at (pair-keeps os files t b (config_file d) x c (λ e. known (inr e)) nc first)
      ]

module _ (os : DiskSystem) (disk : IsDisk os) (exe_dir : Text) (d : AppDirs) where
  abbrev pub old_db : Text
  old_db = join_below exe_dir (codes "data/index.db")

  abbrev pub old_config : Text
  old_config = join_below exe_dir (codes "data/config.json")

  -- The old and the new files are not each other's, nor each other's temporary ones.
  pub record AreApart : Type 0 where
    pub db_source : old_db ≢ tmp_of os (db_file d)
    pub config_source : old_config ≢ tmp_of os (config_file d)
    pub db_source_other : old_db ≢ tmp_of os (config_file d)
    pub config_source_other : old_config ≢ tmp_of os (db_file d)
    pub sources : old_db ≢ config_file d
    pub db_target : db_file d ≢ tmp_of os (config_file d)
    pub config_target : config_file d ≢ tmp_of os (db_file d)
    pub old_config_target : old_config ≢ db_file d
    pub targets : config_file d ≢ db_file d

  -- Where the names of the files are apart, after a migration with no error each target holds
  -- what it held, or, where it was missing, what the file of the old layout holds, and a second
  -- migration does nothing and reports that it copied nothing.
  pub migrate_if_needed_again :
      (apart : AreApart) (s t : os.State) (migrated : Bool)
      → migrate_if_needed os s exe_dir d ≡ (t, migrated, none)
      → (migrate_if_needed os t exe_dir d ≡ (t, false, none))
        × (disk.files.content t (db_file d)
            ≡ or_else (disk.files.content s (db_file d)) (disk.files.content s old_db))
        × (disk.files.content t (config_file d)
            ≡ or_else (disk.files.content s (config_file d)) (disk.files.content s old_config))
  unfolding migrate_if_needed
  migrate_if_needed_again apart s t migrated h =
      let db = db_file d in
      let config = config_file d in
      let u = (migrate_pair os s old_db db).0 in
      elim (two_pairs os disk.files s old_db db old_config config) [
        | inl (at, (e, failed)) ↦ absurd_error e (sym (ap (λ m. m.2) h) ∙ failed)
        | inr (one, at, next) ↦
            let two = next (ap (λ m. m.2) h) in
            let end : (migrate_pair os u old_config config).0 ≡ t = sym at ∙ ap (λ m. m.0) h in
            let settled =
              stays-IsSettled os disk u old_db db old_config config apart.db_source_other
                apart.sources apart.db_target
                (pair-IsSettled os disk s old_db db apart.db_source one) in
            let settled_2 = pair-IsSettled os disk u old_config config apart.config_source two in
            (
              skipped_pairs os disk t old_db db old_config config
                  (subst (λ v. IsSettled os disk v old_db db) end settled)
                  (subst (λ v. IsSettled os disk v old_config config) end settled_2),
              subst
                  (λ v.
                    disk.files.content v db
                    ≡ or_else (disk.files.content s db) (disk.files.content s old_db))
                  end
                  (pair-others os disk u old_config config db apart.db_target
                      (λ e. apart.targets (sym e))
                    ∙ pair-target os disk s old_db db apart.db_source one),
              subst
                  (λ v.
                    disk.files.content v config
                    ≡ or_else (disk.files.content s config) (disk.files.content s old_config))
                  end
                  (pair-target os disk u old_config config apart.config_source two
                    ∙ rw
                        (
                          pair-others os disk s old_db db config apart.config_target apart.targets,
                          pair-others os disk s old_db db old_config apart.config_source_other
                              apart.old_config_target,
                        )
                        refl),
            )
      ]
    where
      absurd_error : {B : Type 0} (e : Error) → none ≡ some e → B
      absurd_error e h = ground arith
