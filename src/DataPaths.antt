-- ===== src/DataPaths.antt =====
-- internal/paths/paths.go: the directories of the program and the copy of the files of the old layout.
-- Paths are those of Unix. What the environment gives and the calls of package os are parameters.
pub mod Migration
pub mod Pairs
pub mod Once
mod Tests
use filesearch.Base.{
  Bool, true, false, Option, none, some, List, [], ◌∷◌, ◌++◌, Text, codes, is_empty, clean_path,
  if◌then◌else◌,
}
use filesearch.Base.Result.{Error, Result, ok, err, ◌>>=◌, wrap}

pub record AppDirs : Type 0 where
  pub config_dir : Text
  pub data_dir : Text
  pub log_dir : Text

-- os.UserConfigDir, the variables that `Resolve` reads, and os.UserHomeDir.
pub record Environment : Type 0 where
  pub is_windows : Bool
  pub user_config_dir : Result Text
  pub local_app_data : Text
  pub xdg_data_home : Text
  pub user_home_dir : Result Text

-- filepath.Join of a directory and what is below it.
abbrev pub join_below : Text → Text → Text
join_below dir name = clean_path (if is_empty dir then name else dir ++ b'/' ∷ name)

abbrev pub data_root : Environment → Text → Result Text
data_root env config_root =
    if env.is_windows
    then ok (if is_empty env.local_app_data then config_root else env.local_app_data)
    else if is_empty env.xdg_data_home
    then (do
      home ← wrap (codes "paths: cannot determine home dir") env.user_home_dir
      ok (join_below home (codes ".local/share")))
    else ok env.xdg_data_home

abbrev pub app_dirs : Text → Text → AppDirs
app_dirs config_root root = record {
  config_dir = join_below config_root (codes "FileSearch");
  data_dir = join_below root (codes "FileSearch");
  log_dir = join_below root (codes "FileSearch/logs");
}

abbrev pub found_dirs : Environment → Result AppDirs
found_dirs env = do
  config_root ← wrap (codes "paths: cannot determine config dir") env.user_config_dir
  root ← data_root env config_root
  ok (app_dirs config_root root)

abbrev pub db_file : AppDirs → Text
db_file d = join_below d.data_dir (codes "index.db")

abbrev pub config_file : AppDirs → Text
config_file d = join_below d.config_dir (codes "config.json")

-- The state of the files, with the calls of package os; an error may come with a change.
pub record DiskSystem : Type 1 where
  pub State : Type 0
  pub mkdir_all : State → Text → State × Option Error
  -- os.Stat: an error, with whether os.IsNotExist says that it means a missing file.
  pub stat : State → Text → Option Bool
  pub open_source : State → Text → Option Error
  pub create_trunc : State → Text → State × Option Error
  -- io.Copy from the first file to the second
  pub copy_bytes : State → Text → Text → State × Option Error
  pub close_output : State → Text → State × Option Error
  pub remove_file : State → Text → State
  pub rename : State → Text → Text → State × Option Error

module _ (os : DiskSystem) where
  abbrev pub make_dirs : os.State → List Text → os.State × Option Error
  make_dirs s [] = (s, none)
  make_dirs s (dir ∷ dirs) =
      let (t, failed) = os.mkdir_all s dir in
      elim failed [
        | none ↦ make_dirs t dirs
        | some e ↦ (t, some ((codes "paths: cannot create dir " ++ dir) ∷ e))
      ]

  abbrev made : AppDirs → os.State × Option Error → os.State × Result AppDirs
  made dirs (s, none) = (s, ok dirs)
  made dirs (s, some e) = (s, err e)

  -- Resolve()
  unfoldable pub resolve : Environment → os.State → os.State × Result AppDirs
  resolve env s = elim (found_dirs env) [
    | err e ↦ (s, err e)
    | ok dirs ↦ made dirs (make_dirs s (dirs.config_dir ∷ dirs.data_dir ∷ dirs.log_dir ∷ []))
  ]

  -- copyFile after the temporary file is made: what is left of it is removed on an error.
  abbrev pub tmp_of : Text → Text
  tmp_of dst = dst ++ codes ".tmp"

  abbrev pub finish_copy : Text → os.State × Option Error → os.State × Option Error
  finish_copy dst (s, some e) = (os.remove_file s (tmp_of dst), some e)
  finish_copy dst (s, none) = os.rename s (tmp_of dst) dst

  abbrev pub close_copy : Text → os.State × Option Error → os.State × Option Error
  close_copy dst (s, some e) = let (t, failed) = os.close_output s (tmp_of dst) in (t, some e)
  close_copy dst (s, none) = os.close_output s (tmp_of dst)

  abbrev pub fill_copy : Text → Text → os.State × Option Error → os.State × Option Error
  fill_copy src dst (s, some e) = (s, some e)
  fill_copy src dst (s, none) = finish_copy dst (close_copy dst (os.copy_bytes s src (tmp_of dst)))

  -- copyFile(src, dst)
  unfoldable pub copy_file : os.State → Text → Text → os.State × Option Error
  copy_file s src dst = elim (os.open_source s src) [
    | some e ↦ (s, some e)
    | none ↦ fill_copy src dst (os.create_trunc s (tmp_of dst))
  ]

  -- os.IsNotExist of the error of os.Stat, and no error
  abbrev pub is_absent : Option Bool → Bool
  is_absent none = false
  is_absent (some not_exist) = not_exist

  abbrev pub is_there : Option Bool → Bool
  is_there none = true
  is_there (some not_exist) = false

  -- One pair of the loop of `MigrateIfNeeded`: the state, whether a file was copied, and the error.
  unfoldable pub migrate_pair : os.State → Text → Text → os.State × Bool × Option Error
  unfolding copy_file
  migrate_pair s old_path new_path =
      if is_absent (os.stat s old_path)
      then (s, false, none)
      else if is_there (os.stat s new_path)
      then (s, false, none)
      else (let (t, failed) = copy_file s old_path new_path in
          elim failed [
            | none ↦ (t, true, none)
            | some e ↦ (
              t,
              false,
              some ((codes "paths: migration " ++ (old_path ++ (codes " -> " ++ new_path))) ∷ e),
            )
          ])

  abbrev pub migrate_pairs : os.State → Bool → List (Text × Text) → os.State × Bool × Option Error
  migrate_pairs s migrated [] = (s, migrated, none)
  migrate_pairs s migrated ((old_path, new_path) ∷ pairs) =
      let (t, copied, failed) = migrate_pair s old_path new_path in
      elim failed [
        | some e ↦ (t, migrated, some e)
        | none ↦ migrate_pairs t (if copied then true else migrated) pairs
      ]

  -- MigrateIfNeeded(exeDir, d)
  unfoldable pub migrate_if_needed : os.State → Text → AppDirs → os.State × Bool × Option Error
  unfolding migrate_pair
  migrate_if_needed s exe_dir d = migrate_pairs s false (
      (join_below exe_dir (codes "data/index.db"), db_file d)
      ∷ (join_below exe_dir (codes "data/config.json"), config_file d)
      ∷ [])
