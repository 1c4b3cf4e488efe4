-- ===== src/DataPaths/Tests.antt =====
-- The migration of internal/paths/paths.go in a file system in memory.
use filesearch.Base.{
  ◌≡◌, ◌≢◌, refl, ◌∙◌, inl, inr, Option-cases, Bool, true, false, Option, none, some, List, [], ◌∷◌,
  Text, codes, text_eq_ne, lookup, insert, remove, lookup-insert_self, lookup-insert_other,
  lookup-remove_other, arith,
}
use filesearch.Base.Result.{Error, ok}
use filesearch.DataPaths.{
  AppDirs, Environment, DiskSystem, tmp_of, db_file, config_file, app_dirs, migrate_if_needed,
  copy_file, resolve,
}
use filesearch.DataPaths.Migration.{IsFiles, IsDisk}
use filesearch.DataPaths.Once.{AreApart, migrate_if_needed-keeps, migrate_if_needed_again}

abbrev Files : Type 0
Files = List (Text × Text)

abbrev missing : Error
missing = codes "no such file" ∷ []

abbrev copy_in : Files → Text → Text → Files × Option Error
copy_in s a f = elim (lookup a s) [ none ↦ (s, some missing) | some c ↦ (insert f c s, none) ]

abbrev rename_in : Files → Text → Text → Files × Option Error
rename_in s a b = elim (lookup a s) [
  | none ↦ (s, some missing)
  | some c ↦ (insert b c (remove a s), none)
]

abbrev stat_in : Files → Text → Option Bool
stat_in s x = elim (lookup x s) [ none ↦ some true | some c ↦ none ]

abbrev open_in : Files → Text → Option Error
open_in s x = elim (lookup x s) [ none ↦ some missing | some c ↦ none ]

abbrev in_memory : DiskSystem
in_memory = record {
  State = Files;
  mkdir_all = λ s dir. (s, none);
  stat = stat_in;
  open_source = open_in;
  create_trunc = λ s f. (insert f [] s, none);
  copy_bytes = copy_in;
  close_output = λ s f. (s, none);
  remove_file = λ s f. remove f s;
  rename = rename_in;
}

in_memory-IsFiles : IsFiles in_memory
in_memory-IsFiles = record {
  content = λ s x. lookup x s;
  creates = λ s f x ne. lookup-insert_other f x [] s ne;
  copies = λ s a f x ne. copies s a f x ne;
  closes = λ s f x ne. refl;
  removes = λ s f x ne. lookup-remove_other f x s ne;
  renames_other = λ s a b x na nb. others s a b x na nb;
  keeps_target = λ s a b e h. stays s a b e h;
  moves = λ s a b h. moves s a b h;
  copied = λ s a f h closed. copied s a f h;
}
  where
    copies : (s : Files) (a f x : Text) → x ≢ f → lookup x (copy_in s a f).0 ≡ lookup x s
    copies s a f x ne = elim (Option-cases (lookup a s)) [
      | inl gone ↦ rw (copy_in, gone) refl
      | inr (c, found) ↦ rw (copy_in, found) (lookup-insert_other f x c s ne)
    ]

    others : (s : Files) (a b x : Text) → x ≢ a → x ≢ b → lookup x (rename_in s a b).0 ≡ lookup x s
    others s a b x na nb = elim (Option-cases (lookup a s)) [
      | inl gone ↦ rw (rename_in, gone) refl
      | inr (c, found) ↦
          rw (rename_in, found)
            (lookup-insert_other b x c (remove a s) nb ∙ lookup-remove_other a x s na)
    ]

    stays :
        (s : Files) (a b : Text) (e : Error)
        → (rename_in s a b).1 ≡ some e
        → lookup b (rename_in s a b).0 ≡ lookup b s
    stays s a b e h = elim (Option-cases (lookup a s)) [
      | inl gone ↦ rw (rename_in, gone) refl
      | inr (c, found) ↦ ground arith
    ]

    moves :
        (s : Files) (a b : Text)
        → (rename_in s a b).1 ≡ none
        → (c : Text) × (lookup a s ≡ some c) × (lookup b (rename_in s a b).0 ≡ some c)
    moves s a b h = elim (Option-cases (lookup a s)) [
      | inl gone ↦ ground arith
      | inr (c, found) ↦ (c, found, rw (rename_in, found) (lookup-insert_self b c (remove a s)))
    ]

    copied :
        (s : Files) (a f : Text)
        → (copy_in s a f).1 ≡ none
        → lookup f (copy_in s a f).0 ≡ lookup a s
    copied s a f h = elim (Option-cases (lookup a s)) [
      | inl gone ↦ ground arith
      | inr (c, found) ↦ rw (copy_in, found) (lookup-insert_self f c s)
    ]

finds_in : (s : Files) (x c : Text) → lookup x s ≡ some c → stat_in s x ≡ none
finds_in s x c h = rw (stat_in, h) refl

misses_in : (s : Files) (x : Text) → lookup x s ≡ none → stat_in s x ≡ some true
misses_in s x h = rw (stat_in, h) refl

in_memory-IsDisk : IsDisk in_memory
unfolding in_memory-IsFiles
in_memory-IsDisk = record {
  files = in_memory-IsFiles;
  finds = λ s x c h. finds_in s x c h;
  misses = λ s x h. misses_in s x h;
}

abbrev dirs : AppDirs
dirs = app_dirs (codes "/home/u/.config") (codes "/home/u/.local/share")

abbrev linux : Environment
linux = record {
  is_windows = false;
  user_config_dir = ok (codes "/home/u/.config");
  local_app_data = [];
  xdg_data_home = [];
  user_home_dir = ok (codes "/home/u");
}

resolve-linux : resolve in_memory linux [] ≡ ([], ok dirs)
unfolding resolve
resolve-linux = refl

abbrev index : Text
index = codes "/opt/fs/data/index.db"

abbrev before : Files
before = (index, codes "rows") ∷ (config_file dirs, codes "{}") ∷ []

abbrev after : Files
after = (db_file dirs, codes "rows") ∷ before

apart : AreApart in_memory in_memory-IsDisk (codes "/opt/fs") dirs
apart = record {
  db_source = text_eq_ne index (tmp_of in_memory (db_file dirs)) refl;
  config_source =
      text_eq_ne (codes "/opt/fs/data/config.json") (tmp_of in_memory (config_file dirs)) refl;
  db_source_other = text_eq_ne index (tmp_of in_memory (config_file dirs)) refl;
  config_source_other =
      text_eq_ne (codes "/opt/fs/data/config.json") (tmp_of in_memory (db_file dirs)) refl;
  sources = text_eq_ne index (config_file dirs) refl;
  db_target = text_eq_ne (db_file dirs) (tmp_of in_memory (config_file dirs)) refl;
  config_target = text_eq_ne (config_file dirs) (tmp_of in_memory (db_file dirs)) refl;
  old_config_target = text_eq_ne (codes "/opt/fs/data/config.json") (db_file dirs) refl;
  targets = text_eq_ne (config_file dirs) (db_file dirs) refl;
}

migrate_if_needed-keeps_example :
    lookup (config_file dirs) (migrate_if_needed in_memory before (codes "/opt/fs") dirs).0
    ≡ some (codes "{}")
unfolding in_memory-IsFiles lookup
migrate_if_needed-keeps_example =
    migrate_if_needed-keeps in_memory in_memory-IsFiles (codes "/opt/fs") dirs before
      (config_file dirs) (codes "{}")
      (text_eq_ne (config_file dirs) (tmp_of in_memory (db_file dirs)) refl)
      (text_eq_ne (config_file dirs) (tmp_of in_memory (config_file dirs)) refl)
      (λ which u c h. finds_in u (config_file dirs) c h) refl

migrate_if_needed_again_example :
    (migrate_if_needed in_memory after (codes "/opt/fs") dirs ≡ (after, false, none))
    × (lookup (db_file dirs) after ≡ some (codes "rows"))
    × (lookup (config_file dirs) after ≡ some (codes "{}"))
unfolding in_memory-IsDisk in_memory-IsFiles lookup insert remove migrate_if_needed copy_file
migrate_if_needed_again_example =
    migrate_if_needed_again in_memory in_memory-IsDisk (codes "/opt/fs") dirs apart before after
      true refl
