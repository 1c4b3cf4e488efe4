-- ===== src/Config.antt =====
-- internal/config/config.go: the persistent settings. The file system and the JSON codec are
-- records of what the code calls. A method gives the next manager and file system with its error: a
-- change in memory stays where the write to disk fails. The mutex makes a method one step.
pub mod Persist
mod Tests
use filesearch.Base.{
  ℕ, ◌≡◌, ◌≢◌, Bool, true, false, Option, none, some, List, [], ◌∷◌, ◌++◌, Text, codes, text_eq,
  member, is_empty, if◌then◌else◌,
}
use filesearch.Base.Result.{Error, Result, ok, err, ◌>>=◌}

pub record Config : Type 0 where
  pub indexed_dirs : List Text
  pub mode_override : Text

pub record Manager : Type 0 where
  pub path : Text
  pub cfg : Config

-- The calls of the package `os`. Each may fail, and a failed write may leave any bytes in its file.
pub record FileSystem : Type 1 where
  pub State : Type 0
  pub file : State → Text → Option Text
  -- `none` is `os.IsNotExist`
  pub read_file : State → Text → Result (Option Text)
  -- os.MkdirAll(filepath.Dir(path), 0o755)
  pub mkdir_parent : State → Text → State × Option Error
  pub write_file : State → Text → Text → State × Option Error
  pub rename : State → Text → Text → State × Option Error

pub record IsFileSystem (fs : FileSystem) : Type 0 where
  pub read_file_lem :
      (s : fs.State) (p : Text) (o : Option Text) → fs.read_file s p ≡ ok o → o ≡ fs.file s p
  pub mkdir_parent_file :
      (s : fs.State) (p q : Text) → fs.file (fs.mkdir_parent s p).0 q ≡ fs.file s q
  pub write_file_lem :
      (s : fs.State) (p data_ : Text)
      → (fs.write_file s p data_).1 ≡ none
      → fs.file (fs.write_file s p data_).0 p ≡ some data_
  pub write_file_other :
      (s : fs.State) (p data_ q : Text)
      → p ≢ q
      → fs.file (fs.write_file s p data_).0 q ≡ fs.file s q
  pub rename_lem :
      (s : fs.State) (p q : Text)
      → (fs.rename s p q).1 ≡ none
      → fs.file (fs.rename s p q).0 q ≡ fs.file s p
  pub rename_failed :
      (s : fs.State) (p q : Text) (e : Error)
      → (fs.rename s p q).1 ≡ some e
      → fs.file (fs.rename s p q).0 q ≡ fs.file s q

-- encoding/json on the configuration
pub record Codec : Type 0 where
  pub marshal_indent : Config → Result Text
  pub unmarshal : Text → Result Config

abbrev pub empty_config : Config
empty_config = record { indexed_dirs = []; mode_override = [] }

-- Get()
unfoldable pub get : Manager → Config
get m = record { indexed_dirs = m.cfg.indexed_dirs; mode_override = m.cfg.mode_override }

-- The file that is written first.
abbrev pub tmp_path : Text → Text
tmp_path path = path ++ codes ".tmp"

module _ (fs : FileSystem) (json : Codec) where
  abbrev loaded : Text → Option Text → Result Manager
  loaded path none = ok (record { path = path; cfg = empty_config })
  loaded path (some data_) = do cfg ← json.unmarshal data_; ok (record { path = path; cfg = cfg })

  -- Load(path)
  unfoldable pub load : fs.State → Text → Result Manager
  load s path =
      if is_empty path
      then ok (record { path = path; cfg = empty_config })
      else fs.read_file s path >>= loaded path

  -- `save` from the write on.
  unfoldable pub write_config : fs.State → Text → Text → fs.State × Option Error
  write_config s path data_ =
      let (s1, failed) = fs.write_file s (tmp_path path) data_ in
      elim failed [ some e ↦ (s1, some e) | none ↦ fs.rename s1 (tmp_path path) path ]

  -- save()
  unfoldable pub save : fs.State → Manager → fs.State × Option Error
  save s m =
      let (s1, failed) = fs.mkdir_parent s m.path in
      elim failed [
        | some e ↦ (s1, some e)
        | none ↦ elim (json.marshal_indent m.cfg) [
          | err e ↦ (s1, some e)
          | ok data_ ↦ write_config s1 m.path data_
        ]
      ]

  abbrev saved : fs.State → Manager → Manager × fs.State × Option Error
  saved s m = let (s1, e) = save s m in (m, s1, e)

  abbrev with_dirs : Manager → List Text → Manager
  with_dirs m dirs = record m { cfg = record m.cfg { indexed_dirs = dirs } }

  -- AddDir(dir)
  unfoldable pub add_dir : fs.State → Manager → Text → Manager × fs.State × Option Error
  add_dir s m dir =
      if member dir m.cfg.indexed_dirs
      then (m, s, none)
      else saved s (with_dirs m (m.cfg.indexed_dirs ++ dir ∷ []))

  -- SetModeOverride(mode)
  unfoldable pub set_mode_override : fs.State → Manager → Text → Manager × fs.State × Option Error
  set_mode_override s m mode = saved s (record m { cfg = record m.cfg { mode_override = mode } })

  -- SetDirs(dirs)
  unfoldable pub set_dirs : fs.State → Manager → List Text → Manager × fs.State × Option Error
  set_dirs s m dirs = saved s (with_dirs m dirs)
