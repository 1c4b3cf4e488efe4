-- ===== src/Server/Settings.antt =====
-- `handleSettings` of internal/server/server.go and the tests on paths that it makes, on Unix. The
-- file system is an argument; the channel of new directories takes a value or drops it.
pub mod Roots
mod Tests
use filesearch.Base.{
  ℕ, suc, ◌<◌, Bool, true, false, not, ◌&&◌, ◌||◌, ◌==◌, leb, Option, none, some, List, [], ◌∷◌,
  ◌++◌, Text, codes, text_eq, any, has_prefix, contains, to_lower, member, is_empty, length, drop,
  clean_path, is_abs, if◌then◌else◌,
}
use filesearch.Config
use filesearch.Config.{FileSystem, Codec, Manager}

-- isLibraryPath(path)
unfoldable pub is_library_path : Text → Bool
is_library_path path = any (contains path) (
    codes "site-packages"
    ∷ codes "/env/Lib/"
    ∷ codes "/env/lib/"
    ∷ codes "node_modules"
    ∷ codes "vendor/"
    ∷ codes "/.git/"
    ∷ [])

abbrev pub sensitive_prefixes : List Text
sensitive_prefixes =
    codes "c:/windows"
    ∷ codes "c:/program files"
    ∷ codes "c:/program files (x86)"
    ∷ codes "c:/programdata"
    ∷ codes "c:/system volume information"
    ∷ codes "c:/recovery"
    ∷ codes "/appdata/roaming/microsoft/credentials"
    ∷ codes "/appdata/roaming/microsoft/protect"
    ∷ codes "/appdata/local/microsoft/credentials"
    ∷ codes "/proc"
    ∷ codes "/sys"
    ∷ codes "/dev"
    ∷ codes "/run"
    ∷ codes "/boot"
    ∷ codes "/etc"
    ∷ []

abbrev drive_prefixes : List Text
drive_prefixes =
    codes "/windows"
    ∷ codes "/program files"
    ∷ codes "/program files (x86)"
    ∷ codes "/programdata"
    ∷ []

-- The directory itself, or what is below it.
abbrev is_at_or_below : Text → Text → Bool
is_at_or_below path prefix = text_eq path prefix || has_prefix path (prefix ++ b'/' ∷ [])

-- The part of a path after a drive letter and its colon.
abbrev after_drive : Text → Option Text
after_drive (letter ∷ colon ∷ c ∷ rest) = if colon == b':' then some (c ∷ rest) else none
after_drive _ = none

-- isSensitivePath(p); `filepath.ToSlash` is the identity on Unix.
unfoldable pub is_sensitive_path : Text → Bool
is_sensitive_path p =
    let lower = to_lower p in
    any (is_at_or_below lower) sensitive_prefixes || (elim (after_drive lower) [
      | none ↦ false
      | some rest ↦ any (is_at_or_below rest) drive_prefixes
    ])

-- isUNCPath(p)
unfoldable pub is_unc_path : Text → Bool
is_unc_path p = has_prefix p (codes "//")

-- The fields of `Server` that the settings change.
pub record Settings : Type 0 where
  pub hw_mode : Text
  pub mode_override : Text
  pub indexed_roots : List Text

-- effectiveMode()
unfoldable pub effective_mode : Settings → Text
effective_mode s = if is_empty s.mode_override then s.hw_mode else s.mode_override

-- filepath.EvalSymlinks, and os.Stat with IsDir; `none` is an error.
pub record Disk : Type 0 where
  pub eval_symlinks : Text → Option Text
  pub stat_is_dir : Text → Option Bool

pub data Refusal : Type 0 where
  invalid_body not_absolute network_path not_accessible not_directory sensitive : Refusal

-- The status of a refused request.
abbrev pub status_of : Refusal → ℕ
status_of sensitive = 403
status_of _ = 400

pub data Checked : Type 0 where
  refused : Refusal → Checked
  accepted : Text → Checked

-- The resolved path, or the cleaned one where it does not resolve.
abbrev resolved_path : Disk → Text → Text
resolved_path disk path = elim (disk.eval_symlinks path) [ some p ↦ p | none ↦ path ]

abbrev check_resolved : Option Bool → Text → Checked
check_resolved none resolved = refused not_accessible
check_resolved (some false) resolved = refused not_directory
check_resolved (some true) resolved =
    if is_sensitive_path resolved then refused sensitive else accepted resolved

-- The checks of a directory, which is not empty.
unfoldable pub check_dir : Disk → Text → Checked
check_dir disk dir =
    let path = clean_path dir in
    if is_abs path
    then (if is_unc_path path
        then refused network_path
        else check_resolved (disk.stat_is_dir (resolved_path disk path)) (resolved_path disk path))
    else refused not_absolute

-- No directory stands for an empty field.
abbrev checked_dir : Disk → Text → Checked
checked_dir disk dir = if is_empty dir then accepted [] else check_dir disk dir

abbrev new_override : Text → Text → Text
new_override mode old =
    if text_eq mode (codes "auto") then [] else if is_empty mode then old else mode

abbrev add_root : Text → List Text → List Text
add_root dir roots = if is_empty dir || member dir roots then roots else roots ++ dir ∷ []

unfoldable pub apply_settings : Text → Text → Settings → Settings
apply_settings dir mode s = record s {
  mode_override = new_override mode s.mode_override;
  indexed_roots = add_root dir s.indexed_roots;
}

module _ (fs : FileSystem) (json : Codec) where
  abbrev persist_dir : Text → fs.State × Manager → fs.State × Manager
  persist_dir dir (s, m) =
      if is_empty dir
      then (s, m)
      else (let (m1, s1, e) = Config.add_dir fs json s m dir in (s1, m1))

  abbrev persist_mode : Text → fs.State × Manager → fs.State × Manager
  persist_mode mode (s, m) =
      if is_empty mode
      then (s, m)
      else (let (m1, s1, e) =
            Config.set_mode_override fs json s m
              (if text_eq mode (codes "auto") then [] else mode) in
          (s1, m1))

  -- The settings file, where the server has a manager.
  unfoldable pub persist : Text → Text → Option (fs.State × Manager) → Option (fs.State × Manager)
  persist dir mode none = none
  persist dir mode (some d) = some (persist_mode mode (persist_dir dir d))

-- The directory that is sent, where the server has a channel that takes it.
unfoldable pub announce : Bool → Text → Option Text
announce takes dir = if not (is_empty dir) && takes then some dir else none

module _ (fs : FileSystem) (json : Codec) where
  -- handleSettings on a decoded body: the settings, the settings file, the directory that is sent,
  -- and the refusal if there is one. `takes` says whether the channel takes a value.
  unfoldable pub handle_settings :
      Disk
      → Option (Text × Text)
      → Bool
      → Settings
      → Option (fs.State × Manager)
      → Settings × Option (fs.State × Manager) × Option Text × Option Refusal
  handle_settings disk none takes s d = (s, d, none, some invalid_body)
  handle_settings disk (some (dir, mode)) takes s d = elim (checked_dir disk dir) [
    | refused r ↦ (s, d, none, some r)
    | accepted path ↦
        (apply_settings path mode s, persist fs json path mode d, announce takes path, none)
  ]
