-- ===== src/Indexer/Policy.antt =====
-- internal/indexer/indexer.go: the constants, the tables of names, and what they decide about a
-- directory and a file.
use filesearch.Base.{
  ℕ, ◌*◌, ◌/◌, Bool, not, ◌&&◌, ◌||◌, List, [], ◌∷◌, ◌++◌, Text, codes, Option, none, some, text_eq,
  ltb, map, any, keep, member, to_lower, has_suffix, contains, is_empty, trim_space, base, ext,
  if◌then◌else◌,
}

abbrev pub max_file_size : ℕ
max_file_size = 50 * 1024 * 1024

abbrev pub max_index_bytes : ℕ
max_index_bytes = 1 * 1024 * 1024

abbrev workers_max_cap : ℕ
workers_max_cap = 8

-- defaultExcludedDirs
abbrev pub default_excluded_dirs : List Text
default_excluded_dirs =
    codes "node_modules"
    ∷ codes ".git"
    ∷ codes ".hg"
    ∷ codes ".svn"
    ∷ codes "__pycache__"
    ∷ codes ".cache"
    ∷ codes "dist"
    ∷ codes "build"
    ∷ codes "vendor"
    ∷ codes ".venv"
    ∷ codes "venv"
    ∷ codes ".tox"
    ∷ codes "target"
    ∷ codes "bin"
    ∷ codes "obj"
    ∷ codes "site-packages"
    ∷ codes "Windows"
    ∷ codes "System32"
    ∷ codes "SysWOW64"
    ∷ codes "WinSxS"
    ∷ codes "$Recycle.Bin"
    ∷ codes "System Volume Information"
    ∷ codes "Recovery"
    ∷ codes "ProgramData"
    ∷ codes "Program Files"
    ∷ codes "Program Files (x86)"
    ∷ []

-- secretExcludedDirs
abbrev pub secret_excluded_dirs : List Text
secret_excluded_dirs =
    codes ".ssh"
    ∷ codes ".gnupg"
    ∷ codes ".gpg"
    ∷ codes ".aws"
    ∷ codes ".azure"
    ∷ codes ".kube"
    ∷ codes ".bitcoin"
    ∷ codes ".ethereum"
    ∷ codes ".electrum"
    ∷ codes "User Data"
    ∷ codes "keystore"
    ∷ codes ".password-store"
    ∷ codes ".gnome-keyring"
    ∷ []

-- secretExcludedPathSuffixes
abbrev pub secret_excluded_path_suffixes : List Text
secret_excluded_path_suffixes =
    codes "/.ssh"
    ∷ codes "/.gnupg"
    ∷ codes "/.aws"
    ∷ codes "/.azure"
    ∷ codes "/.kube"
    ∷ codes "/.bitcoin"
    ∷ codes "/.ethereum"
    ∷ codes "/google/chrome/user data/default"
    ∷ codes "/mozilla/firefox"
    ∷ codes "/microsoft/edge/user data/default"
    ∷ codes "/appdata/roaming/microsoft/credentials"
    ∷ codes "/appdata/roaming/microsoft/protect"
    ∷ codes "/appdata/local/microsoft/credentials"
    ∷ []

-- secretFileBasenames
abbrev pub secret_file_basenames : List Text
secret_file_basenames =
    codes ".env"
    ∷ codes ".env.local"
    ∷ codes ".env.prod"
    ∷ codes ".env.staging"
    ∷ codes ".envrc"
    ∷ codes "credentials"
    ∷ codes ".netrc"
    ∷ codes ".pgpass"
    ∷ codes "id_rsa"
    ∷ codes "id_ed25519"
    ∷ codes "id_ecdsa"
    ∷ codes "id_dsa"
    ∷ []

-- secretFileExtensions
abbrev pub secret_file_extensions : List Text
secret_file_extensions =
    codes ".pem"
    ∷ codes ".key"
    ∷ codes ".p12"
    ∷ codes ".pfx"
    ∷ codes ".p8"
    ∷ codes ".jks"
    ∷ codes ".kdbx"
    ∷ codes ".asc"
    ∷ []

-- supportedExtensions
abbrev pub supported_extensions : List Text
supported_extensions =
    codes ".txt"
    ∷ codes ".md"
    ∷ codes ".html"
    ∷ codes ".htm"
    ∷ codes ".csv"
    ∷ codes ".json"
    ∷ codes ".yaml"
    ∷ codes ".yml"
    ∷ codes ".rtf"
    ∷ codes ".pdf"
    ∷ codes ".docx"
    ∷ codes ".xlsx"
    ∷ codes ".pptx"
    ∷ codes ".odt"
    ∷ codes ".ods"
    ∷ codes ".odp"
    ∷ codes ".xml"
    ∷ codes ".log"
    ∷ codes ".ini"
    ∷ codes ".cfg"
    ∷ codes ".conf"
    ∷ codes ".toml"
    ∷ codes ".sh"
    ∷ codes ".bat"
    ∷ codes ".ps1"
    ∷ codes ".py"
    ∷ codes ".js"
    ∷ codes ".ts"
    ∷ codes ".sql"
    ∷ codes ".tex"
    ∷ codes ".doc"
    ∷ codes ".xls"
    ∷ codes ".ppt"
    ∷ []

-- adaptiveWorkers(), for a number of processors
unfoldable pub adaptive_workers : ℕ → ℕ
adaptive_workers num_cpu =
    let n = num_cpu / 2 in
    let n1 = if ltb n 1 then 1 else n in if ltb workers_max_cap n1 then workers_max_cap else n1

-- The names that `Run` excludes: the default ones, and those of the call.
unfoldable pub excluded_names : List Text → List Text
excluded_names extra_exclude =
    map trim_space (keep (λ e. not (is_empty e)) extra_exclude) ++ default_excluded_dirs

-- What the walk finds out about a directory. `filepath.ToSlash` is the identity on these paths.
pub record DirEntry : Type 0 where
  pub path : Text
  pub has_pyvenv : Bool
  pub read_fails : Bool

-- A directory on the way to credentials.
unfoldable pub is_secret_path : Text → Bool
is_secret_path path =
    let lower_path = to_lower path in
    any (λ suffix. has_suffix lower_path suffix || contains lower_path (suffix ++ b'/' ∷ []))
      secret_excluded_path_suffixes

-- `fs.SkipDir` for a directory
unfoldable pub skips_dir : List Text → DirEntry → Bool
skips_dir excluded d =
    member (base d.path) excluded
    || (member (base d.path) secret_excluded_dirs
        || (is_secret_path d.path || (text_eq (base d.path) (codes "env") && d.has_pyvenv)))

-- What the walk finds out about a file; no size is an error of `d.Info()`. A placeholder is one of
-- OneDrive, as `isCloudPlaceholder` finds.
pub record FileEntry : Type 0 where
  pub path : Text
  pub size : Option ℕ
  pub is_placeholder : Bool

pub data FileVerdict : Type 0 where
  secret unsupported stat_error too_large placeholder indexed : FileVerdict

abbrev sized : FileEntry → Option ℕ → FileVerdict
sized f none = stat_error
sized f (some size) =
    if ltb max_file_size size then too_large else if f.is_placeholder then placeholder else indexed

-- The checks of a file, in their order.
unfoldable pub file_verdict : FileEntry → FileVerdict
file_verdict f =
    if member (to_lower (ext f.path)) secret_file_extensions
    then secret
    else if member (to_lower (base f.path)) secret_file_basenames
    then secret
    else if member (to_lower (ext f.path)) supported_extensions
    then sized f f.size
    else unsupported
