-- ===== src/Server/Settings/Tests.antt =====
-- The theorems on `handleSettings` of internal/server/server.go at concrete requests.
use filesearch.Base.{◌≡◌, refl, true, none, some, [], ◌∷◌, codes, All}
use filesearch.Base.Result.{ok, err}
use filesearch.Config.{FileSystem, Codec}
use filesearch.Server.Settings.{Settings, Disk, Refusal, sensitive, handle_settings}
use filesearch.Server.Settings.Roots.{
  IsAllowed, is_sensitive_path-IsOutside, handle_settings-IsAllowed,
}

-- Every path is a directory, and /home/link leads to /etc.
abbrev disk : Disk
disk = record { eval_symlinks = λ path. some (codes "/etc"); stat_is_dir = λ path. some true }

-- A disk that nothing is written to, and a codec that nothing is encoded with.
abbrev files : FileSystem
files = record {
  State = Unit;
  file = λ s p. none;
  read_file = λ s p. ok none;
  mkdir_parent = λ s p. (s, none);
  write_file = λ s p data_. (s, some []);
  rename = λ s p q. (s, some []);
}

abbrev codec : Codec
codec = record { marshal_indent = λ c. err []; unmarshal = λ data_. err [] }

abbrev settings : Settings
settings = record { hw_mode = codes "eco"; mode_override = []; indexed_roots = codes "/docs" ∷ [] }

handle_settings-IsAllowed_example :
    All
      (IsAllowed disk)
      (handle_settings files codec disk
        (some (codes "/home/link", []))
        true
        settings
        none).0.indexed_roots
unfolding filesearch.Server.Settings.is_sensitive_path
handle_settings-IsAllowed_example =
    handle_settings-IsAllowed files codec disk true settings none (some (codes "/home/link", []))
      ((refl, is_sensitive_path-IsOutside (codes "/docs") refl, refl), tt)

refused_at :
    (handle_settings files codec disk (some (codes "/home/link", [])) true settings none).3
    ≡ some sensitive
unfolding handle_settings filesearch.Server.Settings.check_dir
    filesearch.Server.Settings.is_unc_path filesearch.Server.Settings.is_sensitive_path
refused_at = refl
