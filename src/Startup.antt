-- ===== src/Startup.antt =====
-- What cmd/server/main.go decides before and while the server starts: the paths, the address, whether
-- another process answers there, the mode, waiting for the server, and the check for an update.
-- Answers of HTTP requests, the clock and the environment are parameters.
pub mod Waiting
mod Tests
use filesearch.Base.{
  ℕ, zero, suc, ◌+◌, Bool, true, false, not, ◌||◌, ◌&&◌, ◌==◌, ltb, Option, none, some, List, [],
  ◌∷◌, ◌++◌, Text, codes, is_empty, text_eq, contains, has_prefix, drop, signed, if◌then◌else◌,
}
use filesearch.Base.Int.{ℤ, pos, negsuc}
use filesearch.Base.Result.{Result, ok, err}
use filesearch.DataPaths.{AppDirs, join_below, db_file, config_file}

pub record Flags : Type 0 where
  pub json_log : Bool
  pub addr : Text
  pub port : ℤ
  pub dir : Text
  pub db : Text
  pub config : Text
  pub token : Text
  pub no_browser : Bool

abbrev or_default : Text → Text → Text
or_default given default = if is_empty given then default else given

-- The paths of the database and of the settings, by paths.Resolve and the directory of the program,
-- which is empty where os.Executable fails.
unfoldable pub chosen_paths : Result AppDirs → Text → Flags → Text × Text
chosen_paths (err e) exe_dir flags = if is_empty exe_dir then (flags.db, flags.config) else (
  or_default flags.db (join_below exe_dir (codes "data/index.db")),
  or_default flags.config (join_below exe_dir (codes "data/config.json")),
)
chosen_paths (ok dirs) exe_dir flags =
    (or_default flags.db (db_file dirs), or_default flags.config (config_file dirs))

abbrev pub is_unset : ℤ → Bool
is_unset (pos n) = n == 0
is_unset (negsuc n) = false

abbrev pub listen_addr : Flags → Text
listen_addr flags =
    if is_unset flags.port then flags.addr else codes "127.0.0.1:" ++ signed flags.port

abbrev pub server_url : Flags → Text
server_url flags = codes "http://" ++ listen_addr flags

-- An answer of http.Get: the status and the body, which may fail to be read.
pub record HttpAnswer : Type 0 where
  pub status : ℕ
  pub body : Option Text

abbrev pub is_filesearch_body : Text → Bool
is_filesearch_body body =
    contains body (codes "\"app\":\"filesearch\"")
    || contains body (codes "\"app\": \"filesearch\"")

-- isFileSearchRunning, on the answer of /health
unfoldable pub is_file_search_running : Option HttpAnswer → Bool
is_file_search_running none = false
is_file_search_running (some answer) =
    if not (answer.status == 200)
    then false
    else elim answer.body [ none ↦ false | some body ↦ is_filesearch_body body ]

pub data StartOutcome : Type 0 where
  already_running : Bool → StartOutcome
  port_occupied : StartOutcome
  continues : StartOutcome

-- The two requests of /health: the second follows where the first found no FileSearch.
unfoldable pub check_port : Flags → Option HttpAnswer → Option HttpAnswer → StartOutcome
unfolding is_file_search_running
check_port flags first second =
    if is_file_search_running first
    then already_running (not flags.no_browser)
    else elim second [ none ↦ continues | some answer ↦ port_occupied ]

-- The mode that the server starts with.
abbrev pub initial_mode : Text → Text → Text
initial_mode mode_override detected = or_default mode_override detected

abbrev pub answers_ok : Option HttpAnswer → Bool
answers_ok none = false
answers_ok (some answer) = answer.status == 200

-- waitForServer: polls until the server answers or the deadline is reached. A poll at a time takes some
-- time and gives an answer; the pause after it is 100 ms. `none` means that the fuel did not suffice.
unfoldable pub wait_for_server : (ℕ → ℕ × Option HttpAnswer) → ℕ → ℕ → ℕ → Option Bool
wait_for_server poll deadline zero now = none
wait_for_server poll deadline (suc fuel) now =
    let (taken, answer) = poll now in
    let rest = wait_for_server poll deadline fuel (now + taken + 100) in
    if not (ltb now deadline) then some false else if answers_ok answer then some true else rest

abbrev pub trim_v : Text → Text
trim_v tag = if has_prefix tag (codes "v") then drop 1 tag else tag

-- The version that `SetLatestVersion` gets for an answer of the releases, if any.
unfoldable pub newer_version : (Text → Option Text) → Text → Option HttpAnswer → Option Text
newer_version decode version none = none
newer_version decode version (some answer) =
    if not (answer.status == 200) then none else elim answer.body [
      | none ↦ none
      | some body ↦ elim (decode body) [
        | none ↦ none
        | some tag_name ↦
            if not (is_empty (trim_v tag_name)) && not (text_eq (trim_v tag_name) version)
            then some (trim_v tag_name)
            else none
      ]
    ]
