-- ===== src/Logger.antt =====
-- internal/logger/logger.go: the writer of the log file with its rotation. The file system is a state
-- with the calls of package os that the writer makes; the lock makes each call atomic.
pub mod Rotation
pub mod Backups
mod Tests
use filesearch.Base.{
  ℕ, zero, suc, ◌+◌, ◌*◌, ltb, Option, none, some, [], ◌∷◌, ◌++◌, Text, codes, length, decimal,
  if◌then◌else◌,
}
use filesearch.Base.Result.{Error, Result, ok, err, ◌>>=◌}

abbrev pub max_log_size : ℕ
max_log_size = 10 * 1024 * 1024

-- The number of the oldest backup but one, where the shifts start.
abbrev pub last_shift : ℕ
last_shift = 2

pub record LogSystem : Type 1 where
  pub State : Type 0
  pub File : Type 0
  pub open_append : State → Text → Result (State × File)
  pub open_trunc : State → Text → Result (State × File)
  pub stat_size : State → File → Result ℕ
  pub close_file : State → File → State
  pub rename : State → Text → Text → State
  -- The number of bytes that were written, with the error.
  pub write_file : State → File → Text → State × ℕ × Option Error

abbrev size_or_zero : Result ℕ → ℕ
size_or_zero (ok n) = n
size_or_zero (err e) = 0

module _ (os : LogSystem) where
  pub record RotatingWriter : Type 0 where
    pub path : Text
    pub file : Option os.File
    pub size : ℕ

  -- newRotatingWriter(path)
  unfoldable pub new_rotating_writer : os.State → Text → Result (os.State × RotatingWriter)
  new_rotating_writer s path = do
    (t, file) ← os.open_append s path
    ok (t, record { path = path; file = some file; size = size_or_zero (os.stat_size t file) })

  abbrev pub backup : Text → ℕ → Text
  backup path i = path ++ b'.' ∷ decimal i

  -- The backups from a number down to 1, each to the next number.
  abbrev pub shift_backups : os.State → Text → ℕ → os.State
  shift_backups s path zero = s
  shift_backups s path (suc i) =
      shift_backups (os.rename s (backup path (suc i)) (backup path (suc (suc i)))) path i

  abbrev pub close_current : os.State → Option os.File → os.State
  close_current s none = s
  close_current s (some file) = os.close_file s file

  -- A new file, or else the old one to append to, or none.
  abbrev pub reopen : os.State → Text → os.State × Option os.File
  reopen s path = elim (os.open_trunc s path) [
    | ok (t, file) ↦ (t, some file)
    | err e ↦ elim (os.open_append s path) [ ok (t, file) ↦ (t, some file) | err e2 ↦ (s, none) ]
  ]

  -- rotate()
  unfoldable pub rotate : os.State → RotatingWriter → os.State × RotatingWriter
  rotate s w =
      let shifted = shift_backups (close_current s w.file) w.path last_shift in
      let (t, file) = reopen (os.rename shifted w.path (w.path ++ codes ".1")) w.path in
      (t, record { path = w.path; file = file; size = 0 })

  -- Writing to no file is an error.
  abbrev pub append :
      os.State → RotatingWriter → Text → os.State × RotatingWriter × ℕ × Option Error
  append s w p = elim w.file [
    | none ↦ (s, w, 0, some (codes "invalid argument" ∷ []))
    | some file ↦
        let (t, n, failed) = os.write_file s file p in
        (t, record { path = w.path; file = w.file; size = w.size + n }, n, failed)
  ]

  -- Write(p)
  unfoldable pub write :
      os.State → RotatingWriter → Text → os.State × RotatingWriter × ℕ × Option Error
  unfolding rotate
  write s w p =
      if ltb max_log_size (w.size + length p)
      then (let (t, fresh) = rotate s w in append t fresh p)
      else append s w p
