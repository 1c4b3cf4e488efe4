-- ===== src/Db/Rows.antt =====
-- The rows that a query of internal/db returns, and the loop that scans them.
use filesearch.Base.{List, [], ◌∷◌, Option, none, some}
use filesearch.Base.Result.{Error, Result, ok, err, ◌>>=◌}

-- What each `rows.Scan` gives, in order, and `rows.Err()` after the last.
pub record Answer (A : Type 0) : Type 0 where
  pub rows : List (Result A)
  pub after : Option Error

module _ {A : Type 0} (scan : Result A → Result A) where
  abbrev scanned_from : List (Result A) → Option Error → Result (List A)
  scanned_from [] none = ok []
  scanned_from [] (some e) = err e
  scanned_from (r ∷ rows) after = do a ← scan r; rest ← scanned_from rows after; ok (a ∷ rest)

  -- The loop `for rows.Next()`, with what it makes of a row that cannot be scanned.
  abbrev pub scanned : Answer A → Result (List A)
  scanned answer = scanned_from answer.rows answer.after
