-- ===== src/Db/Audit.antt =====
-- The audit log of internal/db/audit.go: `LogSearch`, `AuditLog` and `AuditCSV`. The engine is what it
-- does for each statement; the time is the text that `time.Now` gives.
pub mod Csv
pub mod Log
mod Tests
use filesearch.Base.{
  ℕ, zero, suc, ◌==◌, ltb, List, [], ◌∷◌, ◌++◌, Text, codes, signed, if◌then◌else◌,
}
use filesearch.Base.Int.{ℤ, pos, negsuc}
use filesearch.Base.Result.{Result, ok, ◌>>=◌, wrap}
use filesearch.Db.Rows.{Answer, scanned}

pub record AuditEntry : Type 0 where
  pub id : ℤ
  pub searched_at : Text
  pub query : Text
  pub mode : Text
  pub results_n : ℤ
  pub duration_ms : ℤ

pub record AuditEngine : Type 1 where
  pub State : Type 0
  -- INSERT INTO audit_log (searched_at, query, mode, results_n, duration_ms) VALUES (?, ?, ?, ?, ?)
  pub insert_entry : State → Text → Text → Text → ℤ → ℤ → Result State
  -- SELECT … FROM audit_log ORDER BY id DESC LIMIT ?
  pub select_newest : State → ℤ → Result (Answer AuditEntry)

-- A limit out of range is 100.
abbrev pub audit_limit : ℤ → ℤ
audit_limit (pos zero) = pos 100
audit_limit (pos (suc n)) = if ltb 1000 (suc n) then pos 100 else pos (suc n)
audit_limit (negsuc n) = pos 100

module _ (engine : AuditEngine) where
  -- LogSearch(ctx, query, mode, resultsN, durationMs) at a time.
  abbrev pub log_search : engine.State → Text → Text → Text → ℤ → ℤ → Result engine.State
  log_search s now query mode results_n duration_ms =
      engine.insert_entry s now query mode results_n duration_ms

  -- AuditLog(ctx, limit)
  unfoldable pub audit_log : engine.State → ℤ → Result (List AuditEntry)
  audit_log s limit = do
    answer ← engine.select_newest s (audit_limit limit)
    scanned (λ r. r) answer

-- strings.ReplaceAll(q, `"`, `""`)
abbrev pub doubled : Text → Text
doubled [] = []
doubled (c ∷ q) = let rest = doubled q in if c == b'"' then b'"' ∷ b'"' ∷ rest else c ∷ rest

abbrev pub bom : Text
bom = 239 ∷ 187 ∷ 191 ∷ []

abbrev pub csv_header : Text
csv_header = codes "ID,Date,Requete,Mode,Resultats,Duree_ms\n"

-- `%d,"%s","%s","%s",%d,%d` and a newline
abbrev pub csv_line : AuditEntry → Text → Text
csv_line e rest =
    signed e.id
    ++ b','
      ∷ b'"'
      ∷ (e.searched_at
          ++ b'"'
            ∷ b','
            ∷ b'"'
            ∷ (doubled e.query
                ++ b'"'
                  ∷ b','
                  ∷ b'"'
                  ∷ (e.mode
                      ++ b'"'
                        ∷ b','
                        ∷ (signed e.results_n ++ b',' ∷ (signed e.duration_ms ++ 10 ∷ rest)))))

abbrev pub csv_lines : List AuditEntry → Text
csv_lines [] = []
csv_lines (e ∷ entries) = csv_line e (csv_lines entries)

abbrev pub csv_of : List AuditEntry → Text
csv_of entries = bom ++ (csv_header ++ csv_lines entries)

-- AuditCSV(ctx)
unfoldable pub audit_csv : (engine : AuditEngine) → engine.State → Result Text
unfolding audit_log
audit_csv engine s = do
  entries ← wrap (codes "audit csv") (audit_log engine s (pos 1000))
  ok (csv_of entries)
