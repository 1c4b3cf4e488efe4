-- ===== src/Server/Status.antt =====
-- The handlers of internal/server/server.go that report on the server: `handleHealth`, `handleConfig`,
-- `handleStatus`, `handleAudit` and `handleAuditExport`, with `logTail` and
-- `SetIndexing`. What the database returns in the call is an argument, `none` for no database.
pub mod Tail
mod Tests
use filesearch.Base.{
  ℕ, zero, suc, ◌+◌, ◌*◌, ◌/◌, ◌-◌, ◌==◌, Bool, true, false, not, ◌&&◌, ltb, leb, Option, none,
  some, List, [], ◌∷◌, ◌++◌, Text, codes, is_empty, text_eq, drop, length, if◌then◌else◌,
}
use filesearch.Base.Int.{ℤ, pos, negsuc, is_positive}
use filesearch.Base.Result.{Error, Result, ok, err}
use filesearch.Db.Audit.{AuditEntry}
use filesearch.Server.Settings.{Settings, effective_mode}

-- FileCount and VectorCount.
pub record Counts : Type 0 where
  pub file_count : Result ℕ
  pub vector_count : Result ℕ

abbrev pub count_or_zero : Result ℕ → ℕ
count_or_zero (ok n) = n
count_or_zero (err e) = 0

abbrev pub files_of : Option Counts → ℕ
files_of none = 0
files_of (some counts) = count_or_zero counts.file_count

abbrev pub vectors_of : Option Counts → ℕ
vectors_of none = 0
vectors_of (some counts) = count_or_zero counts.vector_count

pub record Health : Type 0 where
  pub version : Text
  pub mode : Text
  pub semantic_ready : Bool
  pub update_available : Bool
  pub latest_version : Text

-- handleHealth(w, r)
unfoldable pub handle_health : Option Counts → Settings → Text → Text → Health
handle_health counts s version latest = record {
  version = version;
  mode = effective_mode s;
  semantic_ready = ltb 0 (vectors_of counts);
  update_available = not (is_empty latest) && not (text_eq latest version);
  latest_version = latest;
}

pub record EmbeddingStatus : Type 0 where
  pub embedded : ℕ
  pub total : ℕ
  pub percent : ℕ

-- handleStatus(w, r)
unfoldable pub handle_status : Option Counts → EmbeddingStatus
handle_status counts =
    let total = files_of counts in
    let embedded = vectors_of counts in
    record {
      embedded = embedded;
      total = total;
      percent = if ltb 0 total then embedded * 100 / total else 0;
    }

-- SetIndexing(add), on the counter
unfoldable pub set_indexing : Bool → ℤ → ℤ
set_indexing true (pos n) = pos (suc n)
set_indexing true (negsuc zero) = pos zero
set_indexing true (negsuc (suc n)) = negsuc n
set_indexing false (pos zero) = negsuc zero
set_indexing false (pos (suc n)) = pos n
set_indexing false (negsuc n) = negsuc (suc n)

pub record ConfigReply : Type 0 where
  pub mode : Text
  pub mode_override : Text
  pub indexed_roots : List Text
  pub files_indexed : ℕ
  pub files_embedded : ℕ
  pub db_size_bytes : ℕ
  pub indexing : Bool

-- os.Stat of the database, if its path is set
abbrev size_of : Text → (Text → Option ℕ) → ℕ
size_of path stat = if is_empty path then 0 else elim (stat path) [ none ↦ 0 | some n ↦ n ]

-- handleConfig(w, r)
unfoldable pub handle_config :
    Option Counts → Settings → List Text → Text → (Text → Option ℕ) → ℤ → ConfigReply
handle_config counts s roots db_path stat indexing = record {
  mode = effective_mode s;
  mode_override = s.mode_override;
  indexed_roots = roots;
  files_indexed = files_of counts;
  files_embedded = vectors_of counts;
  db_size_bytes = size_of db_path stat;
  indexing = is_positive indexing;
}

pub data AuditReply (A : Type 0) : Type 0 where
  audit_body : A → AuditReply A
  audit_failed : Text → Error → AuditReply A
  no_database : AuditReply A

-- handleAudit(w, r), on `AuditLog` with the limit 100
unfoldable pub handle_audit : Option (ℤ → Result (List AuditEntry)) → AuditReply (List AuditEntry)
handle_audit none = audit_body []
handle_audit (some audit_log) = elim (audit_log (pos 100)) [
  | ok entries ↦ audit_body entries
  | err e ↦ audit_failed (codes "audit log failed: ") e
]

-- handleAuditExport(w, r), on `AuditCSV`
unfoldable pub handle_audit_export : Option (Result Text) → AuditReply Text
handle_audit_export none = no_database
handle_audit_export (some (ok csv)) = audit_body csv
handle_audit_export (some (err e)) = audit_failed (codes "audit export failed: ") e

-- bytes.Split(b, "\n") and bytes.Join(lines, "\n")
abbrev pub extend_first : ℕ → List Text → List Text
extend_first c [] = (c ∷ []) ∷ []
extend_first c (line ∷ lines) = (c ∷ line) ∷ lines

abbrev pub split_lines : Text → List Text
split_lines [] = [] ∷ []
split_lines (c ∷ b) =
    let lines = split_lines b in if c == 10 then [] ∷ lines else extend_first c lines

abbrev pub join_lines : List Text → Text
join_lines [] = []
join_lines (line ∷ []) = line
join_lines (line ∷ next ∷ lines) = line ++ 10 ∷ join_lines (next ∷ lines)

-- logTail(b, n)
unfoldable pub log_tail : Text → ℕ → Text
log_tail b n =
    let lines = split_lines b in
    if leb (length lines) n then b else join_lines (drop (length lines - n) lines)
