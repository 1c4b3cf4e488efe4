-- ===== src/Db/Audit/Tests.antt =====
-- The audit log of internal/db/audit.go at concrete entries, on an engine that keeps a list.
use filesearch.Base.{
  ℕ, suc, ◌+◌, ◌≡◌, ◌≤◌, refl, List, [], ◌∷◌, ◌++◌, take, map, length, Text, codes, none, arith,
  any, ◌==◌, ◌||◌, Bool-cases, inl, inr, true, false, if◌then◌else◌,
}
use filesearch.Base.Int.{ℤ, pos, negsuc}
use filesearch.Base.Result.{ok}
use filesearch.Db.Rows.{Answer}
use filesearch.Db.Audit.{AuditEntry, AuditEngine, bom, audit_log, audit_csv, csv_header}
use filesearch.Db.Audit.Csv.{csv_records, columns, fields_of, HasNoQuote, csv_records-audit_csv}
use filesearch.Db.Audit.Log.{IsAuditSql, log_search-audit_log}

abbrev newest : List AuditEntry → ℤ → List AuditEntry
newest entries (pos n) = take n entries
newest entries (negsuc n) = entries

abbrev entry_of : ℤ → Text → Text → Text → ℤ → ℤ → AuditEntry
entry_of id at query mode n d = record {
  id = id;
  searched_at = at;
  query = query;
  mode = mode;
  results_n = n;
  duration_ms = d;
}

abbrev kept : AuditEngine
kept = record {
  State = List AuditEntry;
  insert_entry = λ s at query mode n d. ok (entry_of (pos (suc (length s))) at query mode n d ∷ s);
  select_newest = λ s limit. ok (record { rows = map ok (newest s limit); after = none });
}

kept-IsAuditSql : IsAuditSql kept
kept-IsAuditSql = record {
  entries = λ s. s;
  inserts = λ s t at query mode n d h. (pos (suc (length s)), inserted s t at query mode n d h);
  selects = λ s limit answer h. selected s limit answer h;
}
  where
    inserted :
        (s t : List AuditEntry) (at query mode : Text) (n d : ℤ)
        → ok (entry_of (pos (suc (length s))) at query mode n d ∷ s) ≡ ok t
        → t ≡ entry_of (pos (suc (length s))) at query mode n d ∷ s
    inserted s t at query mode n d h = ground arith

    selected :
        (s : List AuditEntry) (limit : ℕ) (answer : Answer AuditEntry)
        → ok (record { rows = map ok (take limit s); after = none }) ≡ ok answer
        → answer ≡ record { rows = map ok (take limit s); after = none }
    selected s limit answer h = ground arith

-- A query with a quote, a comma and a newline.
abbrev hard : Text
hard = codes "say \"a, b\"" ++ 10 ∷ []

abbrev first : AuditEntry
first = entry_of (pos 1) (codes "2025-01-02T03:04:05Z") hard (codes "classic") (pos 12) (pos 7)

abbrev second : AuditEntry
second =
    entry_of (pos 2) (codes "2025-01-02T03:04:09Z") (codes "b") (codes "semantic") (pos 0) (pos 105)

quote_free : (t : Text) → any (λ c. c == b'"') t ≡ false → HasNoQuote t
quote_free [] h = tt
quote_free (c ∷ t) h = elim (Bool-cases (c == b'"')) [
  | inl quote ↦ ground arith
  | inr other ↦ (other, quote_free t (rw other at h))
]

hard_text :
    audit_csv kept (first ∷ [])
    ≡ ok (
        bom
        ++ csv_header
        ++ codes "1,\"2025-01-02T03:04:05Z\",\"say \"\"a, b\"\"\n\",\"classic\",12,7\n")
unfolding audit_csv audit_log filesearch.Base.decimal
hard_text = refl

csv_records-audit_csv_example :
    (text : Text) × (audit_csv kept (second ∷ first ∷ []) ≡ ok (bom ++ text))
    × (csv_records text ≡ columns ∷ fields_of second ∷ fields_of first ∷ [])
unfolding audit_log filesearch.Base.decimal
csv_records-audit_csv_example =
    csv_records-audit_csv kept (second ∷ first ∷ []) (second ∷ first ∷ []) refl (
      (quote_free second.searched_at refl, quote_free second.mode refl),
      ((quote_free first.searched_at refl, quote_free first.mode refl), tt),
    )

log_search-audit_log_example :
    (id : ℤ) × (k : ℕ) × (second ∷ first ∷ []
      ≡ entry_of id (codes "2025-01-02T03:04:09Z") (codes "b") (codes "semantic") (pos 0) (pos 105)
        ∷ take k (first ∷ []))
    × (length (second ∷ first ∷ []) ≤ 1000)
unfolding audit_log kept-IsAuditSql
log_search-audit_log_example =
    log_search-audit_log kept kept-IsAuditSql (first ∷ []) (second ∷ first ∷ [])
      (codes "2025-01-02T03:04:09Z") (codes "b") (codes "semantic") (pos 0) (pos 105) (pos 5000)
      (second ∷ first ∷ []) refl refl
