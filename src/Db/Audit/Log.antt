-- ===== src/Db/Audit/Log.antt =====
-- `LogSearch` and `AuditLog` of internal/db/audit.go, on an engine that keeps the rows that SQL says.
use filesearch.Base.{
  length-take-le, ℕ, zero, suc, ◌≡◌, ◌≤◌, refl, sym, ◌∙◌, subst, inl, inr, Bool-cases, ltb, List,
  [], ◌∷◌, take, map, length, Text, none, arith,
}
use filesearch.Base.Int.{ℤ, pos, negsuc}
use filesearch.Base.Result.{ok, Result-cases}
use filesearch.Db.Rows.{Answer, scanned}
use filesearch.Db.Audit.{AuditEntry, AuditEngine, audit_limit, log_search, audit_log}

abbrev answer_with : List AuditEntry → Answer AuditEntry
answer_with entries = record { rows = map ok entries; after = none }

-- The rows, the newest first; an insertion that succeeds adds one in front, and a selection that
-- succeeds returns as many of the newest as its limit says.
pub record IsAuditSql (engine : AuditEngine) : Type 0 where
  pub entries : engine.State → List AuditEntry
  pub inserts :
      (s t : engine.State) (at query mode : Text) (n d : ℤ)
      → engine.insert_entry s at query mode n d ≡ ok t
      → (id : ℤ) × (entries t
          ≡ record {
            id = id;
            searched_at = at;
            query = query;
            mode = mode;
            results_n = n;
            duration_ms = d;
          }
            ∷ entries s)
  pub selects :
      (s : engine.State) (limit : ℕ) (answer : Answer AuditEntry)
      → engine.select_newest s (pos limit) ≡ ok answer
      → answer ≡ answer_with (take limit (entries s))

scanned-answer_with :
    (entries : List AuditEntry) → scanned (λ r. r) (answer_with entries) ≡ ok entries
scanned-answer_with [] = refl
scanned-answer_with (e ∷ entries) = rw (scanned-answer_with entries) refl

ok-inj : (a b : List AuditEntry) → ok a ≡ ok b → a ≡ b
ok-inj a b h = ground arith

le_trans : {a b c : ℕ} → a ≤ b → b ≤ c → a ≤ c
le_trans h k = omega arith

-- The limit in force is between 1 and 1000.
audit_limit-IsInRange : (limit : ℤ) → (n : ℕ) × (audit_limit limit ≡ pos (suc n)) × (suc n ≤ 1000)
audit_limit-IsInRange (negsuc n) = (99, refl, ground arith)
audit_limit-IsInRange (pos zero) = (99, refl, ground arith)
audit_limit-IsInRange (pos (suc n)) = elim (Bool-cases (ltb 1000 (suc n))) [
  | inl big ↦ (99, rw big refl, ground arith)
  | inr small ↦ (n, rw small refl, ground arith)
]

-- On an engine that keeps the rows that SQL says, a search that is logged stands first in what a
-- later AuditLog returns, if that succeeds, whatever its limit, before the newest of the earlier
-- entries; the result has at most 1000 entries.
pub log_search-audit_log :
    (engine : AuditEngine) (sql : IsAuditSql engine) (s t : engine.State) (at query mode : Text)
    (n d limit : ℤ) (found : List AuditEntry)
    → log_search engine s at query mode n d ≡ ok t
    → audit_log engine t limit ≡ ok found
    → (id : ℤ) × (k : ℕ) × (found
        ≡ record {
          id = id;
          searched_at = at;
          query = query;
          mode = mode;
          results_n = n;
          duration_ms = d;
        }
          ∷ take k (sql.entries s))
      × (length found ≤ 1000)
unfolding audit_log
log_search-audit_log engine sql s t at query mode n d limit found logged listed =
    let (id, grown) = sql.inserts s t at query mode n d logged in
    let (k, in_force, bound) = audit_limit-IsInRange limit in
    elim (Result-cases (engine.select_newest t (pos (suc k)))) [
      | inl (answer, selected) ↦
          let whole = sql.selects t (suc k) answer selected in
          let scan : ok (take (suc k) (sql.entries t)) ≡ ok found =
            sym (scanned-answer_with (take (suc k) (sql.entries t)))
            ∙ (rw (in_force, selected, whole) at listed) in
          let same = ok-inj (take (suc k) (sql.entries t)) found scan in
          (
            id,
            k,
            sym same ∙ rw grown refl,
            subst (λ l. length l ≤ 1000) same
                (le_trans (length-take-le (suc k) (sql.entries t)) bound),
          )
      | inr (e, failed) ↦ ground arith
    ]
