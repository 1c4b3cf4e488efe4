-- ===== src/Db/Audit/Csv.antt =====
-- A reader of comma-separated values as RFC 4180 describes them, and what it makes of the text of
-- `AuditCSV` in internal/db/audit.go.
use mathlib.Core.List.{append_assoc, append-nil}
use filesearch.Base.{
  ℕ, suc, ◌≡◌, refl, sym, ap, ◌∙◌, inl, inr, true, false, Bool-cases, ◌==◌, List, [], ◌∷◌, ◌++◌,
  map, Text, codes, All, arith, signed, decimal, is_digit, AreDigits, decimal-AreDigits,
  if◌then◌else◌,
}
use filesearch.Base.Int.{ℤ, pos, negsuc}
use filesearch.Base.Result.{ok}
use filesearch.Db.Audit.{
  AuditEntry, AuditEngine, doubled, bom, csv_header, csv_line, csv_lines, audit_log, audit_csv,
}

-- Where the reader stands: before a field, in a bare one, in a quoted one, after a quote in that.
pub data Place : Type 0 where
  outside : Place
  bare : Place
  quoted : Place
  closing : Place

-- The place, the field so far, the fields of the record so far, and the records.
pub record Reader : Type 0 where
  pub place : Place
  pub field : Text
  pub record_so_far : List Text
  pub records : List (List Text)

abbrev extended : Place → ℕ → Reader → Reader
extended place c r = record {
  place = place;
  field = r.field ++ c ∷ [];
  record_so_far = r.record_so_far;
  records = r.records;
}

abbrev moved : Place → Reader → Reader
moved place r = record {
  place = place;
  field = r.field;
  record_so_far = r.record_so_far;
  records = r.records;
}

abbrev end_field : Reader → Reader
end_field r = record {
  place = outside;
  field = [];
  record_so_far = r.record_so_far ++ r.field ∷ [];
  records = r.records;
}

abbrev end_record : Reader → Reader
end_record r = record {
  place = outside;
  field = [];
  record_so_far = [];
  records = r.records ++ (r.record_so_far ++ r.field ∷ []) ∷ [];
}

abbrev unquoted : ℕ → Reader → Reader
unquoted c r =
    if c == b',' then end_field r else if c == 10 then end_record r else extended bare c r

abbrev step_at : Place → ℕ → Reader → Reader
step_at outside c r = if c == b'"' then moved quoted r else unquoted c r
step_at bare c r = unquoted c r
step_at quoted c r = if c == b'"' then moved closing r else extended quoted c r
step_at closing c r = if c == b'"' then extended quoted c r else unquoted c r

unfoldable pub read_from : Reader → Text → Reader
read_from r [] = r
read_from r (c ∷ text) = read_from (step_at r.place c r) text

abbrev pub at_start : Reader
at_start = record { place = outside; field = []; record_so_far = []; records = [] }

-- The records of a text whose lines all end.
abbrev pub csv_records : Text → List (List Text)
csv_records text = (read_from at_start text).records

-- A text that is read the same outside of quotes.
abbrev IsBare : Text → Type 0
IsBare = All (λ c. (c == b'"') ≡ false × (c == b',') ≡ false × (c == 10) ≡ false)

digits-IsBare : (ds : Text) → AreDigits ds → IsBare ds
digits-IsBare [] a = tt
digits-IsBare (c ∷ ds) (d, a) = (bare_digit c d, digits-IsBare ds a)
  where
    bare_digit :
        (c : ℕ)
        → is_digit c ≡ true
        → ((c == b'"') ≡ false) × ((c == b',') ≡ false) × ((c == 10) ≡ false)
    bare_digit c d = ground arith

signed-IsBare : (z : ℤ) → IsBare (signed z)
signed-IsBare (pos n) = digits-IsBare (decimal n) (decimal-AreDigits n)
signed-IsBare (negsuc n) =
    ((refl, refl, refl), digits-IsBare (decimal (suc n)) (decimal-AreDigits (suc n)))

abbrev reader : Place → Text → List Text → List (List Text) → Reader
reader place field fields records = record {
  place = place;
  field = field;
  record_so_far = fields;
  records = records;
}

read_bare :
    (ds f : Text) (row : List Text) (rows : List (List Text)) (t : Text)
    → IsBare ds
    → read_from (reader bare f row rows) (ds ++ t) ≡ read_from (reader bare (f ++ ds) row rows) t
unfolding read_from
read_bare [] f row rows t a = rw append-nil refl
read_bare (c ∷ ds) f row rows t ((p, q, r), a) =
    rw (read_from, q, r) (read_bare ds (f ++ c ∷ []) row rows t a ∙ rw append_assoc refl)

-- A bare field, up to the comma or the end of the line.
read_bare_field :
    (ds : Text) (row : List Text) (rows : List (List Text)) (t : Text)
    → IsBare ds
    → (read_from (reader outside [] row rows) (ds ++ b',' ∷ t)
        ≡ read_from (reader outside [] (row ++ ds ∷ []) rows) t)
      × (read_from (reader outside [] row rows) (ds ++ 10 ∷ t)
          ≡ read_from (reader outside [] [] (rows ++ (row ++ ds ∷ []) ∷ [])) t)
unfolding read_from
read_bare_field [] row rows t a = (refl, refl)
read_bare_field (c ∷ ds) row rows t ((p, q, r), a) = (
  rw (read_from, p, q, r) (read_bare ds (c ∷ []) row rows (b',' ∷ t) a),
  rw (read_from, p, q, r) (read_bare ds (c ∷ []) row rows (10 ∷ t) a),
)

read_quoted :
    (q f : Text) (row : List Text) (rows : List (List Text)) (t : Text)
    → read_from (reader quoted f row rows) (doubled q ++ b'"' ∷ b',' ∷ t)
      ≡ read_from (reader outside [] (row ++ (f ++ q) ∷ []) rows) t
unfolding read_from
read_quoted [] f row rows t = rw append-nil refl
read_quoted (c ∷ q) f row rows t = elim (Bool-cases (c == b'"')) [
  | inl h ↦
      let is_quote : c ≡ b'"' = ground arith in
      rw is_quote (read_quoted q (f ++ b'"' ∷ []) row rows t ∙ rw append_assoc refl)
  | inr h ↦ rw (h, read_from, h) (read_quoted q (f ++ c ∷ []) row rows t ∙ rw append_assoc refl)
]

abbrev pub HasNoQuote : Text → Type 0
HasNoQuote = All (λ c. (c == b'"') ≡ false)

doubled_id : (q : Text) → HasNoQuote q → doubled q ≡ q
doubled_id [] a = refl
doubled_id (c ∷ q) (p, a) = rw p (ap (λ t. c ∷ t) (doubled_id q a))

-- The fields of an entry, as the reader should see them.
abbrev pub fields_of : AuditEntry → List Text
fields_of e =
    signed e.id ∷ e.searched_at ∷ e.query ∷ e.mode ∷ signed e.results_n ∷ signed e.duration_ms ∷ []

-- The time and the mode hold no quote.
abbrev pub IsQuotable : AuditEntry → Type 0
IsQuotable e = HasNoQuote e.searched_at × HasNoQuote e.mode

read_line :
    (e : AuditEntry) (rows : List (List Text)) (t : Text)
    → IsQuotable e
    → read_from (reader outside [] [] rows) (csv_line e t)
      ≡ read_from (reader outside [] [] (rows ++ fields_of e ∷ [])) t
unfolding read_from
read_line e rows t (at, mode) =
    let one : List Text = signed e.id ∷ [] in
    let two : List Text = one ++ e.searched_at ∷ [] in
    let three : List Text = two ++ e.query ∷ [] in
    let four : List Text = three ++ e.mode ∷ [] in
    let five : List Text = four ++ signed e.results_n ∷ [] in
    let last = signed e.duration_ms ++ 10 ∷ t in
    let after_mode = signed e.results_n ++ b',' ∷ last in
    let after_query = b'"' ∷ (e.mode ++ b'"' ∷ b',' ∷ after_mode) in
    let after_time = b'"' ∷ (doubled e.query ++ b'"' ∷ b',' ∷ after_query) in
    (read_bare_field (signed e.id) [] rows (b'"' ∷ (e.searched_at ++ b'"' ∷ b',' ∷ after_time))
      (signed-IsBare e.id)).0
    ∙ ap (λ d. read_from (reader quoted [] one rows) (d ++ b'"' ∷ b',' ∷ after_time))
        (sym (doubled_id e.searched_at at))
    ∙ read_quoted e.searched_at [] one rows after_time
    ∙ read_quoted e.query [] two rows after_query
    ∙ ap (λ d. read_from (reader quoted [] three rows) (d ++ b'"' ∷ b',' ∷ after_mode))
        (sym (doubled_id e.mode mode))
    ∙ read_quoted e.mode [] three rows after_mode
    ∙ (read_bare_field (signed e.results_n) four rows last (signed-IsBare e.results_n)).0
    ∙ (read_bare_field (signed e.duration_ms) five rows t (signed-IsBare e.duration_ms)).1

read_lines :
    (entries : List AuditEntry) (rows : List (List Text))
    → All IsQuotable entries
    → (read_from (reader outside [] [] rows) (csv_lines entries)).records
      ≡ rows ++ map fields_of entries
unfolding read_from
read_lines [] rows a = sym (append-nil rows)
read_lines (e ∷ entries) rows (q, a) =
    ap (λ r. r.records) (read_line e rows (csv_lines entries) q)
    ∙ read_lines entries (rows ++ fields_of e ∷ []) a
    ∙ rw append_assoc refl

-- The names of the columns.
abbrev pub columns : List Text
columns =
    codes "ID"
    ∷ codes "Date"
    ∷ codes "Requete"
    ∷ codes "Mode"
    ∷ codes "Resultats"
    ∷ codes "Duree_ms"
    ∷ []

-- Where AuditLog returns entries for the limit 1000, AuditCSV returns a text that starts with the
-- byte order mark; where the times and modes of those entries hold no quote, a reader of CSV
-- finds in the rest the header and the fields of each entry in order, whatever bytes their
-- queries hold.
pub csv_records-audit_csv :
    (engine : AuditEngine) (s : engine.State) (entries : List AuditEntry)
    → audit_log engine s (pos 1000) ≡ ok entries
    → All IsQuotable entries
    → (text : Text) × (audit_csv engine s ≡ ok (bom ++ text))
      × (csv_records text ≡ columns ∷ map fields_of entries)
unfolding audit_csv read_from
csv_records-audit_csv engine s entries log quotable =
    (csv_header ++ csv_lines entries, rw log refl, read_lines entries (columns ∷ []) quotable)
