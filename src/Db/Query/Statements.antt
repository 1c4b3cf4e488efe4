-- ===== src/Db/Query/Statements.antt =====
-- The statements of `Search` and `Count` of internal/db/db.go: their placeholders, their arguments and
-- the text of the user.
use filesearch.Base.{
  ℕ, suc, ◌+◌, ◌≡◌, refl, inl, inr, Bool-cases, [], ◌∷◌, ◌++◌, Text, codes, length, is_empty,
  text_eq, arith, ◌==◌, if◌then◌else◌,
}
use filesearch.Base.Int.{ℤ, pos}
use filesearch.Base.Result.{Result, ok, wrap, ◌>>=◌}
use filesearch.Db.Rows.{Answer, scanned}
use filesearch.Db.Query.{
  search, count, sanitize_query, Statement, SearchFilter, text, number, filter_clauses, ext_param,
  since_clause, with_ext, search_sql, count_sql,
}

-- The placeholders of a statement.
abbrev pub marks : Text → ℕ
marks [] = 0
marks (c ∷ s) = let rest = marks s in if c == b'?' then suc rest else rest

-- The filter with another extension of the same presence.
abbrev pub with_any_ext : SearchFilter → SearchFilter
with_any_ext f = record { ext = if is_empty f.ext then [] else codes ".x"; since = f.since }

marks-since_clause : (since : Text) → marks (since_clause since) ≡ 0
marks-since_clause since = elim (Bool-cases (text_eq since (codes "today"))) [
  | inl h ↦ rw h refl
  | inr h ↦ elim (Bool-cases (text_eq since (codes "week"))) [
    | inl k ↦ rw (h, k) refl
    | inr k ↦ elim (Bool-cases (text_eq since (codes "month"))) [
      | inl l ↦ rw (h, k, l) refl
      | inr l ↦ rw (h, k, l) refl
    ]
  ]
]

marks-append : (s t : Text) → marks (s ++ t) ≡ marks s + marks t
marks-append [] t = ground arith
marks-append (c ∷ s) t = let rest = marks-append s t in ground arith

-- The placeholders of the statements, and what their texts depend on.
search_sql-count_sql_bound :
    (safe : Text) (limit offset : ℤ) (f : SearchFilter)
    → let s = search_sql safe limit offset f in
      let c = count_sql safe f in
      (marks s.sql ≡ length s.args)
      × (marks c.sql ≡ length c.args)
      × (s.sql ≡ (search_sql [] (pos 0) (pos 0) (with_any_ext f)).sql)
      × (c.sql ≡ (count_sql [] (with_any_ext f)).sql)
unfolding search_sql count_sql filter_clauses
search_sql-count_sql_bound safe limit offset f =
    let tail = codes "\n\t\t ORDER BY rank\n\t\t LIMIT ? OFFSET ?" in
    let listed = marks-append (since_clause f.since) tail in
    let counted = marks-since_clause f.since in
    elim (Bool-cases (is_empty f.ext)) [
      | inl e ↦ rw (e, listed, counted) (refl, refl, refl, refl)
      | inr e ↦ rw (e, listed, counted) (refl, refl, refl, refl)
    ]

module _ {A : Type 0} where
  -- For a query that sanitizeQuery accepts, Search and Count each send one statement, and their
  -- results are what the engine answers to it. The statement has as many placeholders as
  -- arguments; its first argument is the sanitized query, the next that of the extension where
  -- there is one, and the last two of Search are the limit and the offset; its text depends on
  -- neither the query, the limits nor the letters of the extension.
  pub search-count_bound :
      (q safe : Text) (limit offset : ℤ) (f : SearchFilter)
      → sanitize_query q ≡ ok safe
      → (s c : Statement) × ((query : Statement → Result (Answer A))
          → search query q limit offset f
            ≡ (wrap (codes "db search") (query s) >>= scanned (wrap (codes "db scan"))))
        × ((query : Statement → Result ℕ) → count query q f ≡ query c)
        × (s.args ≡ text safe ∷ with_ext (ext_param f.ext) (number limit ∷ number offset ∷ []))
        × (c.args ≡ text safe ∷ with_ext (ext_param f.ext) [])
        × (marks s.sql ≡ length s.args)
        × (marks c.sql ≡ length c.args)
        × (s.sql ≡ (search_sql [] (pos 0) (pos 0) (with_any_ext f)).sql)
        × (c.sql ≡ (count_sql [] (with_any_ext f)).sql)
  unfolding search count search_sql count_sql filter_clauses
  search-count_bound q safe limit offset f clean =
      let (marks_s, marks_c, text_s, text_c) = search_sql-count_sql_bound safe limit offset f in
      (
        search_sql safe limit offset f,
        count_sql safe f,
        λ query. rw (search, clean) refl,
        λ query. rw (count, clean) refl,
        refl,
        refl,
        marks_s,
        marks_c,
        text_s,
        text_c,
      )
