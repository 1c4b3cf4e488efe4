-- ===== src/Db/Query.antt =====
-- The queries of internal/db/db.go: how `sanitizeQuery` cleans the user's text, the clauses of
-- `filterClauses`, and the statements of `Search` and `Count` with their arguments. The blanks are
-- those of ASCII.
pub mod Words
pub mod Sanitized
pub mod Statements
mod Tests
use filesearch.Base.{
  ℕ, ◌+◌, Bool, true, false, not, ◌&&◌, ◌||◌, ◌==◌, leb, List, [], ◌∷◌, ◌++◌, map, Text, codes,
  text_eq, member, is_empty, to_lower, trim_space, is_space, any, if◌then◌else◌,
}
use filesearch.Base.Int.{ℤ}
use filesearch.Db.Rows.{Answer, scanned}
use filesearch.Base.Result.{Error, Result, ok, err, ◌>>=◌, wrap}

-- fts5SpecialRe
abbrev pub special_bytes : List ℕ
special_bytes =
    b'"' ∷ b'^' ∷ b'*' ∷ b'(' ∷ b')' ∷ b'{' ∷ b'}' ∷ b'[' ∷ b']' ∷ 92 ∷ b':' ∷ b';' ∷ b',' ∷ []

abbrev pub is_special : ℕ → Bool
is_special c = any (λ b. b == c) special_bytes

abbrev pub unspecial : ℕ → ℕ
unspecial c = if is_special c then b' ' else c

-- The bytes between two `\b`.
abbrev pub is_word : ℕ → Bool
is_word c =
    (leb b'a' c && leb c b'z')
    || ((leb b'A' c && leb c b'Z') || ((leb b'0' c && leb c b'9') || (c == b'_')))

-- fts5KeywordsRe, on a whole word
abbrev pub is_keyword : Text → Bool
is_keyword word = member (to_lower word) (codes "not" ∷ codes "and" ∷ codes "or" ∷ [])

abbrev pub blanked : Text → Text
blanked word = if is_keyword word then b' ' ∷ [] else word

-- fts5KeywordsRe.ReplaceAllString(q, " "), with the word before the text.
unfoldable pub blank_keywords : Text → Text → Text
blank_keywords word [] = blanked word
blank_keywords word (c ∷ q) =
    let longer = blank_keywords (word ++ c ∷ []) q in
    let rest = blank_keywords [] q in if is_word c then longer else blanked word ++ c ∷ rest

-- strings.Fields(q), with the field before the text.
abbrev pub onto : Text → List Text → List Text
onto field rest = if is_empty field then rest else field ∷ rest

unfoldable pub fields : Text → Text → List Text
fields field [] = onto field []
fields field (c ∷ q) =
    let longer = fields (field ++ c ∷ []) q in
    let rest = fields [] q in if is_space c then onto field rest else longer

-- strings.Join(words, " ")
abbrev pub join_words : List Text → Text
join_words [] = []
join_words (word ∷ []) = word
join_words (word ∷ next ∷ words) = word ++ b' ' ∷ join_words (next ∷ words)

abbrev pub cleaned : Text → Text
cleaned q = join_words (fields [] (blank_keywords [] (map unspecial q)))

-- ErrInvalidQuery with its text
abbrev invalid : Text → Error
invalid why = codes "invalid query" ∷ why ∷ []

-- sanitizeQuery(q)
unfoldable pub sanitize_query : Text → Result Text
unfolding blank_keywords fields
sanitize_query q =
    if is_empty (trim_space q)
    then err (invalid (codes "empty"))
    else if is_empty (cleaned (trim_space q))
    then err (invalid (codes "only special characters or operators"))
    else ok (cleaned (trim_space q))

pub record SearchFilter : Type 0 where
  pub ext : Text
  pub since : Text

-- filterClauses(f): the clause of the extension, that of the date, and the argument of the first.
abbrev ext_clause : Text → Text
ext_clause ext = if is_empty ext then [] else codes " AND path LIKE ?"

abbrev ext_param : Text → Text
ext_param ext = if is_empty ext then [] else b'%' ∷ ext

abbrev since_within : Text → Text
since_within days =
    codes " AND documents.path IN (SELECT path FROM files WHERE mtime >= strftime('%s', 'now', '"
    ++ (days ++ codes "'))")

abbrev since_clause : Text → Text
since_clause since =
    if text_eq since (codes "today")
    then since_within (codes "-1 day")
    else if text_eq since (codes "week")
    then since_within (codes "-7 days")
    else if text_eq since (codes "month")
    then since_within (codes "-30 days")
    else []

unfoldable pub filter_clauses : SearchFilter → Text × Text × Text
filter_clauses f = (ext_clause f.ext, since_clause f.since, ext_param f.ext)

-- An argument of a statement.
pub data Arg : Type 0 where
  text : Text → Arg
  number : ℤ → Arg

pub record Statement : Type 0 where
  pub sql : Text
  pub args : List Arg

abbrev pub with_ext : Text → List Arg → List Arg
with_ext param rest = if is_empty param then rest else text param ∷ rest

-- What `Search` sends for a sanitized query.
unfoldable pub search_sql : Text → ℤ → ℤ → SearchFilter → Statement
unfolding filter_clauses
search_sql safe limit offset f =
    let (clause, since, param) = filter_clauses f in
    record {
      sql =
          codes
            "SELECT path, snippet(documents, 1, '[', ']', '...', 15)\n\t\t FROM documents\n\t\t WHERE documents MATCH ?"
          ++ (clause ++ (since ++ codes "\n\t\t ORDER BY rank\n\t\t LIMIT ? OFFSET ?"));
      args = text safe ∷ with_ext param (number limit ∷ number offset ∷ []);
    }

-- What `Count` sends.
unfoldable pub count_sql : Text → SearchFilter → Statement
unfolding filter_clauses
count_sql safe f =
    let (clause, since, param) = filter_clauses f in
    record {
      sql = codes "SELECT count(*) FROM documents WHERE documents MATCH ?" ++ (clause ++ since);
      args = text safe ∷ with_ext param [];
    }

module _ {A : Type 0} (query : Statement → Result (Answer A)) where
  -- Search(ctx, query, limit, offset, f), on an engine that answers a statement.
  unfoldable pub search : Text → ℤ → ℤ → SearchFilter → Result (List A)
  unfolding sanitize_query search_sql
  search q limit offset f = do
    safe ← wrap (codes "invalid query") (sanitize_query q)
    answer ← wrap (codes "db search") (query (search_sql safe limit offset f))
    scanned (wrap (codes "db scan")) answer

-- Count(ctx, query, f), on the number that an engine answers.
unfoldable pub count : (Statement → Result ℕ) → Text → SearchFilter → Result ℕ
unfolding sanitize_query count_sql
count query q f = do
  safe ← wrap (codes "invalid query") (sanitize_query q)
  query (count_sql safe f)
