-- ===== src/Db/Query/Sanitized.antt =====
-- What `sanitizeQuery` of internal/db/db.go returns: the bytes, the words and a second call.
use mathlib.Core.List.{append_assoc, append-nil}
use filesearch.Base.{
  ℕ, ◌≡◌, refl, sym, ap, ◌∙◌, subst, inl, inr, Bool, true, false, Bool-cases, ◌&&◌, List, [], ◌∷◌,
  ◌++◌, map, Text, All, All-append, is_empty, is_space, trim_right, trim_left, trim_space, arith,
  if◌then◌else◌,
}
use filesearch.Base.Result.{ok}
use filesearch.Db.Query.{
  is_special, unspecial, is_word, blanked, is_keyword, blank_keywords, onto, fields, join_words,
  cleaned, sanitize_query,
}
use filesearch.Db.Query.Words.{
  HasNoKeyword, AreVisible, IsField, fields-IsField, fields-HasNoKeyword, join_words-HasNoKeyword,
  blank_keywords-HasNoKeyword, blank_keywords_id,
}

-- A property of bytes that the blank has is kept by each step.
module _ (P : ℕ → Type 0) (blank : P b' ') where
  blanked-All : (w : Text) → All P w → All P (blanked w)
  blanked-All w a = elim (Bool-cases (is_keyword w)) [ inl k ↦ rw k (blank, tt) | inr k ↦ rw k a ]

  blank_keywords-All : (q word : Text) → All P word → All P q → All P (blank_keywords word q)
  unfolding blank_keywords
  blank_keywords-All [] w a b = blanked-All w a
  blank_keywords-All (c ∷ q) w a (p, b) = elim (Bool-cases (is_word c)) [
    | inl word ↦ rw word (blank_keywords-All q (w ++ c ∷ []) (All-append P w (c ∷ []) a (p, tt)) b)
    | inr gap ↦ rw gap (
        All-append P (blanked w) (c ∷ blank_keywords [] q) (blanked-All w a)
          (p, blank_keywords-All q [] tt b))
  ]

  onto-All : (w : Text) (rest : List Text) → All P w → All (All P) rest → All (All P) (onto w rest)
  onto-All [] rest a b = b
  onto-All (c ∷ w) rest a b = (a, b)

  fields-All : (q word : Text) → All P word → All P q → All (All P) (fields word q)
  unfolding fields
  fields-All [] w a b = onto-All w [] a tt
  fields-All (c ∷ q) w a (p, b) = elim (Bool-cases (is_space c)) [
    | inl gap ↦ rw gap (onto-All w (fields [] q) a (fields-All q [] tt b))
    | inr seen ↦ rw seen (fields-All q (w ++ c ∷ []) (All-append P w (c ∷ []) a (p, tt)) b)
  ]

  join_words-All : (ws : List Text) → All (All P) ws → All P (join_words ws)
  join_words-All [] a = tt
  join_words-All (w ∷ []) (a, b) = a
  join_words-All (w ∷ x ∷ ws) (a, b) =
      All-append P w (b' ' ∷ join_words (x ∷ ws)) a (blank, join_words-All (x ∷ ws) b)

  cleaned-All : (q : Text) → All P (map unspecial q) → All P (cleaned q)
  cleaned-All q a = join_words-All (fields [] (blank_keywords [] (map unspecial q))) (
      fields-All (blank_keywords [] (map unspecial q)) [] tt
        (blank_keywords-All (map unspecial q) [] tt a))

-- No byte is one that fts5SpecialRe matches.
abbrev pub ArePlain : Text → Type 0
ArePlain = All (λ c. is_special c ≡ false)

map-ArePlain : (q : Text) → ArePlain (map unspecial q)
map-ArePlain [] = tt
map-ArePlain (c ∷ q) = elim (Bool-cases (is_special c)) [
  | inl s ↦ rw s (refl, map-ArePlain q)
  | inr s ↦ rw s (s, map-ArePlain q)
]

map_id : (q : Text) → ArePlain q → map unspecial q ≡ q
map_id [] a = refl
map_id (c ∷ q) (p, a) = rw p (ap (λ t. c ∷ t) (map_id q a))

pub fields-append : (w v rest : Text) → AreVisible w → fields v (w ++ rest) ≡ fields (v ++ w) rest
unfolding fields
fields-append [] v rest a = ap (λ u. fields u rest) (sym (append-nil v))
fields-append (c ∷ w) v rest (seen, a) =
    rw seen
      (fields-append w (v ++ c ∷ []) rest a ∙ ap (λ u. fields u rest) (append_assoc v (c ∷ []) w))

onto_field : (w : Text) (rest : List Text) → is_empty w ≡ false → onto w rest ≡ w ∷ rest
onto_field w rest e = rw e refl

fields-join_words : (ws : List Text) → All IsField ws → fields [] (join_words ws) ≡ ws
unfolding fields
fields-join_words [] a = refl
fields-join_words (w ∷ []) ((e, v), a) =
    ap (fields []) (sym (append-nil w)) ∙ fields-append w [] [] v ∙ onto_field w [] e
fields-join_words (w ∷ x ∷ ws) ((e, v), a) =
    fields-append w [] (b' ' ∷ join_words (x ∷ ws)) v
    ∙ onto_field w (fields [] (join_words (x ∷ ws))) e
    ∙ ap (λ t. w ∷ t) (fields-join_words (x ∷ ws) a)

trim_right-visible : (w : Text) → AreVisible w → trim_right w ≡ w
trim_right-visible [] a = refl
trim_right-visible (c ∷ w) (seen, a) = rw (trim_right-visible w a, seen) (drop_if (is_empty w))
  where
    drop_if : (b : Bool) → (if b && false then [] else c ∷ w) ≡ c ∷ w
    drop_if true = refl
    drop_if false = refl

trim_right-append :
    (w s : Text) → trim_right s ≡ s → is_empty s ≡ false → trim_right (w ++ s) ≡ w ++ s
trim_right-append [] s h e = h
trim_right-append (c ∷ w) s h e = rw (trim_right-append w s h e, filled w) refl
  where
    filled : (w : Text) → is_empty (w ++ s) ≡ false
    filled [] = e
    filled (b ∷ w) = refl

append-filled : (w s : Text) → is_empty w ≡ false → is_empty (w ++ s) ≡ false
append-filled [] s e = ground arith
append-filled (c ∷ w) s e = refl

join_words-filled : (w : Text) (ws : List Text) → IsField w → is_empty (join_words (w ∷ ws)) ≡ false
join_words-filled w [] (e, v) = e
join_words-filled w (x ∷ ws) (e, v) = append-filled w (b' ' ∷ join_words (x ∷ ws)) e

trim_right-join_words :
    (ws : List Text) → All IsField ws → trim_right (join_words ws) ≡ join_words ws
trim_right-join_words [] a = refl
trim_right-join_words (w ∷ []) ((e, v), a) = trim_right-visible w v
trim_right-join_words (w ∷ x ∷ ws) (f, (g, a)) =
    trim_right-append w (b' ' ∷ join_words (x ∷ ws))
      (trim_right-append (b' ' ∷ []) (join_words (x ∷ ws)) (trim_right-join_words (x ∷ ws) (g, a))
        (join_words-filled x ws g))
      refl

trim_left-append : (w s : Text) → IsField w → trim_left (w ++ s) ≡ w ++ s
trim_left-append [] s (e, v) = ground arith
trim_left-append (c ∷ w) s (e, (seen, v)) = rw seen refl

trim_left-join_words : (ws : List Text) → All IsField ws → trim_left (join_words ws) ≡ join_words ws
trim_left-join_words [] a = refl
trim_left-join_words (w ∷ []) (f, a) =
    ap trim_left (sym (append-nil w)) ∙ trim_left-append w [] f ∙ append-nil w
trim_left-join_words (w ∷ x ∷ ws) (f, a) = trim_left-append w (b' ' ∷ join_words (x ∷ ws)) f

-- A cleaned text has no special byte and no keyword, and cleaning leaves it as it is.
abbrev pub IsClean : Text → Type 0
IsClean r = ArePlain r × HasNoKeyword [] r × (trim_space r ≡ r) × (cleaned r ≡ r)

cleaned_words : Text → List Text
cleaned_words q = fields [] (blank_keywords [] (map unspecial q))

cleaned-IsClean : (q : Text) → IsClean (cleaned q)
unfolding cleaned_words
cleaned-IsClean q =
    let fs = fields-IsField (blank_keywords [] (map unspecial q)) [] tt in
    let plain = cleaned-All (λ c. is_special c ≡ false) refl q (map-ArePlain q) in
    let free = join_words-HasNoKeyword (cleaned_words q) (
      fields-HasNoKeyword (blank_keywords [] (map unspecial q)) []
        (blank_keywords-HasNoKeyword (map unspecial q) [] tt)) in
    (
      plain,
      free,
      ap trim_left (trim_right-join_words (cleaned_words q) fs)
          ∙ trim_left-join_words (cleaned_words q) fs,
      ap (λ t. join_words (fields [] (blank_keywords [] t))) (map_id (cleaned q) plain)
          ∙ ap (λ t. join_words (fields [] t)) (blank_keywords_id (cleaned q) [] free)
          ∙ ap join_words (fields-join_words (cleaned_words q) fs),
    )

ok-inj : (a b : Text) → ok a ≡ ok b → a ≡ b
ok-inj a b h = ground arith

sanitized-IsClean : (q r : Text) → sanitize_query q ≡ ok r → IsClean r × (is_empty r ≡ false)
unfolding sanitize_query
sanitized-IsClean q r h = elim (Bool-cases (is_empty (trim_space q))) [
  | inl e ↦ ground arith
  | inr e ↦ elim (Bool-cases (is_empty (cleaned (trim_space q)))) [
    | inl f ↦ ground arith
    | inr f ↦
        let same = ok-inj (cleaned (trim_space q)) r (rw (e, f) at h) in
        subst (λ t. IsClean t × (is_empty t ≡ false)) same (cleaned-IsClean (trim_space q), f)
  ]
]

-- A query that is accepted becomes a text with none of the special bytes and none of the
-- operators NOT, AND and OR as a word, and sanitizing that text again returns it unchanged.
pub sanitize_query_again :
    (q r : Text)
    → sanitize_query q ≡ ok r
    → (sanitize_query r ≡ ok r) × ArePlain r × HasNoKeyword [] r
unfolding sanitize_query
sanitize_query_again q r h =
    let ((plain, free, trim, fixed), filled) = sanitized-IsClean q r h in
    (rw (trim, filled, fixed, filled) refl, plain, free)
