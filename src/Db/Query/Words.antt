-- ===== src/Db/Query/Words.antt =====
-- Words, keywords and fields, as `sanitizeQuery` of internal/db/db.go reads them.
use mathlib.Core.List.{append_assoc, append-nil}
use filesearch.Base.{
  ℕ, ◌≡◌, refl, sym, ap, ◌∙◌, subst, inl, inr, true, false, Bool-cases, List, [], ◌∷◌, ◌++◌, Text,
  All, All-append, is_empty, is_space, arith, if◌then◌else◌,
}
use filesearch.Db.Query.{is_word, is_keyword, blanked, blank_keywords, onto, fields, join_words}

abbrev pub AreWord : Text → Type 0
AreWord = All (λ c. is_word c ≡ true)

-- No keyword stands as a word in the text, which follows the given part of a word.
abbrev pub HasNoKeyword : Text → Text → Type 0
HasNoKeyword word [] = is_keyword word ≡ false
HasNoKeyword word (c ∷ q) =
    if is_word c
    then HasNoKeyword (word ++ c ∷ []) q
    else (is_keyword word ≡ false) × HasNoKeyword [] q

-- A word in front goes to the part before.
HasNoKeyword-word : (w v s : Text) → AreWord w → HasNoKeyword (v ++ w) s → HasNoKeyword v (w ++ s)
HasNoKeyword-word [] v s h k = subst (λ u. HasNoKeyword u s) (append-nil v) k
HasNoKeyword-word (c ∷ w) v s (word, h) k = rw word (
    HasNoKeyword-word w (v ++ c ∷ []) s h
      (subst (λ u. HasNoKeyword u s) (sym (append_assoc v (c ∷ []) w)) k))

-- A byte that is in no word splits the text.
pub HasNoKeyword-split :
    (a v : Text) (c : ℕ) (s : Text)
    → is_word c ≡ false
    → HasNoKeyword v (a ++ c ∷ s)
    → HasNoKeyword v a × HasNoKeyword [] s
HasNoKeyword-split [] v c s gap k = rw gap at k
HasNoKeyword-split (b ∷ a) v c s gap k = elim (Bool-cases (is_word b)) [
  | inl word ↦ rw word (HasNoKeyword-split a (v ++ b ∷ []) c s gap (rw word at k))
  | inr other ↦
      let (now, later) = rw other at k in
      let (mine, rest) = HasNoKeyword-split a [] c s gap later in rw other ((now, mine), rest)
]

pub HasNoKeyword-join :
    (a v : Text) (c : ℕ) (s : Text)
    → is_word c ≡ false
    → HasNoKeyword v a
    → HasNoKeyword [] s
    → HasNoKeyword v (a ++ c ∷ s)
HasNoKeyword-join [] v c s gap k rest = rw gap (k, rest)
HasNoKeyword-join (b ∷ a) v c s gap k rest = elim (Bool-cases (is_word b)) [
  | inl word ↦ rw word (HasNoKeyword-join a (v ++ b ∷ []) c s gap (rw word at k) rest)
  | inr other ↦
      let (now, later) = rw other at k in rw other (now, HasNoKeyword-join a [] c s gap later rest)
]

-- What replaces a word has no keyword.
blanked-HasNoKeyword :
    (w : Text) (c : ℕ) (s : Text)
    → AreWord w
    → is_word c ≡ false
    → HasNoKeyword [] s
    → HasNoKeyword [] (blanked w ++ c ∷ s)
blanked-HasNoKeyword w c s word gap k = elim (Bool-cases (is_keyword w)) [
  | inl keyword ↦ rw keyword (HasNoKeyword-join (b' ' ∷ []) [] c s gap (refl, refl) k)
  | inr free ↦ rw free (HasNoKeyword-word w [] (c ∷ s) word (rw gap (free, k)))
]

pub blank_keywords-HasNoKeyword :
    (q word : Text) → AreWord word → HasNoKeyword [] (blank_keywords word q)
unfolding blank_keywords
blank_keywords-HasNoKeyword [] w word = elim (Bool-cases (is_keyword w)) [
  | inl keyword ↦ rw keyword (refl, refl)
  | inr free ↦
      rw free (subst (HasNoKeyword []) (append-nil w) (HasNoKeyword-word w [] [] word free))
]
blank_keywords-HasNoKeyword (c ∷ q) w word = elim (Bool-cases (is_word c)) [
  | inl in_word ↦ rw in_word (
      blank_keywords-HasNoKeyword q (w ++ c ∷ [])
        (All-append (λ b. is_word b ≡ true) w (c ∷ []) word (in_word, tt)))
  | inr gap ↦ rw gap (
      blanked-HasNoKeyword w c (blank_keywords [] q) word gap (blank_keywords-HasNoKeyword q [] tt))
]

-- A text with no keyword is left as it is.
pub blank_keywords_id : (q word : Text) → HasNoKeyword word q → blank_keywords word q ≡ word ++ q
unfolding blank_keywords
blank_keywords_id [] w k = rw k (sym (append-nil w))
blank_keywords_id (c ∷ q) w k = elim (Bool-cases (is_word c)) [
  | inl in_word ↦
      rw in_word (blank_keywords_id q (w ++ c ∷ []) (rw in_word at k) ∙ append_assoc w (c ∷ []) q)
  | inr gap ↦
      let (free, rest) = rw gap at k in
      rw (gap, free) (ap (λ t. w ++ c ∷ t) (blank_keywords_id q [] rest))
]

abbrev pub AreVisible : Text → Type 0
AreVisible = All (λ c. is_space c ≡ false)

-- The fields have no blanks and are not empty.
abbrev pub IsField : Text → Type 0
IsField field = (is_empty field ≡ false) × AreVisible field

pub fields-IsField : (q field : Text) → AreVisible field → All IsField (fields field q)
unfolding fields
fields-IsField [] [] v = tt
fields-IsField [] (b ∷ field) v = ((refl, v), tt)
fields-IsField (c ∷ q) field v = elim (Bool-cases (is_space c)) [
  | inr seen ↦ rw seen (
      fields-IsField q (field ++ c ∷ [])
        (All-append (λ b. is_space b ≡ false) field (c ∷ []) v (seen, tt)))
  | inl blank ↦ rw blank (after field v (fields-IsField q [] tt))
]
  where
    after :
        (field : Text)
        → AreVisible field
        → All IsField (fields [] q)
        → All IsField (onto field (fields [] q))
    after [] v rest = rest
    after (b ∷ field) v rest = ((refl, v), rest)

space_gap : (c : ℕ) → is_space c ≡ true → is_word c ≡ false
space_gap c h = ground arith

pub fields-HasNoKeyword :
    (q field : Text) → HasNoKeyword [] (field ++ q) → All (HasNoKeyword []) (fields field q)
unfolding fields
fields-HasNoKeyword [] [] k = tt
fields-HasNoKeyword [] (b ∷ field) k = (subst (HasNoKeyword []) (append-nil (b ∷ field)) k, tt)
fields-HasNoKeyword (c ∷ q) field k = elim (Bool-cases (is_space c)) [
  | inr seen ↦ rw seen (
      fields-HasNoKeyword q (field ++ c ∷ [])
        (subst (HasNoKeyword []) (sym (append_assoc field (c ∷ []) q)) k))
  | inl blank ↦
      let (mine, rest) = HasNoKeyword-split field [] c q (space_gap c blank) k in
      rw blank (after field mine (fields-HasNoKeyword q [] rest))
]
  where
    after :
        (field : Text)
        → HasNoKeyword [] field
        → All (HasNoKeyword []) (fields [] q)
        → All (HasNoKeyword []) (onto field (fields [] q))
    after [] k rest = rest
    after (b ∷ field) k rest = (k, rest)

pub join_words-HasNoKeyword :
    (ws : List Text) → All (HasNoKeyword []) ws → HasNoKeyword [] (join_words ws)
join_words-HasNoKeyword [] a = refl
join_words-HasNoKeyword (w ∷ []) (k, a) = k
join_words-HasNoKeyword (w ∷ x ∷ ws) (k, a) =
    HasNoKeyword-join w [] b' ' (join_words (x ∷ ws)) refl k (join_words-HasNoKeyword (x ∷ ws) a)
