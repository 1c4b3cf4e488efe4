-- ===== src/Base/Texts.antt =====
-- Go's strings as lists of bytes, with the functions of the packages `strings` and `unicode` that
-- the program calls, over ASCII letters.
use Prim.Native.Char.{code}
use Prim.Native.Nat.{ℕ, suc, ◌+◌}
use Prim.Native.String.{String}
use mathlib.Core.Bool.{Bool, true, false, ◌&&◌, ◌||◌}
use mathlib.Core.List.{List, [], ◌∷◌, ◌++◌, map}
use mathlib.Core.Logic.{◌≢◌, ◌↔◌}
use mathlib.Core.Option
use mathlib.Core.Option.{Option, none, some}
use mathlib.Core.Path.{◌≡◌, refl}
use native.Mathlib.Omega.{arith}
use filesearch.Base.Tests.{leb, ◌==◌, if◌then◌else◌}

abbrev pub Text : Type 0
Text = List ℕ

abbrev pub codes : String → Text
codes String.[] = []
codes (String.◌∷◌ c s) = code c ∷ codes s

-- `s == t`
abbrev pub text_eq : Text → Text → Bool
text_eq [] [] = true
text_eq [] (c ∷ t) = false
text_eq (c ∷ s) [] = false
text_eq (c ∷ s) (d ∷ t) = c == d && text_eq s t

-- strings.HasPrefix(s, prefix)
abbrev pub has_prefix : Text → Text → Bool
has_prefix s [] = true
has_prefix [] (d ∷ p) = false
has_prefix (c ∷ s) (d ∷ p) = c == d && has_prefix s p

-- strings.HasSuffix(s, suffix)
abbrev pub has_suffix : Text → Text → Bool
has_suffix [] suffix = text_eq [] suffix
has_suffix (c ∷ s) suffix = text_eq (c ∷ s) suffix || has_suffix s suffix

-- strings.Contains(s, sub)
abbrev pub contains : Text → Text → Bool
contains [] sub = has_prefix [] sub
contains (c ∷ s) sub = has_prefix (c ∷ s) sub || contains s sub

abbrev pub lower : ℕ → ℕ
lower c = if leb b'A' c && leb c b'Z' then c + 32 else c

-- strings.ToLower(s)
abbrev pub to_lower : Text → Text
to_lower = map lower

-- strings.EqualFold(s, t)
abbrev pub equal_fold : Text → Text → Bool
equal_fold s t = text_eq (to_lower s) (to_lower t)

-- A table of texts: `m[s]` of a `map[string]bool` whose values are all `true`.
abbrev pub member : Text → List Text → Bool
member s [] = false
member s (t ∷ ts) = text_eq s t || member s ts

text_eq_sound : (s t : Text) → text_eq s t ≡ true → s ≡ t
text_eq_sound [] [] h = refl
text_eq_sound [] (d ∷ t) h = ground arith
text_eq_sound (c ∷ s) [] h = ground arith
text_eq_sound (c ∷ s) (d ∷ t) h = ground (arith, text_eq_sound s t)

pub text_eq_refl : (s : Text) → text_eq s s ≡ true
text_eq_refl [] = refl
text_eq_refl (c ∷ s) = ground (arith, text_eq_refl s)

pub text_eq_iff : (s t : Text) → (text_eq s t ≡ true) ↔ (s ≡ t)
text_eq_iff s t = (text_eq_sound s t, λ e. rw e (text_eq_refl t))

pub text_eq_ne : (s t : Text) → text_eq s t ≡ false → s ≢ t
text_eq_ne s t other same = cc ((text_eq_iff s t).1 same, other)

pub has_prefix-append : (p s : Text) → has_prefix (p ++ s) p ≡ true
has_prefix-append [] s = refl
has_prefix-append (c ∷ p) s = ground (arith, has_prefix-append p s)

-- strings.Index(s, sub)
abbrev pub index_text : Text → Text → Option ℕ
index_text [] sub = if has_prefix [] sub then some 0 else none
index_text (c ∷ s) sub =
    let later = Option.map suc (index_text s sub) in
    if has_prefix (c ∷ s) sub then some 0 else later

-- strings.IndexByte(s, b)
abbrev pub index_byte : ℕ → Text → Option ℕ
index_byte b [] = none
index_byte b (c ∷ s) =
    let later = Option.map suc (index_byte b s) in if c == b then some 0 else later

-- The position of the last byte `b`.
abbrev pub last_index_byte : ℕ → Text → Option ℕ
last_index_byte b [] = none
last_index_byte b (c ∷ s) = elim (last_index_byte b s) [
  | some i ↦ some (suc i)
  | none ↦ if c == b then some 0 else none
]

abbrev pub is_empty : Text → Bool
is_empty [] = true
is_empty (c ∷ s) = false
