-- ===== src/Base/Decimals.antt =====
-- `%d` of package fmt, and the value of a sequence of digits.
use Prim.Native.Nat.{ℕ, zero, suc, ◌+◌, ◌*◌, ◌-◌}
use mathlib.Core.Bool.{Bool, true, false, ◌&&◌}
use mathlib.Core.List.{[], ◌∷◌}
use mathlib.Core.Logic.{inl, inr}
use mathlib.Core.Path.{◌≡◌, refl, ap, ◌∙◌}
use native.Mathlib.Omega.{arith}
use filesearch.Base.Int.{ℤ, pos, negsuc}
use filesearch.Base.Lists.{All}
use filesearch.Base.Tests.{◌==◌, leb, if◌then◌else◌, Bool-cases}
use filesearch.Base.Texts.{Text, is_empty}

-- The digits of a number, the last one first.
abbrev increment : Text → Text
increment [] = b'1' ∷ []
increment (d ∷ digits) = if d == b'9' then b'0' ∷ increment digits else suc d ∷ digits

abbrev digits_of : ℕ → Text
digits_of zero = b'0' ∷ []
digits_of (suc n) = increment (digits_of n)

abbrev reverse_onto : Text → Text → Text
reverse_onto [] text = text
reverse_onto (d ∷ digits) text = reverse_onto digits (d ∷ text)

-- `%d`
unfoldable pub decimal : ℕ → Text
decimal n = reverse_onto (digits_of n) []

abbrev pub signed : ℤ → Text
signed (pos n) = decimal n
signed (negsuc n) = b'-' ∷ decimal (suc n)

abbrev pub is_digit : ℕ → Bool
is_digit c = leb b'0' c && leb c b'9'

abbrev pub AreDigits : Text → Type 0
AreDigits = All (λ c. is_digit c ≡ true)

increment-AreDigits : (ds : Text) → AreDigits ds → AreDigits (increment ds)
increment-AreDigits [] a = (refl, tt)
increment-AreDigits (d ∷ ds) (p, a) = elim (Bool-cases (d == b'9')) [
  | inl nine ↦ rw nine (refl, increment-AreDigits ds a)
  | inr less ↦ rw less (next d less p, a)
]
  where
    next : (d : ℕ) → (d == b'9') ≡ false → is_digit d ≡ true → is_digit (suc d) ≡ true
    next d less p = ground arith

digits_of-AreDigits : (n : ℕ) → AreDigits (digits_of n)
digits_of-AreDigits zero = (refl, tt)
digits_of-AreDigits (suc n) = increment-AreDigits (digits_of n) (digits_of-AreDigits n)

reverse_onto-AreDigits :
    (ds text : Text) → AreDigits ds → AreDigits text → AreDigits (reverse_onto ds text)
reverse_onto-AreDigits [] t a b = b
reverse_onto-AreDigits (d ∷ ds) t (p, a) b = reverse_onto-AreDigits ds (d ∷ t) a (p, b)

pub decimal-AreDigits : (n : ℕ) → AreDigits (decimal n)
unfolding decimal
decimal-AreDigits n = reverse_onto-AreDigits (digits_of n) [] (digits_of-AreDigits n) tt

reverse_onto-filled : (d : ℕ) (ds text : Text) → is_empty (reverse_onto ds (d ∷ text)) ≡ false
reverse_onto-filled d [] t = refl
reverse_onto-filled d (e ∷ ds) t = reverse_onto-filled e ds (d ∷ t)

increment-filled : (ds text : Text) → is_empty (reverse_onto (increment ds) text) ≡ false
increment-filled [] t = refl
increment-filled (d ∷ ds) t = elim (Bool-cases (d == b'9')) [
  | inl nine ↦ rw nine (reverse_onto-filled b'0' (increment ds) t)
  | inr less ↦ rw less (reverse_onto-filled (suc d) ds t)
]

pub decimal-filled : (n : ℕ) → is_empty (decimal n) ≡ false
unfolding decimal
decimal-filled zero = refl
decimal-filled (suc n) = increment-filled (digits_of n) []

-- The value of digits after a number.
abbrev pub value : ℕ → Text → ℕ
value n [] = n
value n (c ∷ text) = value (n * 10 + (c - b'0')) text

-- The value of digits that stand last one first.
abbrev value_of : ℕ → Text → ℕ
value_of n [] = n
value_of n (d ∷ ds) = value_of n ds * 10 + (d - b'0')

value-reverse_onto :
    (ds : Text) (n : ℕ) (text : Text) → value n (reverse_onto ds text) ≡ value (value_of n ds) text
value-reverse_onto [] n t = refl
value-reverse_onto (d ∷ ds) n t = value-reverse_onto ds n (d ∷ t)

value_of-increment : (ds : Text) → AreDigits ds → value_of 0 (increment ds) ≡ suc (value_of 0 ds)
value_of-increment [] a = refl
value_of-increment (d ∷ ds) (p, a) =
    let rest = value_of-increment ds a in
    elim (Bool-cases (d == b'9')) [
      | inl nine ↦ rw (nine, rest) (carry d (value_of 0 ds) nine)
      | inr less ↦ rw less (next d (value_of 0 ds) less p)
    ]
  where
    carry : (d v : ℕ) → (d == b'9') ≡ true → suc v * 10 + 0 ≡ suc (v * 10 + (d - b'0'))
    carry d v nine = ground arith

    next :
        (d v : ℕ)
        → (d == b'9') ≡ false
        → is_digit d ≡ true
        → v * 10 + (suc d - b'0') ≡ suc (v * 10 + (d - b'0'))
    next d v less p = ground arith

value_of-digits_of : (n : ℕ) → value_of 0 (digits_of n) ≡ n
value_of-digits_of zero = refl
value_of-digits_of (suc n) =
    value_of-increment (digits_of n) (digits_of-AreDigits n) ∙ ap suc (value_of-digits_of n)

pub value-decimal : (n : ℕ) → value 0 (decimal n) ≡ n
unfolding decimal
value-decimal n = value-reverse_onto (digits_of n) 0 [] ∙ value_of-digits_of n
