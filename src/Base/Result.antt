-- ===== src/Base/Result.antt =====
-- Go's `(value, error)` results. An error is the list of the messages that wrapped it, the last
-- one first.
use mathlib.Core.List.{List, ◌∷◌}
use mathlib.Core.Logic.{◌⊎◌, inl, inr}
use mathlib.Core.Path.{◌≡◌, refl}
use filesearch.Base.Texts.{Text}

abbrev pub Error : Type 0
Error = List Text

pub data Result {ℓ} (A : Type ℓ) : Type ℓ where
  ok : A → Result A
  err : Error → Result A

infixl 5 ◌>>=◌ ◌>>◌
abbrev pub ◌>>=◌ {ℓ κ} : {A : Type ℓ} {B : Type κ} → Result A → (A → Result B) → Result B
ok a >>= f = f a
err e >>= f = err e

abbrev pub ◌>>◌ {ℓ κ} : {A : Type ℓ} {B : Type κ} → Result A → Result B → Result B
m >> k = m >>= λ _. k

-- fmt.Errorf("message: %w", err)
abbrev pub wrap {ℓ} : {A : Type ℓ} → Text → Result A → Result A
wrap message (ok a) = ok a
wrap message (err e) = err (message ∷ e)

-- What a successful `if err != nil { return wrap(err) }` says of its parts.
pub wrap->>=-eq-ok {ℓ κ} :
    {A : Type ℓ} {B : Type κ} (message : Text) (m : Result A) (f : A → Result B) {b : B}
    → (wrap message m >>= f) ≡ ok b
    → (a : A) × (m ≡ ok a) × (f a ≡ ok b)
wrap->>=-eq-ok message (ok a) f h = (a, refl, h)
wrap->>=-eq-ok message (err e) f h = cc

pub Result-cases {ℓ} :
    {A : Type ℓ} (m : Result A) → ((a : A) × (m ≡ ok a)) ⊎ ((e : Error) × (m ≡ err e))
Result-cases (ok a) = inl (a, refl)
Result-cases (err e) = inr (e, refl)
