-- ===== src/Base/Dict.antt =====
-- Go's `map[string]V` as an association list. A later theorem that ranges over all such lists
-- ranges over all iteration orders.
use mathlib.Core.List.{List, [], ◌∷◌}
use mathlib.Core.Logic.{◌≢◌, inl, inr}
use mathlib.Core.Option.{Option, none, some}
use mathlib.Core.Path.{◌≡◌, refl, sym}
use native.Mathlib.Omega.{arith}
use filesearch.Base.Tests.{if◌then◌else◌, Bool-cases}
use mathlib.Core.Bool.{false}
use filesearch.Base.Lists.{All}
use filesearch.Base.Texts.{Text, text_eq, text_eq_refl, text_eq_iff}

text_eq_other : (p x : Text) → p ≢ x → text_eq p x ≡ false
text_eq_other p x ne = elim (Bool-cases (text_eq p x)) [
  | inl e ↦ absurd (ne ((text_eq_iff p x).0 e))
  | inr e ↦ e
]

module _ {ℓ} {V : Type ℓ} where
  -- `v, ok := m[k]`
  unfoldable pub lookup : Text → List (Text × V) → Option V
  lookup k [] = none
  lookup k ((j, v) ∷ m) = if text_eq j k then some v else lookup k m

  -- `delete(m, k)`
  unfoldable pub remove : Text → List (Text × V) → List (Text × V)
  remove k [] = []
  remove k ((j, v) ∷ m) = let rest = remove k m in if text_eq j k then rest else (j, v) ∷ rest

  -- `m[k] = v`
  unfoldable pub insert : Text → V → List (Text × V) → List (Text × V)
  unfolding remove
  insert k v m = (k, v) ∷ remove k m

  abbrev pub values : List (Text × V) → List V
  values [] = []
  values ((k, v) ∷ m) = v ∷ values m

  pub lookup-remove :
      (k j : Text) (m : List (Text × V))
      → lookup j (remove k m) ≡ (if text_eq k j then none else lookup j m)
  unfolding lookup remove
  lookup-remove k j [] = ground arith
  lookup-remove k j ((i, v) ∷ m) =
      ground (arith, lookup-remove k j m, text_eq_iff i k, text_eq_iff i j, text_eq_iff k j)

  pub lookup-insert :
      (k j : Text) (v : V) (m : List (Text × V))
      → lookup j (insert k v m) ≡ (if text_eq k j then some v else lookup j m)
  unfolding lookup insert
  lookup-insert k j v m = ground (arith, lookup-remove k j m)

  pub lookup-insert_self :
      (k : Text) (v : V) (m : List (Text × V)) → lookup k (insert k v m) ≡ some v
  lookup-insert_self k v m = rw (lookup-insert, text_eq_refl k)

  pub lookup-insert_other :
      (k x : Text) (v : V) (m : List (Text × V)) → x ≢ k → lookup x (insert k v m) ≡ lookup x m
  lookup-insert_other k x v m ne = rw (lookup-insert, text_eq_other k x (λ e. ne (sym e))) refl

  pub lookup-remove_other :
      (k x : Text) (m : List (Text × V)) → x ≢ k → lookup x (remove k m) ≡ lookup x m
  lookup-remove_other k x m ne = rw (lookup-remove, text_eq_other k x (λ e. ne (sym e))) refl

  pub lookup-remove_self : (k : Text) (m : List (Text × V)) → lookup k (remove k m) ≡ none
  lookup-remove_self k m = rw (lookup-remove, text_eq_refl k) refl

module _ {ℓ} {V : Type ℓ} (P : Text × V → Type 0) where
  -- What holds of all bindings of a map holds of the one that is found.
  pub All-lookup :
      (k : Text) (v : V) (m : List (Text × V)) → All P m → lookup k m ≡ some v → P (k, v)
  unfolding lookup
  All-lookup k v [] a h = cc
  All-lookup k v ((j, w) ∷ m) (p, rest) h = elim (Bool-cases (text_eq j k)) [
    | inl e ↦
        let same = (text_eq_iff j k).0 e in
        let found : w ≡ v = ground arith in rw (← same, ← found) p
    | inr e ↦ All-lookup k v m rest (ground arith)
  ]

  pub All-remove :
      (Q : Text × V → Type 0) (k : Text) (m : List (Text × V))
      → ((j : Text) (v : V) → text_eq j k ≡ false → P (j, v) → Q (j, v))
      → All P m
      → All Q (remove k m)
  unfolding remove
  All-remove Q k [] step a = tt
  All-remove Q k ((j, v) ∷ m) step (p, rest) = elim (Bool-cases (text_eq j k)) [
    | inl e ↦ rw e (All-remove Q k m step rest)
    | inr e ↦ rw e (step j v e p, All-remove Q k m step rest)
  ]

  pub All-insert :
      (Q : Text × V → Type 0) (k : Text) (v : V) (m : List (Text × V))
      → ((j : Text) (w : V) → text_eq j k ≡ false → P (j, w) → Q (j, w))
      → Q (k, v)
      → All P m
      → All Q (insert k v m)
  unfolding insert
  All-insert Q k v m step q a = (q, All-remove Q k m step a)

module _ {ℓ} {V : Type ℓ} where
  -- A map has one binding for a key.
  abbrev pub Unique : List (Text × V) → Type ℓ
  Unique [] = Unit
  Unique ((k, v) ∷ m) = (lookup k m ≡ none) × Unique m

  pub Unique-remove : (k : Text) (m : List (Text × V)) → Unique m → Unique (remove k m)
  unfolding remove
  Unique-remove k [] u = tt
  Unique-remove k ((j, v) ∷ m) (e, u) = elim (Bool-cases (text_eq j k)) [
    | inl same ↦ rw same (Unique-remove k m u)
    | inr other ↦ rw other (ground (arith, lookup-remove k j m), Unique-remove k m u)
  ]

  pub Unique-insert : (k : Text) (v : V) (m : List (Text × V)) → Unique m → Unique (insert k v m)
  unfolding insert
  Unique-insert k v m u = (rw (lookup-remove, text_eq_refl k), Unique-remove k m u)
