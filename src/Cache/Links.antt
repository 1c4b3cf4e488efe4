-- ===== src/Cache/Links.antt =====
-- Doubly linked segments on the heap of internal/cache/cache.go, as lists of pointers.
use filesearch.Base.{
  ℕ, ◌≡◌, refl, ap, sym, ◌≢◌, ◌⊎◌, inl, inr, Option, some, List, [], ◌∷◌, ◌++◌, All, All-append,
  All-append_left, All-append_right, arith,
}
use filesearch.Cache.{Heap, Entry, update, set_next, set_prev}

abbrev pub Absent : ℕ → List ℕ → Type 0
Absent p = All (λ q. q ≢ p)

abbrev pub Distinct : List ℕ → Type 0
Distinct [] = Unit
Distinct (p ∷ ps) = Absent p ps × Distinct ps

abbrev pub In : ℕ → List ℕ → Type 0
In p [] = ⊥
In p (q ∷ ps) = (q ≡ p) ⊎ In p ps

-- The first pointer of a segment that `next` follows.
abbrev pub first : List ℕ → Option ℕ → Option ℕ
first [] next = next
first (p ∷ ps) next = some p

-- The last pointer of a segment that follows `prev`.
abbrev pub last : Option ℕ → List ℕ → Option ℕ
last prev [] = prev
last prev (p ∷ ps) = last (some p) ps

-- The entries at the pointers are linked both ways, from `prev` to `next`.
abbrev pub Seg : Heap → Option ℕ → List ℕ → Option ℕ → Type 0
Seg h prev [] next = Unit
Seg h prev (p ∷ ps) next =
    ((h p).prev ≡ prev) × ((h p).next ≡ first ps next) × Seg h (some p) ps next

pub last-append : (prev : Option ℕ) (xs ys : List ℕ) → last prev (xs ++ ys) ≡ last (last prev xs) ys
last-append prev [] ys = refl
last-append prev (x ∷ xs) ys = last-append (some x) xs ys

pub first-append :
    (xs ys : List ℕ) (next : Option ℕ) → first (xs ++ ys) next ≡ first xs (first ys next)
first-append [] ys next = refl
first-append (x ∷ xs) ys next = refl

pub Seg-append_left :
    (h : Heap) (prev : Option ℕ) (xs ys : List ℕ) (next : Option ℕ)
    → Seg h prev (xs ++ ys) next
    → Seg h prev xs (first ys next)
Seg-append_left h prev [] ys next s = tt
Seg-append_left h prev (x ∷ xs) ys next (p, n, s) =
    (p, rw (← first-append xs ys next) n, Seg-append_left h (some x) xs ys next s)

pub Seg-append_right :
    (h : Heap) (prev : Option ℕ) (xs ys : List ℕ) (next : Option ℕ)
    → Seg h prev (xs ++ ys) next
    → Seg h (last prev xs) ys next
Seg-append_right h prev [] ys next s = s
Seg-append_right h prev (x ∷ xs) ys next (p, n, s) = Seg-append_right h (some x) xs ys next s

pub Seg-append :
    (h : Heap) (prev : Option ℕ) (xs ys : List ℕ) (next : Option ℕ)
    → Seg h prev xs (first ys next)
    → Seg h (last prev xs) ys next
    → Seg h prev (xs ++ ys) next
Seg-append h prev [] ys next s t = t
Seg-append h prev (x ∷ xs) ys next (p, n, s) t =
    (p, rw (first-append xs ys next) n, Seg-append h (some x) xs ys next s t)

-- A write elsewhere keeps a segment.
pub Seg-update :
    (h : Heap) (prev : Option ℕ) (ps : List ℕ) (next : Option ℕ) (q : ℕ) (e : Entry)
    → Absent q ps
    → Seg h prev ps next
    → Seg (update h q e) prev ps next
Seg-update h prev [] next q e a s = tt
Seg-update h prev (p ∷ ps) next q e (a, rest) (l, r, s) =
    (ground arith, ground arith, Seg-update h (some p) ps next q e rest s)

-- A write to the `next` of the last entry gives the segment another end.
pub Seg-set_next_last :
    (h : Heap) (prev : Option ℕ) (xs : List ℕ) (q : ℕ) (next v : Option ℕ)
    → Absent q xs
    → Seg h prev (xs ++ q ∷ []) next
    → Seg (set_next h q v) prev (xs ++ q ∷ []) v
Seg-set_next_last h prev [] q next v a (l, r, s) = (ground arith, ground arith, tt)
Seg-set_next_last h prev (x ∷ xs) q next v (a, rest) (l, r, s) = (
  ground arith,
  ground (arith, first-append xs (q ∷ []) v, first-append xs (q ∷ []) next),
  Seg-set_next_last h (some x) xs q next v rest s,
)

pub Seg-set_prev_first :
    (h : Heap) (prev : Option ℕ) (r : ℕ) (ys : List ℕ) (next v : Option ℕ)
    → Absent r ys
    → Seg h prev (r ∷ ys) next
    → Seg (set_prev h r v) v (r ∷ ys) next
Seg-set_prev_first h prev r ys next v a (l, n, s) =
    (ground arith, ground arith, Seg-update h (some r) ys next r _ a s)

-- A pointer in the middle of distinct pointers.
pub Distinct-middle :
    (xs : List ℕ) (p : ℕ) (ys : List ℕ)
    → Distinct (xs ++ p ∷ ys)
    → Absent p xs × Absent p ys × Distinct (xs ++ ys)
Distinct-middle [] p ys (a, d) = (tt, a, d)
Distinct-middle (x ∷ xs) p ys (a, d) =
    let (l, r, rest) = Distinct-middle xs p ys d in
    let here = All-append_right (λ q. q ≢ x) xs (p ∷ ys) a in
    (
      (λ e. here.0 (sym e), l),
      r,
      (All-append (λ q. q ≢ x) xs ys (All-append_left (λ q. q ≢ x) xs (p ∷ ys) a) here.1, rest),
    )

pub snoc_cases : (xs : List ℕ) → (xs ≡ []) ⊎ ((ys : List ℕ) × (q : ℕ) × (xs ≡ ys ++ q ∷ []))
snoc_cases [] = inl refl
snoc_cases (x ∷ xs) = elim (snoc_cases xs) [
  | inl e ↦ inr ([], x, ap (◌∷◌ x) e)
  | inr (ys, q, e) ↦ inr (x ∷ ys, q, ap (◌∷◌ x) e)
]

pub In-split : (p : ℕ) (ps : List ℕ) → In p ps → (xs : List ℕ) × (ys : List ℕ) × (ps ≡ xs ++ p ∷ ys)
In-split p [] h = elim h [ ]
In-split p (q ∷ ps) (inl e) = ([], ps, rw e)
In-split p (q ∷ ps) (inr h) = let (xs, ys, e) = In-split p ps h in (q ∷ xs, ys, ap (◌∷◌ q) e)

pub All-In : (P : ℕ → Type 0) (p : ℕ) (ps : List ℕ) → All P ps → In p ps → P p
All-In P p [] a h = elim h [ ]
All-In P p (q ∷ ps) (a, rest) (inl e) = rw e at a
All-In P p (q ∷ ps) (a, rest) (inr h) = All-In P p ps rest h
