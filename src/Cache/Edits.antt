-- ===== src/Cache/Edits.antt =====
-- What `remove`, `moveToFront` and the insertion of internal/cache/cache.go do to a well-formed state.
use filesearch.Base.{
  ℕ, ◌≡◌, refl, sym, ap, ◌∙◌, ◌≢◌, ◌<◌, inl, inr, false, some, List, [], ◌∷◌, ◌++◌, Text, text_eq,
  text_eq_iff, length-append, lookup, remove, values, map, All, All-append, All-append_left,
  All-append_right, All-zip, All-remove, lookup-remove, arith, Bool-cases,
}
use mathlib.Core.Bool.{false≢true}
use filesearch.Cache.{Heap, Cache, unlink, remove_entry}
use filesearch.Cache.Links.{Absent, Distinct, In, Distinct-middle}
use filesearch.Cache.Layout.{unlink-IsList}
use filesearch.Cache.Spec.{Slot}
use filesearch.Cache.Holds.{slot, Holds, unlink-Same}

pub In-middle :
    (q : ℕ) (xs : List ℕ) (p : ℕ) (ys : List ℕ) → In q (xs ++ p ∷ ys) → p ≢ q → In q (xs ++ ys)
In-middle q [] p ys (inl e) ne = absurd (ne e)
In-middle q [] p ys (inr h) ne = h
In-middle q (x ∷ xs) p ys (inl e) ne = inl e
In-middle q (x ∷ xs) p ys (inr h) ne = inr (In-middle q xs p ys h ne)

pub In-here : (xs : List ℕ) (p : ℕ) (ys : List ℕ) → In p (xs ++ p ∷ ys)
In-here [] p ys = inl refl
In-here (x ∷ xs) p ys = inr (In-here xs p ys)

-- The part of a list beside one element.
pub All-middle :
    (P : ℕ → Type 0) (xs : List ℕ) (p : ℕ) (ys : List ℕ) → All P (xs ++ p ∷ ys) → All P (xs ++ ys)
All-middle P xs p ys a =
    All-append P xs ys (All-append_left P xs (p ∷ ys) a) (All-append_right P xs (p ∷ ys) a).1

All-here : (P : ℕ → Type 0) (xs : List ℕ) (p : ℕ) (ys : List ℕ) → All P (xs ++ p ∷ ys) → P p
All-here P xs p ys a = (All-append_right P xs (p ∷ ys) a).0

pub Absent-middle :
    (xs : List ℕ) (p : ℕ) (ys : List ℕ) → Distinct (xs ++ p ∷ ys) → Absent p (xs ++ ys)
Absent-middle xs p ys d =
    let (left, right, rest) = Distinct-middle xs p ys d in All-append (λ q. q ≢ p) xs ys left right

pub Absent-remove :
    (q : ℕ) (k : Text) (m : List (Text × ℕ)) → Absent q (values m) → Absent q (values (remove k m))
unfolding remove
Absent-remove q k [] a = tt
Absent-remove q k ((j, v) ∷ m) (ne, a) = elim (Bool-cases (text_eq j k)) [
  | inl e ↦ rw e (Absent-remove q k m a)
  | inr e ↦ rw e (ne, Absent-remove q k m a)
]

pub Distinct-remove :
    (k : Text) (m : List (Text × ℕ)) → Distinct (values m) → Distinct (values (remove k m))
unfolding remove
Distinct-remove k [] d = tt
Distinct-remove k ((j, v) ∷ m) (a, d) = elim (Bool-cases (text_eq j k)) [
  | inl e ↦ rw e (Distinct-remove k m d)
  | inr e ↦ rw e (Absent-remove v k m a, Distinct-remove k m d)
]

-- The same slots at the pointers of a list give the same view.
pub map-slot :
    (h g : Heap) (ps : List ℕ)
    → All (λ q. slot h q ≡ slot g q) ps
    → map (slot h) ps ≡ map (slot g) ps
map-slot h g [] a = refl
map-slot h g (p ∷ ps) (e, a) = cc (e, map-slot h g ps a)

pub All-every : (P : ℕ → Type 0) (ps : List ℕ) → ((q : ℕ) → P q) → All P ps
All-every P [] f = tt
All-every P (p ∷ ps) f = (f p, All-every P ps f)

-- A pointer of the list other than `p` has another key.
other_key :
    (c : Cache) (p q : ℕ) (k : Text)
    → lookup k c.items ≡ some p
    → lookup (c.heap q).key c.items ≡ some q
    → q ≢ p
    → text_eq k (c.heap q).key ≡ false
other_key c p q k hp hq ne = ground (arith, text_eq_iff k (c.heap q).key)

module _ (c : Cache) (xs : List ℕ) (p : ℕ) (ys : List ℕ) (h : Holds c (xs ++ p ∷ ys)) where
  -- The map has the entry under its key.
  pub indexed_here : lookup (c.heap p).key c.items ≡ some p
  indexed_here = All-here (λ q. lookup (c.heap q).key c.items ≡ some q) xs p ys h.indexed

  pub others : All (λ q. text_eq (c.heap p).key (c.heap q).key ≡ false) (xs ++ ys)
  others =
      All-zip (λ q. q ≢ p) (λ q. lookup (c.heap q).key c.items ≡ some q)
        (λ q. text_eq (c.heap p).key (c.heap q).key ≡ false) (xs ++ ys)
        (λ q ne found. other_key c p q (c.heap p).key indexed_here found ne)
        (Absent-middle xs p ys h.layout.distinct)
        (All-middle (λ q. lookup (c.heap q).key c.items ≡ some q) xs p ys h.indexed)

  other_binding : (j : Text) (v : ℕ) → text_eq j (c.heap p).key ≡ false → (c.heap v).key ≡ j → p ≢ v
  other_binding j v e named same =
      false≢true
        (sym e ∙ (text_eq_iff j (c.heap p).key).1 (sym named ∙ ap (λ q. (c.heap q).key) (sym same)))

  -- `remove` of an entry in the list keeps the structure, and drops that entry.
  pub remove_entry-Holds : Holds (remove_entry c p) (xs ++ ys)
  unfolding remove_entry
  remove_entry-Holds =
      let same = unlink-Same c p in
      let l = unlink-IsList c xs p ys h.layout in
      let key_at = λ (q : ℕ). ap (λ (s : Slot). s.key) (same.slots q) in
      record {
        layout = record { head = l.head; tail = l.tail; links = l.links; distinct = l.distinct };
        size = omega (arith, h.size, same.size, length-append xs ys, length-append xs (p ∷ ys));
        older = rw same.fresh (All-middle (λ q. q < c.fresh) xs p ys h.older);
        indexed =
            All-zip (λ q. lookup (c.heap q).key c.items ≡ some q)
              (λ q. text_eq (c.heap p).key (c.heap q).key ≡ false)
              (λ q.
                lookup ((unlink c p).heap q).key
                  (remove ((unlink c p).heap p).key (unlink c p).items)
                ≡ some q)
              (xs ++ ys)
              (λ q found ne. rw (key_at q, key_at p, same.items, lookup-remove, ne) found)
              (All-middle (λ q. lookup (c.heap q).key c.items ≡ some q) xs p ys h.indexed) others;
        listed =
            rw (key_at p, same.items)
              (All-remove (λ b. In b.1 (xs ++ p ∷ ys) × ((c.heap b.1).key ≡ b.0))
                (λ b. In b.1 (xs ++ ys) × (((unlink c p).heap b.1).key ≡ b.0)) (c.heap p).key
                c.items
                (λ j v e (i, named).
                  (In-middle v xs p ys i (other_binding j v e named), key_at v ∙ named))
                h.listed);
        distinct = rw same.items (Distinct-remove _ c.items h.distinct);
      }
