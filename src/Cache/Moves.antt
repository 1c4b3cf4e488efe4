-- ===== src/Cache/Moves.antt =====
-- What `moveToFront` and an overwritten entry of internal/cache/cache.go do to a well-formed state.
use filesearch.Base.{
  ℕ, ◌≡◌, refl, ap, ◌∙◌, ◌<◌, inl, inr, Option, none, some, List, [], ◌∷◌, ◌++◌, length-append,
  lookup, All, All-append, All-append_left, All-append_right, All-map, arith, Bool-cases,
}
use filesearch.Cache.{Heap, Cache, Result, unlink, is_head, move_to_front, fill}
use filesearch.Cache.Spec.{Slot}
use filesearch.Cache.Links.{In, Seg}
use filesearch.Cache.Layout.{move_to_front-IsList}
use filesearch.Cache.Holds.{Holds, Same, unlink-Same, push_front-Same}

pub Same-trans : {a b c : Cache} → Same a b → Same b c → Same a c
Same-trans s t = record {
  slots = λ q. s.slots q ∙ t.slots q;
  fresh = s.fresh ∙ t.fresh;
  items = s.items ∙ t.items;
  size = s.size ∙ t.size;
  max_size = s.max_size ∙ t.max_size;
  ttl = s.ttl ∙ t.ttl;
}

Same-refl : (c : Cache) → Same c c
Same-refl c = record {
  slots = λ q. refl;
  fresh = refl;
  items = refl;
  size = refl;
  max_size = refl;
  ttl = refl;
}

pub move_to_front-Same : (c : Cache) (p : ℕ) → Same (move_to_front c p) c
unfolding move_to_front
move_to_front-Same c p = elim (Bool-cases (is_head c.head p)) [
  | inl e ↦ rw e (Same-refl c)
  | inr e ↦ rw e (Same-trans (push_front-Same (unlink c p) p) (unlink-Same c p))
]

In-to_front :
    (q : ℕ) (xs : List ℕ) (p : ℕ) (ys : List ℕ) → In q (xs ++ p ∷ ys) → In q (p ∷ (xs ++ ys))
In-to_front q [] p ys h = h
In-to_front q (x ∷ xs) p ys (inl e) = inr (inl e)
In-to_front q (x ∷ xs) p ys (inr h) = elim (In-to_front q xs p ys h) [
  | inl e ↦ inl e
  | inr i ↦ inr (inr i)
]

All-to_front :
    (P : ℕ → Type 0) (xs : List ℕ) (p : ℕ) (ys : List ℕ)
    → All P (xs ++ p ∷ ys)
    → All P (p ∷ (xs ++ ys))
All-to_front P xs p ys a =
    let right = All-append_right P xs (p ∷ ys) a in
    (right.0, All-append P xs ys (All-append_left P xs (p ∷ ys) a) right.1)

module _ (c : Cache) (xs : List ℕ) (p : ℕ) (ys : List ℕ) (h : Holds c (xs ++ p ∷ ys)) where
  -- `moveToFront` of an entry in the list keeps the structure, and reorders the list.
  pub move_to_front-Holds : Holds (move_to_front c p) (p ∷ (xs ++ ys))
  move_to_front-Holds =
      let same = move_to_front-Same c p in
      let d = move_to_front c p in
      let key_at = λ (q : ℕ). ap (λ (s : Slot). s.key) (same.slots q) in
      record {
        layout = move_to_front-IsList c xs p ys h.layout;
        size = omega (arith, h.size, same.size, length-append xs ys, length-append xs (p ∷ ys));
        older =
            All-map (λ q. q < c.fresh) (λ q. q < d.fresh) (p ∷ (xs ++ ys))
              (λ q lt. rw same.fresh lt) (All-to_front (λ q. q < c.fresh) xs p ys h.older);
        indexed =
            All-map (λ q. lookup (c.heap q).key c.items ≡ some q)
              (λ q. lookup (d.heap q).key d.items ≡ some q) (p ∷ (xs ++ ys))
              (λ q found. rw (key_at q, same.items) found)
              (All-to_front (λ q. lookup (c.heap q).key c.items ≡ some q) xs p ys h.indexed);
        listed = rw same.items (
            All-map (λ b. In b.1 (xs ++ p ∷ ys) × ((c.heap b.1).key ≡ b.0))
              (λ b. In b.1 (p ∷ (xs ++ ys)) × ((d.heap b.1).key ≡ b.0)) c.items
              (λ b (i, named). (In-to_front b.1 xs p ys i, key_at b.1 ∙ named)) h.listed);
        distinct = rw same.items h.distinct;
      }

-- Writes to the other fields keep a segment.
Seg-same :
    (h g : Heap)
    → ((q : ℕ) → (h q).prev ≡ (g q).prev)
    → ((q : ℕ) → (h q).next ≡ (g q).next)
    → (prev : Option ℕ) (ps : List ℕ) (next : Option ℕ) → Seg g prev ps next
    → Seg h prev ps next
Seg-same h g sp sn prev [] next s = tt
Seg-same h g sp sn prev (p ∷ ps) next (l, r, s) =
    (sp p ∙ l, sn p ∙ r, Seg-same h g sp sn (some p) ps next s)

-- The write of `Set` to an entry that it found keeps the structure.
pub fill-Holds :
    (c : Cache) (now e : ℕ) (results : List Result) (total : ℕ) (ps : List ℕ)
    → Holds c ps
    → Holds (fill c now e results total) ps
fill-Holds c now e results total ps h =
    let d = fill c now e results total in
    let key_at : (q : ℕ) → (d.heap q).key ≡ (c.heap q).key = λ q. ground arith in
    record {
      layout = record {
        head = h.layout.head;
        tail = h.layout.tail;
        links =
            Seg-same d.heap c.heap (λ q. ground arith) (λ q. ground arith) none ps none
              h.layout.links;
        distinct = h.layout.distinct;
      };
      size = h.size;
      older = h.older;
      indexed =
          All-map (λ q. lookup (c.heap q).key c.items ≡ some q)
            (λ q. lookup (d.heap q).key c.items ≡ some q) ps (λ q found. rw (key_at q) found)
            h.indexed;
      listed =
          All-map (λ b. In b.1 ps × ((c.heap b.1).key ≡ b.0))
            (λ b. In b.1 ps × ((d.heap b.1).key ≡ b.0)) c.items
            (λ b (i, named). (i, key_at b.1 ∙ named)) h.listed;
      distinct = h.distinct;
    }
