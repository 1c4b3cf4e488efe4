-- ===== src/Cache/Layout.antt =====
-- The pointer structure of internal/cache/cache.go: `head`, `tail` and the links spell one list of
-- distinct entries, and `unlink` and `pushFront` edit that list.
use mathlib.Core.List.{append_assoc, append-nil}
use filesearch.Base.{
  ℕ, ◌≡◌, refl, sym, ◌∙◌, ◌≢◌, inl, inr, Option, none, some, List, [], ◌∷◌, ◌++◌, All-append,
  All-append_left, All-append_right, arith, ◌==◌, ==_refl, ==_ne,
}
use filesearch.Cache.{
  Cache, unlink_prev, unlink_next, unlink_reset, unlink, push_front, is_head, move_to_front,
}
use filesearch.Cache.Links.{
  Absent, Distinct, first, last, Seg, last-append, Seg-append_left, Seg-append_right, Seg-append,
  Seg-update, Seg-set_next_last, Seg-set_prev_first, Distinct-middle, snoc_cases,
}

pub record IsList (c : Cache) (ps : List ℕ) : Type 0 where
  pub head : c.head ≡ first ps none
  pub tail : c.tail ≡ last none ps
  pub links : Seg c.heap none ps none
  pub distinct : Distinct ps

-- After the first conditional of `unlink`: the left side goes past `p`.
record LeftDone (c : Cache) (xs : List ℕ) (p : ℕ) (ys : List ℕ) : Type 0 where
  head : c.head ≡ first (xs ++ ys) none
  tail : c.tail ≡ last none (xs ++ p ∷ ys)
  left : Seg c.heap none xs (first ys none)
  prev : (c.heap p).prev ≡ last none xs
  right : Seg c.heap (some p) ys none
  next : (c.heap p).next ≡ first ys none

-- After the second one.
record BothDone (c : Cache) (xs : List ℕ) (ys : List ℕ) : Type 0 where
  head : c.head ≡ first (xs ++ ys) none
  tail : c.tail ≡ last none (xs ++ ys)
  left : Seg c.heap none xs (first ys none)
  right : Seg c.heap (last none xs) ys none

-- What a segment that is not empty starts with.
first_snoc :
    (zs : List ℕ) (q : ℕ) (ws vs : List ℕ)
    → first ((zs ++ q ∷ []) ++ ws) none ≡ first ((zs ++ q ∷ []) ++ vs) none
first_snoc [] q ws vs = refl
first_snoc (z ∷ zs) q ws vs = refl

module _ (c : Cache) (p : ℕ) (ys : List ℕ) where
  unlink_prev_first : IsList c (p ∷ ys) → LeftDone (unlink_prev c p) [] p ys
  unfolding unlink_prev
  unlink_prev_first l =
      let (prev, next, right) = l.links in
      rw (prev, unlink_prev)
        (record { head = next; tail = l.tail; left = tt; prev = prev; right = right; next = next })

  unlink_prev_later :
      (zs : List ℕ) (q : ℕ)
      → IsList c ((zs ++ q ∷ []) ++ p ∷ ys)
      → LeftDone (unlink_prev c p) (zs ++ q ∷ []) p ys
  unfolding unlink_prev
  unlink_prev_later zs q l =
      let xs = zs ++ q ∷ [] in
      let (prev, next, right) = Seg-append_right c.heap none xs (p ∷ ys) none l.links in
      let left = Seg-append_left c.heap none xs (p ∷ ys) none l.links in
      let (lq, rq, rest) =
        Distinct-middle zs q (p ∷ ys) (rw (append_assoc zs (q ∷ []) (p ∷ ys)) at l.distinct) in
      rw (prev ∙ last-append none zs (q ∷ []), unlink_prev)
        (record {
          head = l.head ∙ first_snoc zs q (p ∷ ys) ys;
          tail = l.tail;
          left = rw next (Seg-set_next_last c.heap none zs q (some p) (first ys none) lq left);
          prev = ground arith;
          right = Seg-update c.heap (some p) ys none q _ rq.1 right;
          next = ground arith;
        })

module _ (c : Cache) (xs : List ℕ) (p : ℕ) where
  unlink_next_last : LeftDone c xs p [] → BothDone (unlink_next c p) xs []
  unfolding unlink_next
  unlink_next_last l =
      rw (l.next, unlink_next)
        (record { head = l.head; tail = rw append-nil l.prev; left = l.left; right = tt })

  unlink_next_earlier :
      (r : ℕ) (ys : List ℕ)
      → Distinct (xs ++ p ∷ r ∷ ys)
      → LeftDone c xs p (r ∷ ys)
      → BothDone (unlink_next c p) xs (r ∷ ys)
  unfolding unlink_next
  unlink_next_earlier r ys d l =
      let (lr, rr, rest) =
        Distinct-middle (xs ++ p ∷ []) r ys (rw (append_assoc xs (p ∷ []) (r ∷ ys)) d) in
      let linked = Seg-set_prev_first c.heap (some p) r ys none (c.heap p).prev rr l.right in
      rw (l.next, unlink_next)
        (record {
          head = l.head;
          tail = l.tail ∙ last-append none xs (p ∷ r ∷ ys) ∙ sym (last-append none xs (r ∷ ys));
          left =
              Seg-update c.heap none xs (some r) r _ (All-append_left (λ q. q ≢ r) xs (p ∷ []) lr)
                l.left;
          right = (linked.0 ∙ l.prev, linked.1, linked.2);
        })

unlink_prev_done :
    (c : Cache) (xs : List ℕ) (p : ℕ) (ys : List ℕ)
    → IsList c (xs ++ p ∷ ys)
    → LeftDone (unlink_prev c p) xs p ys
unlink_prev_done c xs p ys l = elim (snoc_cases xs) [
  | inl e ↦ rw e (unlink_prev_first c p ys (rw e at l))
  | inr (zs, q, e) ↦ rw e (unlink_prev_later c p ys zs q (rw e at l))
]

unlink_next_done :
    (c : Cache) (xs : List ℕ) (p : ℕ) (ys : List ℕ)
    → Distinct (xs ++ p ∷ ys)
    → LeftDone c xs p ys
    → BothDone (unlink_next c p) xs ys
unlink_next_done c xs p [] d l = unlink_next_last c xs p l
unlink_next_done c xs p (r ∷ ys) d l = unlink_next_earlier c xs p r ys d l

unlink_reset_done :
    (c : Cache) (xs : List ℕ) (p : ℕ) (ys : List ℕ)
    → Distinct (xs ++ p ∷ ys)
    → BothDone c xs ys
    → IsList (unlink_reset c p) (xs ++ ys)
unfolding unlink_reset
unlink_reset_done c xs p ys d b =
    let (left, right, rest) = Distinct-middle xs p ys d in
    let apart = All-append (λ q. q ≢ p) xs ys left right in
    record {
      head = b.head;
      tail = b.tail;
      links = Seg-update _ none (xs ++ ys) none p _ apart (
          Seg-update c.heap none (xs ++ ys) none p _ apart
            (Seg-append c.heap none xs ys none b.left b.right));
      distinct = rest;
    }

-- Where the head, the tail and the links spell a list of distinct entries, `unlink` takes one
-- entry out of it.
pub unlink-IsList :
    (c : Cache) (xs : List ℕ) (p : ℕ) (ys : List ℕ)
    → IsList c (xs ++ p ∷ ys)
    → IsList (unlink c p) (xs ++ ys)
unfolding unlink
unlink-IsList c xs p ys l =
    unlink_reset_done (unlink_next (unlink_prev c p) p) xs p ys l.distinct
      (unlink_next_done (unlink_prev c p) xs p ys l.distinct (unlink_prev_done c xs p ys l))

last_some : (q : ℕ) (ps : List ℕ) → (t : ℕ) × (last (some q) ps ≡ some t)
last_some q [] = (q, refl)
last_some q (p ∷ ps) = last_some p ps

-- `pushFront` puts an entry that is in no list at the front.
pub push_front-IsList :
    (c : Cache) (p : ℕ) (ps : List ℕ) → Absent p ps → IsList c ps → IsList (push_front c p) (p ∷ ps)
unfolding push_front
push_front-IsList c p [] a l =
    rw (l.head, l.tail)
      (record {
        head = refl;
        tail = refl;
        links = (ground arith, ground arith, tt);
        distinct = (tt, tt);
      })
push_front-IsList c p (q ∷ ps) (qp, a) l =
    let (t, e) = last_some q ps in
    let (lq, ln, ls) = l.links in
    rw (l.head, l.tail ∙ e)
      (record {
        head = refl;
        tail = l.tail;
        links = (
          ground arith,
          ground arith,
          (
            ground arith,
            ground arith,
            Seg-update _ (some q) ps none q _ l.distinct.0
                (Seg-update _ (some q) ps none p _ a (Seg-update c.heap (some q) ps none p _ a ls)),
          ),
        );
        distinct = ((qp, a), l.distinct);
      })

is_head_eq : (o : Option ℕ) (x p : ℕ) → o ≡ some x → is_head o p ≡ (x == p)
is_head_eq o x p e = rw e

-- `moveToFront` moves an entry of the list to the front, and keeps the order of the others.
pub move_to_front-IsList :
    (c : Cache) (xs : List ℕ) (p : ℕ) (ys : List ℕ)
    → IsList c (xs ++ p ∷ ys)
    → IsList (move_to_front c p) (p ∷ (xs ++ ys))
unfolding move_to_front
move_to_front-IsList c [] p ys l = rw (is_head_eq c.head p p l.head ∙ ==_refl p) l
move_to_front-IsList c (x ∷ xs) p ys l =
    let apart = All-append_right (λ q. q ≢ x) xs (p ∷ ys) l.distinct.0 in
    let (left, right, rest) = Distinct-middle (x ∷ xs) p ys l.distinct in
    rw (is_head_eq c.head x p l.head ∙ ==_ne x p (λ e. apart.0 (sym e))) (
      push_front-IsList (unlink c p) p (x ∷ (xs ++ ys))
        (All-append (λ q. q ≢ p) (x ∷ xs) ys left right) (unlink-IsList c (x ∷ xs) p ys l))
