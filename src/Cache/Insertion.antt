-- ===== src/Cache/Insertion.antt =====
-- What the insertion of a new key by `Set` of internal/cache/cache.go does to a well-formed state.
use filesearch.Base.{
  ℕ, ◌+◌, ◌≡◌, refl, ap, ◌∙◌, ◌≢◌, ◌<◌, inl, inr, false, none, some, List, [], ◌∷◌, Text, text_eq,
  text_eq_iff, lookup, insert, values, All, All-zip, All-map, All-insert, lookup-insert,
  lookup-insert_self, arith,
}
use filesearch.Cache.{Heap, Cache, Result, push_front, allocate}
use filesearch.Cache.Spec.{Slot}
use filesearch.Cache.Links.{Absent, Distinct, In, Seg-update}
use filesearch.Cache.Layout.{IsList, push_front-IsList}
use filesearch.Cache.Holds.{slot, Holds, push_front-Same}
use filesearch.Cache.Edits.{Absent-remove, Distinct-remove}

pub Absent-fresh : (p : ℕ) (ps : List ℕ) → All (λ q. q < p) ps → Absent p ps
Absent-fresh p [] a = tt
Absent-fresh p (q ∷ ps) (lt, a) = ((λ e. absurd (omega (arith, e))), Absent-fresh p ps a)

In-lt : (p q : ℕ) (ps : List ℕ) → All (λ q. q < p) ps → In q ps → q < p
In-lt p q [] a h = elim h [ ]
In-lt p q (x ∷ ps) (lt, a) (inl e) = omega (arith, e)
In-lt p q (x ∷ ps) (lt, a) (inr h) = In-lt p q ps a h

Distinct-insert :
    (k : Text) (v : ℕ) (m : List (Text × ℕ))
    → Absent v (values m)
    → Distinct (values m)
    → Distinct (values (insert k v m))
unfolding insert
Distinct-insert k v m a d = (Absent-remove v k m a, Distinct-remove k m d)

Absent-values :
    (heap : Heap) (p : ℕ) (ps : List ℕ) (m : List (Text × ℕ))
    → All (λ q. q < p) ps
    → All (λ b. In b.1 ps × ((heap b.1).key ≡ b.0)) m
    → Absent p (values m)
Absent-values heap p ps [] older a = tt
Absent-values heap p ps ((j, v) ∷ m) older ((i, named), a) =
    let lt = In-lt p v ps older i in
    ((λ e. absurd (omega (arith, e, lt))), Absent-values heap p ps m older a)

-- `allocate`, the map's new binding, `pushFront`, and `c.size++`.
abbrev pub inserted : Cache → ℕ → Text → List Result → ℕ → Cache
inserted c now key results total =
    let a = allocate c now key results total in
    let d = push_front (record a { items = insert key c.fresh a.items }) c.fresh in
    record d { size = d.size + 1 }

module _ (c : Cache) (now : ℕ) (key : Text) (results : List Result) (total : ℕ) (ps : List ℕ) where
  abbrev stored : Cache
  stored =
      let a = allocate c now key results total in record a { items = insert key c.fresh a.items }

  stored-IsList : Holds c ps → IsList stored ps
  stored-IsList h = record {
    head = h.layout.head;
    tail = h.layout.tail;
    links =
        Seg-update c.heap none ps none c.fresh _ (Absent-fresh c.fresh ps h.older) h.layout.links;
    distinct = h.layout.distinct;
  }

  -- The slots of the list are the old ones, and the new entry has the slot that `Set` gave it.
  pub slot_new :
      slot (inserted c now key results total).heap c.fresh
      ≡ record { key = key; results = results; total = total; exp = now + c.ttl }
  slot_new = (push_front-Same stored c.fresh).slots c.fresh ∙ ground arith

  pub slot_old :
      (q : ℕ) → q ≢ c.fresh → slot (inserted c now key results total).heap q ≡ slot c.heap q
  slot_old q ne = (push_front-Same stored c.fresh).slots q ∙ ground arith

  pub inserted-max_size : (inserted c now key results total).max_size ≡ c.max_size
  inserted-max_size = (push_front-Same stored c.fresh).max_size

  pub inserted-ttl : (inserted c now key results total).ttl ≡ c.ttl
  inserted-ttl = (push_front-Same stored c.fresh).ttl

  key_old : (q : ℕ) → q ≢ c.fresh → ((inserted c now key results total).heap q).key ≡ (c.heap q).key
  key_old q ne = ap (λ (s : Slot). s.key) (slot_old q ne)

  key_new : ((inserted c now key results total).heap c.fresh).key ≡ key
  key_new = ap (λ (s : Slot). s.key) slot_new

  new_key :
      (q : ℕ)
      → lookup key c.items ≡ none
      → lookup (c.heap q).key c.items ≡ some q
      → text_eq key (c.heap q).key ≡ false
  new_key q miss found = ground (arith, text_eq_iff key (c.heap q).key)

  old_ne : (v : ℕ) (qs : List ℕ) → All (λ q. q < c.fresh) qs → In v qs → v ≢ c.fresh
  old_ne v qs older i e = absurd (omega (arith, In-lt c.fresh v qs older i, e))

  -- A new key goes to the front of the list.
  pub inserted-Holds :
      Holds c ps
      → lookup key c.items ≡ none
      → Holds (inserted c now key results total) (c.fresh ∷ ps)
  inserted-Holds h miss =
      let same = push_front-Same stored c.fresh in
      let apart = Absent-fresh c.fresh ps h.older in
      let l = push_front-IsList stored c.fresh ps apart (stored-IsList h) in
      let d = inserted c now key results total in
      record {
        layout = record { head = l.head; tail = l.tail; links = l.links; distinct = l.distinct };
        size = omega (arith, same.size, h.size);
        older = (
          rw same.fresh (omega arith),
          All-map (λ q. q < c.fresh) (λ q. q < d.fresh) ps
              (λ q lt. rw same.fresh (omega (arith, lt))) h.older,
        );
        indexed = (
          rw (key_new, same.items) (lookup-insert_self key c.fresh c.items),
          All-zip (λ q. q ≢ c.fresh) (λ q. lookup (c.heap q).key c.items ≡ some q)
              (λ q. lookup (d.heap q).key d.items ≡ some q) ps
              (λ q ne found.
                rw (key_old q ne, same.items, lookup-insert, new_key q miss found) found)
              apart h.indexed,
        );
        listed = rw same.items (
            All-insert (λ b. In b.1 ps × ((c.heap b.1).key ≡ b.0))
              (λ b. In b.1 (c.fresh ∷ ps) × ((d.heap b.1).key ≡ b.0)) key c.fresh c.items
              (λ j v e (i, named).
                (inr i, key_old v (λ fresh. old_ne v ps h.older i fresh) ∙ named))
              (inl refl, key_new) h.listed);
        distinct = rw same.items (
            Distinct-insert key c.fresh c.items
              (Absent-values c.heap c.fresh ps c.items h.older h.listed) h.distinct);
      }
