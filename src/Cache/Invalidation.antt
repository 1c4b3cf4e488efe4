-- ===== src/Cache/Invalidation.antt =====
-- `InvalidateByPath` of internal/cache/cache.go implements `invalidate_slots`: the loop
-- visits the entries in the order of the association list.
use filesearch.Base.{
  ℕ, ◌≤◌, ◌≡◌, refl, sym, ap, ◌∙◌, subst, ◌≢◌, inl, inr, Bool, true, false, not, some, List, [],
  ◌∷◌, ◌++◌, Text, text_eq, length, length-append, keep, lookup, values, All, All-map, All-zip,
  arith, Bool-cases,
}
use filesearch.Cache.{Heap, Cache, remove_entry, shows, invalidate_loop, invalidate_by_path}
use filesearch.Cache.Links.{Absent, Distinct, In, In-split}
use filesearch.Cache.Spec.{Slot, invalidate_slots}
use filesearch.Cache.Holds.{slot, Holds}
use filesearch.Cache.Views.{view, keep-view, keep_all}
use filesearch.Cache.Edits.{In-middle, Absent-middle, All-middle, remove_entry-Holds}
use filesearch.Cache.Represents.{
  Represents, view-remove_entry, slot-remove_entry, remove_entry-max_size, remove_entry-ttl,
}

abbrev pub clean : Text → Slot → Bool
clean path s = not (shows path s.results)

-- What the loop leaves, from a state and the entries that it still visits.
record Swept (path : Text) (c d : Cache) (ps : List ℕ) : Type 0 where
  pointers : List ℕ
  holds : Holds d pointers
  shown : view d.heap pointers ≡ keep (clean path) (view c.heap ps)
  fits : length pointers ≤ length ps
  max_size : d.max_size ≡ c.max_size
  ttl : d.ttl ≡ c.ttl

-- Every pointer whose entry shows the path is still to be visited.
abbrev Pending : Text → Heap → List ℕ → List ℕ → Type 0
Pending path h es = All (λ q. shows path (h q).results ≡ true → In q es)

All-clean :
    (path : Text) (h : Heap) (ps : List ℕ)
    → Pending path h [] ps
    → All (λ q. clean path (slot h q) ≡ true) ps
All-clean path h ps =
    All-map (λ q. shows path (h q).results ≡ true → ⊥) (λ q. clean path (slot h q) ≡ true) ps
      (λ q never. ground arith)

-- The loop passes by a clean entry.
skip_Pending :
    (path : Text) (h : Heap) (e : ℕ) (es ps : List ℕ)
    → shows path (h e).results ≡ false
    → Pending path h (e ∷ es) ps
    → Pending path h es ps
skip_Pending path h e es ps good =
    All-map (λ q. shows path (h q).results ≡ true → In q (e ∷ es))
      (λ q. shows path (h q).results ≡ true → In q es) ps
      (λ q at bad. elim (at bad) [ inl same ↦ absurd (clash q bad same) | inr i ↦ i ])
  where
    clash : (q : ℕ) → shows path (h q).results ≡ true → e ≡ q → ⊥
    clash q bad same = cc (good, bad, ap (λ p. shows path (h p).results) same)

module _ (path : Text) (e : ℕ) (es : List ℕ) (c : Cache) (xs ys : List ℕ)
    (h : Holds c (xs ++ e ∷ ys)) where
  drop_In : Absent e es → All (λ q. In q (xs ++ e ∷ ys)) es → All (λ q. In q (xs ++ ys)) es
  drop_In =
      All-zip (λ q. q ≢ e) (λ q. In q (xs ++ e ∷ ys)) (λ q. In q (xs ++ ys)) es
        (λ q ne i. In-middle q xs e ys i (λ same. ne (sym same)))

  drop_Pending :
      Pending path c.heap (e ∷ es) (xs ++ e ∷ ys)
      → Pending path (remove_entry c e).heap es (xs ++ ys)
  drop_Pending pending =
      All-zip (λ q. q ≢ e) (λ q. shows path (c.heap q).results ≡ true → In q (e ∷ es))
        (λ q. shows path ((remove_entry c e).heap q).results ≡ true → In q es) (xs ++ ys)
        (λ q ne at bad.
          later q ne
            (at (subst (λ (s : Slot). shows path s.results ≡ true) (slot-remove_entry c e q) bad)))
        (Absent-middle xs e ys h.layout.distinct)
        (All-middle (λ q. shows path (c.heap q).results ≡ true → In q (e ∷ es)) xs e ys pending)
    where
      later : (q : ℕ) → q ≢ e → In q (e ∷ es) → In q es
      later q ne (inl same) = absurd (ne (sym same))
      later q ne (inr i) = i

  drop_Swept :
      {d : Cache}
      → shows path (c.heap e).results ≡ true
      → Swept path (remove_entry c e) d (xs ++ ys)
      → Swept path c d (xs ++ e ∷ ys)
  drop_Swept bad t = record {
    pointers = t.pointers;
    holds = t.holds;
    shown =
        t.shown
        ∙ ap (keep (clean path)) (view-remove_entry c e (xs ++ ys))
        ∙ sym (keep-view c.heap e ys (clean path) xs (rw bad));
    fits = omega (arith, t.fits, length-append xs ys, length-append xs (e ∷ ys));
    max_size = t.max_size ∙ remove_entry-max_size c e;
    ttl = t.ttl ∙ remove_entry-ttl c e;
  }

sweep :
    (path : Text) (es : List ℕ) (c : Cache) (ps : List ℕ)
    → Holds c ps
    → Distinct es
    → All (λ e. In e ps) es
    → Pending path c.heap es ps
    → Swept path c (invalidate_loop path es c) ps
unfolding invalidate_loop
sweep path [] c ps h d a pending = record {
  pointers = ps;
  holds = h;
  shown = sym (keep_all c.heap (clean path) ps (All-clean path c.heap ps pending));
  fits = omega arith;
  max_size = refl;
  ttl = refl;
}
sweep path (e ∷ es) c ps h (apart, d) (here, a) pending =
    elim (Bool-cases (shows path (c.heap e).results)) [
      | inl bad ↦
          let (xs, ys, split) = In-split e ps here in
          let h' = subst (Holds c) split h in
          let rest =
            sweep path es (remove_entry c e) (xs ++ ys) (remove_entry-Holds c xs e ys h') d
              (drop_In path e es c xs ys h' apart (subst (λ qs. All (λ q. In q qs) es) split a))
              (drop_Pending path e es c xs ys h'
                (subst (Pending path c.heap (e ∷ es)) split pending)) in
          rw bad (
            subst (Swept path c (invalidate_loop path es (remove_entry c e))) (sym split)
              (drop_Swept path e es c xs ys h' bad rest))
      | inr good ↦
          rw good (sweep path es c ps h d a (skip_Pending path c.heap e es ps good pending))
    ]

-- The map's entries are in the list.
values-In :
    (h : Heap) (ps : List ℕ) (m : List (Text × ℕ))
    → All (λ b. In b.1 ps × ((h b.1).key ≡ b.0)) m
    → All (λ e. In e ps) (values m)
values-In h ps [] a = tt
values-In h ps ((k, v) ∷ m) ((i, named), a) = (i, values-In h ps m a)

In-values : (k : Text) (q : ℕ) (m : List (Text × ℕ)) → lookup k m ≡ some q → In q (values m)
unfolding lookup
In-values k q [] e = cc
In-values k q ((j, v) ∷ m) e = elim (Bool-cases (text_eq j k)) [
  | inl same ↦ inl (ground arith)
  | inr other ↦ inr (In-values k q m (ground arith))
]

-- On a cache that stands for a list of slots, `InvalidateByPath` drops the slots that show the
-- path and keeps the others in their order.
pub invalidate_by_path-Represents :
    {max_size ttl : ℕ} {c : Cache} {l : List Slot} (r : Represents max_size ttl c l) (path : Text)
    → Represents max_size ttl (invalidate_by_path c path) (invalidate_slots path l)
unfolding invalidate_by_path invalidate_slots
invalidate_by_path-Represents {max_size} {ttl} {c} {l} r path =
    let s =
      sweep path (values c.items) c r.pointers r.holds r.holds.distinct
        (values-In c.heap r.pointers c.items r.holds.listed)
        (All-map (λ q. lookup (c.heap q).key c.items ≡ some q)
          (λ q. shows path (c.heap q).results ≡ true → In q (values c.items)) r.pointers
          (λ q at bad. In-values (c.heap q).key q c.items at) r.holds.indexed) in
    record {
      pointers = s.pointers;
      holds = s.holds;
      shown = s.shown ∙ ap (keep (clean path)) r.shown;
      fits = omega (arith, s.fits, r.fits);
      room = r.room;
      max_size_is = s.max_size ∙ r.max_size_is;
      ttl_is = s.ttl ∙ r.ttl_is;
    }
