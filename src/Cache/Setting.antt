-- ===== src/Cache/Setting.antt =====
-- `Set` of internal/cache/cache.go implements `set_slot`: a found entry is overwritten, a new one is
-- inserted, and past the capacity the last slot goes.
use filesearch.Base.{
  ℕ, suc, ◌≤◌, ◌≡◌, refl, sym, ap, ◌∙◌, subst, inl, inr, true, false, none, some, List, [], ◌∷◌,
  ◌++◌, Text, length, length-append, take, take_of_length-le, lookup, ltb, ltb→lt, ltb-false→le,
  arith, Bool-cases, Option-cases,
}
use mathlib.Core.List.{map-append, append-nil}
use filesearch.Cache.{
  Cache, Result, set, fill, move_to_front, remove_entry, add_entry, allocate, evict,
}
use filesearch.Cache.Links.{last, snoc_cases, last-append}
use filesearch.Cache.Spec.{Slot, without, set_slot}
use filesearch.Cache.Holds.{slot, Holds}
use filesearch.Cache.Moves.{fill-Holds}
use filesearch.Cache.Views.{view, length-view}
use filesearch.Cache.Edits.{remove_entry-Holds}
use filesearch.Cache.Insertion.{
  inserted, inserted-Holds, slot_new, Absent-fresh, inserted-max_size, inserted-ttl,
}
use filesearch.Cache.Filled.{
  new_slot, take_snoc, evict_last, slot-fill, without-fill, view-inserted,
}
use filesearch.Cache.Represents.{
  Represents, found, without_missed, front-Represents, view-remove_entry, remove_entry-max_size,
  remove_entry-ttl,
}

-- No more slots than the capacity.
pub length-Represents :
    {max_size ttl : ℕ} {c : Cache} {l : List Slot}
    → Represents max_size ttl c l
    → length l ≤ max_size
length-Represents {max_size} {ttl} {c} {l} r =
    omega (arith, r.fits, length-view c.heap r.pointers, ap length r.shown)

module _ {max_size ttl : ℕ} {c : Cache} {l : List Slot} (r : Represents max_size ttl c l) (now : ℕ)
    (key : Text) (results : List Result) (total : ℕ) where
  abbrev done : List Slot
  done = new_slot now ttl key results total ∷ without key l

  set_found :
      (p : ℕ)
      → lookup key c.items ≡ some p
      → Represents max_size ttl
          (move_to_front (fill c now p results total) p)
          (set_slot max_size ttl now key results total l)
  unfolding set_slot
  set_found p e =
      let (xs, ys, split, named) = found r key p e in
      let d = fill c now p results total in
      let filled : Represents max_size ttl d (view d.heap r.pointers) = record {
        pointers = r.pointers;
        holds = fill-Holds c now p results total r.pointers r.holds;
        shown = refl;
        fits = r.fits;
        room = r.room;
        max_size_is = r.max_size_is;
        ttl_is = r.ttl_is;
      } in
      let front = front-Represents filled key p e in
      let same : (slot d.heap p ∷ without key (view d.heap r.pointers)) ≡ done =
        ap (λ (s : Slot). s ∷ without key (view d.heap r.pointers))
          (slot-fill c now key results total p named
            ∙ ap (λ t. new_slot now t key results total) r.ttl_is)
        ∙ ap (◌∷◌ (new_slot now ttl key results total))
            (without-fill c now key results total p r.pointers named ∙ ap (without key) r.shown) in
      let moved : Represents max_size ttl (move_to_front d p) done =
        subst (Represents max_size ttl (move_to_front d p)) same front in
      subst (Represents max_size ttl (move_to_front d p))
        (sym (take_of_length-le max_size done (length-Represents moved))) moved

  abbrev added : Cache
  added = inserted c now key results total

  module _ (miss : lookup key c.items ≡ none) where
    added-Holds : Holds added (c.fresh ∷ r.pointers)
    added-Holds = inserted-Holds c now key results total r.pointers r.holds miss

    added_shown : view added.heap (c.fresh ∷ r.pointers) ≡ done
    added_shown = cc (
      slot_new c now key results total [],
      r.ttl_is,
      view-inserted c now key results total r.pointers
          (Absent-fresh c.fresh r.pointers r.holds.older),
      r.shown,
      without_missed r key miss,
    )

    added_max_size : added.max_size ≡ max_size
    added_max_size = inserted-max_size c now key results total r.pointers ∙ r.max_size_is

    added_ttl : added.ttl ≡ ttl
    added_ttl = inserted-ttl c now key results total r.pointers ∙ r.ttl_is

    room_for : ltb added.max_size added.size ≡ false → suc (length r.pointers) ≤ max_size
    room_for e =
        omega (arith, ltb-false→le added.max_size added.size e, added_max_size, added-Holds.size)

    full_for : ltb added.max_size added.size ≡ true → length r.pointers ≡ max_size
    full_for e =
        omega (arith, ltb→lt added.max_size added.size e, added_max_size, added-Holds.size, r.fits)

    done-length : length done ≡ suc (length r.pointers)
    done-length = ap length (sym added_shown) ∙ length-view added.heap (c.fresh ∷ r.pointers)

    added_fits :
        ltb added.max_size added.size ≡ false
        → Represents max_size ttl added (set_slot max_size ttl now key results total l)
    unfolding set_slot
    added_fits e =
        let fits = room_for e in
        let measured = done-length in
        let fits : length done ≤ max_size = omega (arith, fits, measured) in
        subst (Represents max_size ttl added) (sym (take_of_length-le max_size done fits)) (record {
          pointers = c.fresh ∷ r.pointers;
          holds = added-Holds;
          shown = added_shown;
          fits = room_for e;
          room = r.room;
          max_size_is = added_max_size;
          ttl_is = added_ttl;
        })

    module _ (zs : List ℕ) (q : ℕ)
        (split : ◌≡◌ {A = List ℕ} (c.fresh ∷ r.pointers) (zs ++ q ∷ [])) where
      last_added : added.tail ≡ some q
      last_added = added-Holds.layout.tail ∙ ap (last none) split ∙ last-append none zs (q ∷ [])

      kept : length r.pointers ≡ max_size → take max_size done ≡ view added.heap zs
      kept full =
          let whole : done ≡ view added.heap zs ++ slot added.heap q ∷ [] =
            sym added_shown
            ∙ ap (view added.heap) split
            ∙ map-append (slot added.heap) zs (q ∷ []) in
          let measured : length (view added.heap zs) ≡ max_size =
            omega (
              arith,
              full,
              ap length split,
              length-append zs (q ∷ []),
              length-view added.heap zs,
            ) in
          ap (take max_size) whole
          ∙ take_snoc max_size (view added.heap zs) (slot added.heap q) measured

      evicted :
          ltb added.max_size added.size ≡ true
          → Represents max_size ttl (evict added) (set_slot max_size ttl now key results total l)
      unfolding set_slot
      evicted over =
          let full = full_for over in
          let held =
            subst (Holds (remove_entry added q)) (append-nil zs)
              (remove_entry-Holds added zs q [] (subst (Holds added) split added-Holds)) in
          subst (λ d. Represents max_size ttl d (take max_size done))
            (sym (evict_last added q last_added))
            (record {
              pointers = zs;
              holds = held;
              shown = view-remove_entry added q zs ∙ sym (kept full);
              fits = omega (arith, full, ap length split, length-append zs (q ∷ []));
              room = r.room;
              max_size_is = remove_entry-max_size added q ∙ added_max_size;
              ttl_is = remove_entry-ttl added q ∙ added_ttl;
            })

    -- The list of the new cache has a last pointer.
    evicted_last :
        ltb added.max_size added.size ≡ true
        → Represents max_size ttl (evict added) (set_slot max_size ttl now key results total l)
    evicted_last over = elim (snoc_cases (c.fresh ∷ r.pointers)) [
      | inl e ↦ cc
      | inr (zs, q, split) ↦ evicted zs q split over
    ]

  set_missed :
      lookup key c.items ≡ none
      → Represents max_size ttl
          (add_entry (allocate c now key results total) c.fresh key)
          (set_slot max_size ttl now key results total l)
  unfolding add_entry
  set_missed miss = elim (Bool-cases (ltb added.max_size added.size)) [
    | inl over ↦
        subst (λ d. Represents max_size ttl d (set_slot max_size ttl now key results total l))
          (sym (rw over)) (evicted_last miss over)
    | inr fits ↦
        subst (λ d. Represents max_size ttl d (set_slot max_size ttl now key results total l))
          (sym (rw fits)) (added_fits miss fits)
  ]

  -- On a cache that stands for a list of slots, `Set` leaves the slots that `set_slot` leaves:
  -- the new one in front, the last one dropped past the capacity.
  pub set-Represents :
      Represents max_size ttl
        (set c now key results total)
        (set_slot max_size ttl now key results total l)
  unfolding set
  set-Represents = elim (Option-cases (lookup key c.items)) [
    | inl e ↦ rw (e, set) (set_missed e)
    | inr (p, e) ↦ rw (e, set) (set_found p e)
  ]
