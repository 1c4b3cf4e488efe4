-- ===== src/Cache/Represents.antt =====
-- When a state of internal/cache/cache.go stands for a list of slots, and what the internal steps
-- do to those slots.
use filesearch.Base.{
  ℕ, suc, ◌≤◌, ◌<◌, ◌≡◌, sym, ap, ◌∙◌, subst, false, none, some, List, ◌∷◌, ◌++◌, Text, text_eq,
  text_eq_iff, length, length-append, lookup, All-map, All-lookup, arith,
}
use filesearch.Cache.{Cache, move_to_front, remove_entry, unlink}
use filesearch.Cache.Links.{In, In-split}
use filesearch.Cache.Spec.{Slot, without, find}
use filesearch.Cache.Holds.{slot, Holds, unlink-Same}
use filesearch.Cache.Edits.{others, remove_entry-Holds, map-slot, All-every}
use filesearch.Cache.Moves.{move_to_front-Same, move_to_front-Holds}
use filesearch.Cache.Views.{
  view, Others, find-view, find-view-none, without-view, without-view_none,
}

-- The cache stands for the slots, with this capacity and this time to live.
pub record Represents (max_size ttl : ℕ) (c : Cache) (l : List Slot) : Type 0 where
  pub pointers : List ℕ
  pub holds : Holds c pointers
  pub shown : view c.heap pointers ≡ l
  pub fits : length pointers ≤ max_size
  pub room : 0 < max_size
  pub max_size_is : c.max_size ≡ max_size
  pub ttl_is : c.ttl ≡ ttl

module _ (c : Cache) where
  pub slot-remove_entry : (p q : ℕ) → slot (remove_entry c p).heap q ≡ slot c.heap q
  unfolding remove_entry
  slot-remove_entry p = (unlink-Same c p).slots

  -- The heap after `remove` has the old slots.
  pub view-remove_entry : (p : ℕ) (ps : List ℕ) → view (remove_entry c p).heap ps ≡ view c.heap ps
  unfolding remove_entry
  view-remove_entry p ps =
      map-slot (unlink c p).heap c.heap ps
        (All-every (λ q. slot (unlink c p).heap q ≡ slot c.heap q) ps (unlink-Same c p).slots)

  pub remove_entry-max_size : (p : ℕ) → (remove_entry c p).max_size ≡ c.max_size
  unfolding remove_entry
  remove_entry-max_size p = (unlink-Same c p).max_size

  pub remove_entry-ttl : (p : ℕ) → (remove_entry c p).ttl ≡ c.ttl
  unfolding remove_entry
  remove_entry-ttl p = (unlink-Same c p).ttl

module _ {max_size ttl : ℕ} {c : Cache} {l : List Slot} (r : Represents max_size ttl c l) where
  pub found :
      (key : Text) (p : ℕ)
      → lookup key c.items ≡ some p
      → (xs : List ℕ) × (ys : List ℕ) × (r.pointers ≡ xs ++ p ∷ ys) × ((c.heap p).key ≡ key)
  found key p e =
      let (i, named) =
        All-lookup (λ b. In b.1 r.pointers × ((c.heap b.1).key ≡ b.0)) key p c.items r.holds.listed
          e in
      let (xs, ys, split) = In-split p r.pointers i in (xs, ys, split, named)

  pub missed : (key : Text) → lookup key c.items ≡ none → Others c.heap key r.pointers
  missed key e =
      All-map (λ q. lookup (c.heap q).key c.items ≡ some q)
        (λ q. text_eq key (c.heap q).key ≡ false) r.pointers
        (λ q at. ground (arith, text_eq_iff key (c.heap q).key)) r.holds.indexed

  pub find_missed : (key : Text) → lookup key c.items ≡ none → find key l ≡ none
  find_missed key e = rw (← r.shown) (find-view-none c.heap key r.pointers (missed key e))

  pub without_missed : (key : Text) → lookup key c.items ≡ none → without key l ≡ l
  without_missed key e = rw (← r.shown) (without-view_none c.heap key r.pointers (missed key e))

  module _ (p : ℕ) (xs ys : List ℕ) (split : r.pointers ≡ xs ++ p ∷ ys) where
    split-Holds : Holds c (xs ++ p ∷ ys)
    split-Holds = subst (Holds c) split r.holds

    split_shown : view c.heap (xs ++ p ∷ ys) ≡ l
    split_shown = ap (view c.heap) (sym split) ∙ r.shown

    split_fits : suc (length (xs ++ ys)) ≤ max_size
    split_fits =
        omega (arith, r.fits, ap length split, length-append xs ys, length-append xs (p ∷ ys))

    without_split : without (c.heap p).key l ≡ view c.heap (xs ++ ys)
    without_split =
        ap (without (c.heap p).key) (sym split_shown)
        ∙ without-view c.heap p ys xs (others c xs p ys split-Holds)

    find_split : find (c.heap p).key l ≡ some (slot c.heap p)
    find_split =
        ap (find (c.heap p).key) (sym split_shown)
        ∙ find-view c.heap p ys xs (others c xs p ys split-Holds)

    drop_split : Represents max_size ttl (remove_entry c p) (without (c.heap p).key l)
    drop_split = record {
      pointers = xs ++ ys;
      holds = remove_entry-Holds c xs p ys split-Holds;
      shown = view-remove_entry c p (xs ++ ys) ∙ sym without_split;
      fits = omega (arith, split_fits);
      room = r.room;
      max_size_is = remove_entry-max_size c p ∙ r.max_size_is;
      ttl_is = remove_entry-ttl c p ∙ r.ttl_is;
    }

    front_split :
        Represents max_size ttl (move_to_front c p) (slot c.heap p ∷ without (c.heap p).key l)
    front_split =
        let same = move_to_front-Same c p in
        record {
          pointers = p ∷ (xs ++ ys);
          holds = move_to_front-Holds c xs p ys split-Holds;
          shown =
              map-slot (move_to_front c p).heap c.heap (p ∷ (xs ++ ys)) (
                All-every (λ q. slot (move_to_front c p).heap q ≡ slot c.heap q) (p ∷ (xs ++ ys))
                  same.slots)
              ∙ ap (◌∷◌ (slot c.heap p)) (sym without_split);
          fits = split_fits;
          room = r.room;
          max_size_is = same.max_size ∙ r.max_size_is;
          ttl_is = same.ttl ∙ r.ttl_is;
        }

  module _ (key : Text) (p : ℕ) (e : lookup key c.items ≡ some p) where
    pub find_found : find key l ≡ some (slot c.heap p)
    find_found =
        let (xs, ys, split, named) = found key p e in
        subst (λ k. find k l ≡ some (slot c.heap p)) named (find_split p xs ys split)

    pub drop-Represents : Represents max_size ttl (remove_entry c p) (without key l)
    drop-Represents =
        let (xs, ys, split, named) = found key p e in
        subst (λ k. Represents max_size ttl (remove_entry c p) (without k l)) named
          (drop_split p xs ys split)

    pub front-Represents :
        Represents max_size ttl (move_to_front c p) (slot c.heap p ∷ without key l)
    front-Represents =
        let (xs, ys, split, named) = found key p e in
        subst (λ k. Represents max_size ttl (move_to_front c p) (slot c.heap p ∷ without k l)) named
          (front_split p xs ys split)
