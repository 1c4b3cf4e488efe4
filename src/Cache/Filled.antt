-- ===== src/Cache/Filled.antt =====
-- The slots of a cache of internal/cache/cache.go after an entry was overwritten or added.
use filesearch.Base.{
  ℕ, zero, suc, ◌+◌, ◌≡◌, refl, ap, some, List, [], ◌∷◌, ◌++◌, Text, text_eq_iff, text_eq_refl,
  length, take, arith,
}
use filesearch.Cache.{Cache, Result, fill, remove_entry, evict}
use filesearch.Cache.Links.{Absent}
use filesearch.Cache.Spec.{Slot, without}
use filesearch.Cache.Holds.{slot}
use filesearch.Cache.Views.{view}
use filesearch.Cache.Insertion.{inserted, slot_old}

abbrev pub new_slot : ℕ → ℕ → Text → List Result → ℕ → Slot
new_slot now ttl key results total = record {
  key = key;
  results = results;
  total = total;
  exp = now + ttl;
}

pub take_snoc {ℓ} :
    {A : Type ℓ} (n : ℕ) (xs : List A) (y : A) → length xs ≡ n → take n (xs ++ y ∷ []) ≡ xs
take_snoc zero [] y e = refl
take_snoc zero (x ∷ xs) y e = absurd (omega arith)
take_snoc (suc n) [] y e = absurd (omega arith)
take_snoc (suc n) (x ∷ xs) y e = ap (◌∷◌ x) (take_snoc n xs y (omega arith))

pub evict_last : (d : Cache) (q : ℕ) → d.tail ≡ some q → evict d ≡ remove_entry d q
unfolding evict
evict_last d q e = ground arith

module _ (c : Cache) (now : ℕ) (key : Text) (results : List Result) (total : ℕ) where
  pub slot-fill :
      (p : ℕ)
      → (c.heap p).key ≡ key
      → slot (fill c now p results total).heap p ≡ new_slot now c.ttl key results total
  slot-fill p named = ground arith

  pub without-fill :
      (p : ℕ) (ps : List ℕ)
      → (c.heap p).key ≡ key
      → without key (view (fill c now p results total).heap ps) ≡ without key (view c.heap ps)
  without-fill p [] named = refl
  without-fill p (q ∷ ps) named =
      ground (arith, without-fill p ps named, text_eq_refl key, text_eq_iff (c.heap q).key key)

  pub view-inserted :
      (ps : List ℕ)
      → Absent c.fresh ps
      → view (inserted c now key results total).heap ps ≡ view c.heap ps
  view-inserted [] a = refl
  view-inserted (q ∷ ps) (ne, a) = cc (slot_old c now key results total [] q ne, view-inserted ps a)
