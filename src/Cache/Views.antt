-- ===== src/Cache/Views.antt =====
-- The slots of a list of pointers, searched and filtered by key.
use filesearch.Base.{
  ℕ, suc, ◌≡◌, refl, ap, Bool, true, false, none, some, List, [], ◌∷◌, ◌++◌, Text, text_eq,
  text_eq_iff, text_eq_refl, keep, map, All, arith, length,
}
use filesearch.Cache.{Heap}
use filesearch.Cache.Spec.{Slot, without, find}
use filesearch.Cache.Holds.{slot}

abbrev pub view : Heap → List ℕ → List Slot
view h = map (slot h)

pub text_eq_comm : (s t : Text) → text_eq s t ≡ text_eq t s
text_eq_comm s t = ground (arith, text_eq_iff s t, text_eq_iff t s)

-- The pointers whose entries have another key.
abbrev pub Others : Heap → Text → List ℕ → Type 0
Others h k = All (λ q. text_eq k (h q).key ≡ false)

pub find-view-none : (h : Heap) (k : Text) (ps : List ℕ) → Others h k ps → find k (view h ps) ≡ none
find-view-none h k [] a = refl
find-view-none h k (p ∷ ps) (e, a) =
    ground (arith, text_eq_comm (h p).key k, find-view-none h k ps a)

pub without-view_none :
    (h : Heap) (k : Text) (ps : List ℕ) → Others h k ps → without k (view h ps) ≡ view h ps
without-view_none h k [] a = refl
without-view_none h k (p ∷ ps) (e, a) =
    rw (text_eq_comm (h p).key k, e) (ap (◌∷◌ (slot h p)) (without-view_none h k ps a))

module _ (h : Heap) (p : ℕ) (ys : List ℕ) where
  pub find-view :
      (xs : List ℕ)
      → Others h (h p).key (xs ++ ys)
      → find (h p).key (view h (xs ++ p ∷ ys)) ≡ some (slot h p)
  find-view [] a = rw (text_eq_refl (h p).key)
  find-view (x ∷ xs) (e, a) = rw (text_eq_comm (h x).key (h p).key, e) (find-view xs a)

  pub without-view :
      (xs : List ℕ)
      → Others h (h p).key (xs ++ ys)
      → without (h p).key (view h (xs ++ p ∷ ys)) ≡ view h (xs ++ ys)
  without-view [] a = rw (text_eq_refl (h p).key) (without-view_none h (h p).key ys a)
  without-view (x ∷ xs) (e, a) =
      rw (text_eq_comm (h x).key (h p).key, e) (ap (◌∷◌ (slot h x)) (without-view xs a))

  -- A filter that drops the entry does not see it.
  pub keep-view :
      (f : Slot → Bool) (xs : List ℕ)
      → f (slot h p) ≡ false
      → keep f (view h (xs ++ p ∷ ys)) ≡ keep f (view h (xs ++ ys))
  keep-view f [] e = rw e
  keep-view f (x ∷ xs) e = rw (keep-view f xs e)

pub keep_all :
    (h : Heap) (f : Slot → Bool) (ps : List ℕ)
    → All (λ q. f (slot h q) ≡ true) ps
    → keep f (view h ps) ≡ view h ps
keep_all h f [] a = refl
keep_all h f (p ∷ ps) (e, a) = rw e (ap (◌∷◌ (slot h p)) (keep_all h f ps a))

pub length-view : (h : Heap) (ps : List ℕ) → length (view h ps) ≡ length ps
length-view h [] = refl
length-view h (p ∷ ps) = ap (λ n. suc n) (length-view h ps)
