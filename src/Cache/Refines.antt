-- ===== src/Cache/Refines.antt =====
-- The methods of internal/cache/cache.go implement `Cache.Spec`: what they compute on the heap is
-- what the specification computes on the slots.
use filesearch.Base.{
  ℕ, zero, suc, ◌<◌, ◌≡◌, refl, ap, inl, inr, Option, none, some, List, [], Text, lookup, ltb,
  arith, Bool-cases, Option-cases, if◌then◌else◌,
}
use filesearch.Base.Int.{ℤ, pos, negsuc, is_positive, to_ℕ}
use filesearch.Cache.{Cache, Result, new, get_entry, get, flush, default_max_size}
use filesearch.Cache.Spec.{Slot, got, get_slot}
use filesearch.Cache.Holds.{slot, Holds}
use filesearch.Cache.Moves.{move_to_front-Same}
use filesearch.Cache.Represents.{
  Represents, find_found, find_missed, drop-Represents, front-Represents,
}

capacity_pos : (z : ℤ) → 0 < (if is_positive z then to_ℕ z else default_max_size)
capacity_pos (pos zero) = omega arith
capacity_pos (pos (suc n)) = omega arith
capacity_pos (negsuc n) = omega arith

-- The state with no entry.
empty-Holds : (c : Cache) → c.head ≡ none → c.tail ≡ none → c.items ≡ [] → c.size ≡ 0 → Holds c []
empty-Holds c head tail items size = record {
  layout = record { head = head; tail = tail; links = tt; distinct = tt };
  size = size;
  older = tt;
  indexed = tt;
  listed = rw items tt;
  distinct = rw items tt;
}

-- `New` builds an empty cache with a positive capacity, whatever its arguments.
pub new-Represents :
    (max_size ttl : ℤ)
    → Represents (new max_size ttl).max_size (new max_size ttl).ttl (new max_size ttl) []
unfolding new
new-Represents max_size ttl = record {
  pointers = [];
  holds = empty-Holds (new max_size ttl) refl refl refl refl;
  shown = refl;
  fits = omega arith;
  room = capacity_pos max_size;
  max_size_is = refl;
  ttl_is = refl;
}

module _ {max_size ttl : ℕ} {c : Cache} {l : List Slot} (r : Represents max_size ttl c l) where
  -- `Flush` leaves no slot.
  pub flush-Represents : Represents max_size ttl (flush c) []
  unfolding flush
  flush-Represents = record {
    pointers = [];
    holds = empty-Holds (flush c) refl refl refl refl;
    shown = refl;
    fits = omega arith;
    room = r.room;
    max_size_is = r.max_size_is;
    ttl_is = r.ttl_is;
  }

  -- On a cache that stands for a list of slots, `Get` answers as the specification does and
  -- leaves the slots that it leaves.
  pub get-Represents :
      (now : ℕ) (key : Text)
      → Represents max_size ttl (get c now key).0 (get_slot now key l).0
        × ((get c now key).1 ≡ (get_slot now key l).1)
  unfolding get get_slot
  get-Represents now key = elim (Option-cases (lookup key c.items)) [
    | inl e ↦ rw (e, get, find_missed r key e, get_slot) (r, refl)
    | inr (p, e) ↦ rw (e, get, find_found r key p e, get_slot) (hit p e)
  ]
    where
      hit :
          (p : ℕ)
          → lookup key c.items ≡ some p
          → Represents max_size ttl (get_entry c now p).0 (got now key l (some (slot c.heap p))).0
            × ((get_entry c now p).1 ≡ (got now key l (some (slot c.heap p))).1)
      hit p e = elim (Bool-cases (ltb (c.heap p).exp now)) [
        | inl old ↦ rw old (drop-Represents r key p e, refl)
        | inr live ↦
            let same = (move_to_front-Same c p).slots p in
            rw live (
              front-Represents r key p e,
              ap {B = Option (List Result × ℕ)} (λ (s : Slot). some (s.results, s.total)) same,
            )
      ]
