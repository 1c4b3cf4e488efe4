-- ===== src/Cache/Tests.antt =====
-- The theorems on internal/cache/cache.go at concrete calls.
use filesearch.Base.{
  ◌+◌, insert, ◌≡◌, refl, none, some, List, [], ◌∷◌, codes, arith, lookup, if◌then◌else◌, ltb,
}
use filesearch.Base.Int.{pos}
use filesearch.Cache.{
  Cache, Result, new, get, set, flush, shows, invalidate_by_path, unlink, move_to_front,
}
use filesearch.Cache.Layout.{IsList}
use filesearch.Cache.Spec.{Slot, get_slot, set_slot, invalidate_slots}
use filesearch.Cache.Represents.{Represents}
use filesearch.Cache.Refines.{new-Represents, get-Represents}
use filesearch.Cache.Setting.{set-Represents}
use filesearch.Cache.Invalidation.{invalidate_by_path-Represents}
use filesearch.Cache.Runs.{Call, gets, sets, invalidates, run, run_slots, run-new, get-set}

abbrev hits : List Result
hits = (record { path = codes "/a.txt"; snippet = codes "one" }) ∷ []

abbrev others : List Result
others = (record { path = codes "/b.txt"; snippet = codes "two" }) ∷ []

abbrev empty_cache : Cache
empty_cache = new (pos 2) (pos 100)

abbrev one_entry : Cache
one_entry = set empty_cache 5 (codes "q") hits 1

abbrev two_entries : Cache
two_entries = set one_entry 6 (codes "r") others 1

abbrev one_slot : List Slot
one_slot = set_slot 2 100 5 (codes "q") hits 1 []

abbrev two_slots : List Slot
two_slots = set_slot 2 100 6 (codes "r") others 1 one_slot

abbrev calls : List Call
calls =
    sets 5 (codes "q") hits 1
    ∷ (gets 6 (codes "q") ∷ (invalidates (codes "/a.txt") ∷ (gets 7 (codes "q") ∷ [])))

empty_Represents : Represents 2 100 empty_cache []
unfolding new
empty_Represents = new-Represents (pos 2) (pos 100)

one_Represents : Represents 2 100 one_entry one_slot
one_Represents = set-Represents empty_Represents 5 (codes "q") hits 1

two_Represents : Represents 2 100 two_entries two_slots
two_Represents = set-Represents one_Represents 6 (codes "r") others 1

run-new_example :
    run (new (pos 2) (pos 100)) calls
    ≡ run_slots (new (pos 2) (pos 100)).max_size (new (pos 2) (pos 100)).ttl [] calls
run-new_example = run-new (pos 2) (pos 100) calls

-- The third key takes the place of the first.
set-Represents_example :
    Represents 2 100
      (set two_entries 7 (codes "s") hits 1)
      (set_slot 2 100 7 (codes "s") hits 1 two_slots)
set-Represents_example = set-Represents two_Represents 7 (codes "s") hits 1

get-Represents_example :
    Represents 2 100 (get two_entries 8 (codes "q")).0 (get_slot 8 (codes "q") two_slots).0
    × ((get two_entries 8 (codes "q")).1 ≡ (get_slot 8 (codes "q") two_slots).1)
get-Represents_example = get-Represents two_Represents 8 (codes "q")

invalidate_by_path-Represents_example :
    Represents 2 100
      (invalidate_by_path two_entries (codes "/a.txt"))
      (invalidate_slots (codes "/a.txt") two_slots)
invalidate_by_path-Represents_example =
    invalidate_by_path-Represents two_Represents (codes "/a.txt")

get-set_example :
    (get (set two_entries 7 (codes "s") hits 1) 107 (codes "s")).1
    ≡ (if ltb (7 + 100) 107 then none else some (hits, 1))
get-set_example = get-set two_Represents 7 107 (codes "s") hits 1

-- The pointers are those that `allocate` gave out: 1 is in front of 0.
layout : IsList two_entries (1 ∷ (0 ∷ []))
unfolding new set lookup filesearch.Cache.add_entry filesearch.Cache.push_front insert
layout = record {
  head = refl;
  tail = refl;
  links = (refl, refl, (refl, refl, tt));
  distinct = (((λ e. absurd (omega arith)), tt), (tt, tt));
}
