-- ===== src/Watcher/Tests.antt =====
-- The theorems on internal/watcher/watcher.go at concrete events and batches.
use filesearch.Base.{
  ℕ, ◌≡◌, refl, subst, Bool, true, false, ◌||◌, some, List, [], ◌∷◌, Text, codes, text_eq,
  clean_path, lookup, if◌then◌else◌,
}
use filesearch.Base.Int.{pos}
use filesearch.Base.Result.{Result, ok}
use filesearch.Cache.{new}
use filesearch.Cache.Represents.{Represents}
use filesearch.Cache.Refines.{new-Represents}
use filesearch.Watcher.{
  Event, Loop, on_event, on_timer, is_supported_ext, flush, deleted_paths, changed_paths,
}
use filesearch.Watcher.Reached.{Reached, start, next, Step, IsListed, Reached-flushed}
use filesearch.Watcher.Reached
use filesearch.Watcher.Flushed.{flush_slots, flush-Represents}

-- A file below a directory of credentials.
abbrev event : Event
event = record {
  name = codes "/h/.ssh/config.txt";
  is_create = false;
  is_remove = false;
  is_rename = false;
  is_dir = false;
}

abbrev idle : Loop
idle = record { pending = []; is_armed = false; watched = [] }

abbrev op : ℕ → Text → Result ℕ
op s path = ok 1

abbrev batch : List (Text × Bool)
batch = (codes "/a.txt", true) ∷ ((codes "/b.txt", false) ∷ [])

empty_Represents : Represents 2 100 (new (pos 2) (pos 100)) []
unfolding new
empty_Represents = new-Represents (pos 2) (pos 100)

flush-Represents_example :
    ((flush op op batch (0, new (pos 2) (pos 100))).0
      ≡ (flush_slots op (changed_paths batch) (flush_slots op (deleted_paths batch) (0, []))).0)
    × Represents 2 100
        (flush op op batch (0, new (pos 2) (pos 100))).1
        (flush_slots op (changed_paths batch) (flush_slots op (deleted_paths batch) (0, []))).1
flush-Represents_example = flush-Represents op op batch 0 empty_Represents

abbrev waiting : Loop
waiting = record {
  pending = (codes "/h/.ssh/config.txt", false) ∷ [];
  is_armed = true;
  watched = [];
}

waiting-event : on_event event idle ≡ waiting
unfolding on_event is_supported_ext filesearch.Base.insert filesearch.Base.remove
waiting-event = refl

waiting-Reached : Reached op op (event ∷ []) (waiting, 0, new (pos 2) (pos 100))
waiting-Reached =
    subst (λ w. Reached op op (event ∷ []) (w, 0, new (pos 2) (pos 100))) waiting-event
      (next (event ∷ []) (start []) (Reached.event event) refl)

Reached-flushed_example :
    Step op op
      (waiting, 0, new (pos 2) (pos 100))
      (on_timer op op waiting (0, new (pos 2) (pos 100)))
    × IsListed (codes "/h/.ssh/config.txt") false waiting.pending
    × ((on_timer op op waiting (0, new (pos 2) (pos 100))).1
        ≡ (flush op op waiting.pending (0, new (pos 2) (pos 100))).0)
    × ((on_timer op op waiting (0, new (pos 2) (pos 100))).2
        ≡ (flush op op waiting.pending (0, new (pos 2) (pos 100))).1)
    × ((on_timer op op waiting (0, new (pos 2) (pos 100))).0.pending ≡ [])
unfolding is_supported_ext
Reached-flushed_example =
    Reached-flushed op op (event ∷ []) waiting 0 (new (pos 2) (pos 100))
      (codes "/h/.ssh/config.txt") false waiting-Reached refl
