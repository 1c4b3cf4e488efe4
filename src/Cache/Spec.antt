-- ===== src/Cache/Spec.antt =====
-- What internal/cache/cache.go promises, with no pointers: a list of slots, the most recently used
-- first, with one slot for a key.
use filesearch.Base.{
  ℕ, ◌+◌, not, Option, none, some, List, [], ◌∷◌, Text, text_eq, ltb, keep, take, if◌then◌else◌,
}
use filesearch.Cache.{Result, shows}

pub record Slot : Type 0 where
  pub key : Text
  pub results : List Result
  pub total : ℕ
  pub exp : ℕ

-- The slots with another key.
abbrev pub without : Text → List Slot → List Slot
without key = keep (λ s. not (text_eq s.key key))

abbrev pub find : Text → List Slot → Option Slot
find key [] = none
find key (s ∷ l) = if text_eq s.key key then some s else find key l

-- A hit goes to the front, an expired slot is dropped, a miss changes nothing.
abbrev pub got : ℕ → Text → List Slot → Option Slot → List Slot × Option (List Result × ℕ)
got now key l none = (l, none)
got now key l (some s) =
    if ltb s.exp now then (without key l, none) else (s ∷ without key l, some (s.results, s.total))

unfoldable pub get_slot : ℕ → Text → List Slot → List Slot × Option (List Result × ℕ)
get_slot now key l = got now key l (find key l)

-- The new slot goes to the front, in the place of the one with its key, and what does not fit
-- falls off the end.
unfoldable pub set_slot : ℕ → ℕ → ℕ → Text → List Result → ℕ → List Slot → List Slot
set_slot max_size ttl now key results total l =
    take max_size
      (record { key = key; results = results; total = total; exp = now + ttl } ∷ without key l)

-- The slots that show no result at the path.
unfoldable pub invalidate_slots : Text → List Slot → List Slot
invalidate_slots path = keep (λ s. not (shows path s.results))
