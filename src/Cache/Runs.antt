-- ===== src/Cache/Runs.antt =====
-- Sequences of calls of internal/cache/cache.go, and what a caller can rely on.
use filesearch.Base.{
  ℕ, zero, suc, ◌+◌, ◌<◌, ◌≡◌, refl, sym, ap, ◌∙◌, inl, inr, Bool, true, false, not, Option, none,
  some, List, [], ◌∷◌, Text, text_eq_refl, keep, ltb, arith, Option-cases, if◌then◌else◌,
}
use filesearch.Base.Int.{ℤ}
use filesearch.Cache.{Cache, Result, new, get, set, flush, shows, invalidate_by_path}
use filesearch.Cache.Spec.{Slot, find, got, get_slot, set_slot, invalidate_slots}
use filesearch.Cache.Represents.{Represents}
use filesearch.Cache.Refines.{new-Represents, get-Represents, flush-Represents}
use filesearch.Cache.Setting.{set-Represents}
use filesearch.Cache.Invalidation.{invalidate_by_path-Represents}

abbrev pub Answer : Type 0
Answer = Option (List Result × ℕ)

-- A call, with the time at which it is made where it reads the clock.
pub data Call : Type 0 where
  gets : ℕ → Text → Call
  sets : ℕ → Text → List Result → ℕ → Call
  flushes : Call
  invalidates : Text → Call

-- A call on the heap: the next state, and the answer of a `Get`.
pub step : Cache → Call → Cache × Answer
step c (gets now key) = get c now key
step c (sets now key results total) = (set c now key results total, none)
step c flushes = (flush c, none)
step c (invalidates path) = (invalidate_by_path c path, none)

pub step_slots : ℕ → ℕ → List Slot → Call → List Slot × Answer
step_slots max_size ttl l (gets now key) = get_slot now key l
step_slots max_size ttl l (sets now key results total) =
    (set_slot max_size ttl now key results total l, none)
step_slots max_size ttl l flushes = ([], none)
step_slots max_size ttl l (invalidates path) = (invalidate_slots path l, none)

pub run : Cache → List Call → List Answer
unfolding step
run c [] = []
run c (call ∷ calls) = (step c call).1 ∷ run (step c call).0 calls

pub run_slots : ℕ → ℕ → List Slot → List Call → List Answer
unfolding step_slots
run_slots max_size ttl l [] = []
run_slots max_size ttl l (call ∷ calls) =
    (step_slots max_size ttl l call).1
    ∷ run_slots max_size ttl (step_slots max_size ttl l call).0 calls

-- On a state that stands for a list of slots, every method answers as the specification on the
-- list does, and the next state stands for the next list.
pub step-Represents :
    {max_size ttl : ℕ} {c : Cache} {l : List Slot} (r : Represents max_size ttl c l) (call : Call)
    → Represents max_size ttl (step c call).0 (step_slots max_size ttl l call).0
      × ((step c call).1 ≡ (step_slots max_size ttl l call).1)
unfolding step step_slots
step-Represents r (gets now key) = get-Represents r now key
step-Represents r (sets now key results total) = (set-Represents r now key results total, refl)
step-Represents r flushes = (flush-Represents r, refl)
step-Represents r (invalidates path) = (invalidate_by_path-Represents r path, refl)

run-Represents :
    (calls : List Call) {max_size ttl : ℕ} {c : Cache} {l : List Slot}
    → Represents max_size ttl c l
    → run c calls ≡ run_slots max_size ttl l calls
unfolding run run_slots
run-Represents [] r = refl
run-Represents (call ∷ calls) r =
    let (next, answer) = step-Represents r call in cc (answer, run-Represents calls next)

-- Whatever calls follow `New`, the linked and indexed cache answers as the list of slots does.
pub run-new :
    (max_size ttl : ℤ) (calls : List Call)
    → run (new max_size ttl) calls
      ≡ run_slots (new max_size ttl).max_size (new max_size ttl).ttl [] calls
run-new max_size ttl calls = run-Represents calls (new-Represents max_size ttl)

find-set_slot :
    (max_size ttl now : ℕ) (key : Text) (results : List Result) (total : ℕ) (l : List Slot)
    → 0 < max_size
    → find key (set_slot max_size ttl now key results total l)
      ≡ some (record { key = key; results = results; total = total; exp = now + ttl })
unfolding set_slot
find-set_slot zero ttl now key results total l h = absurd (omega arith)
find-set_slot (suc n) ttl now key results total l h = rw (text_eq_refl key)

-- On a cache that stands for a list of slots, a `Get` of a key that was just `Set` returns what
-- was set until the time to live has passed, and nothing after that.
pub get-set :
    {max_size ttl : ℕ} {c : Cache} {l : List Slot} (r : Represents max_size ttl c l) (now later : ℕ)
    (key : Text) (results : List Result) (total : ℕ)
    → (get (set c now key results total) later key).1
      ≡ (if ltb (now + ttl) later then none else some (results, total))
unfolding get_slot
get-set {max_size} {ttl} {c} {l} r now later key results total =
    let (next, answer) = get-Represents (set-Represents r now key results total) later key in
    let at = find-set_slot max_size ttl now key results total l r.room in
    answer
    ∙ ap (λ o. (got later key (set_slot max_size ttl now key results total l) o).1) at
    ∙ ground arith

find-keep :
    (f : Slot → Bool) (key : Text) (l : List Slot) (s : Slot)
    → find key (keep f l) ≡ some s
    → f s ≡ true
find-keep f key [] s e = cc
find-keep f key (x ∷ l) s e = ground (arith, find-keep f key l s)

-- The results of a hit are those of the slot that was found.
got-find :
    (now : ℕ) (key : Text) (l : List Slot) (f : Slot → Bool)
    → ((s : Slot) → find key l ≡ some s → f s ≡ true)
    → (results : List Result) (total : ℕ) → (got now key l (find key l)).1 ≡ some (results, total)
    → (s : Slot) × (f s ≡ true) × (s.results ≡ results)
got-find now key l f ok results total e = elim (Option-cases (find key l)) [
  | inl miss ↦ absurd (ground arith)
  | inr (s, hit) ↦ (s, ok s hit, hit_results s hit)
]
  where
    hit_results : (s : Slot) → find key l ≡ some s → s.results ≡ results
    hit_results s hit = ground arith

-- On a cache that stands for a list of slots, a `Get` right after `InvalidateByPath` returns no
-- results that show the path.
pub get-invalidate_by_path :
    {max_size ttl : ℕ} {c : Cache} {l : List Slot} (r : Represents max_size ttl c l) (path : Text)
    (now : ℕ) (key : Text) (results : List Result) (total : ℕ)
    → (get (invalidate_by_path c path) now key).1 ≡ some (results, total)
    → shows path results ≡ false
unfolding get_slot invalidate_slots
get-invalidate_by_path {l = l} r path now key results total e =
    let (next, answer) = get-Represents (invalidate_by_path-Represents r path) now key in
    let (s, clean, same) =
      got-find now key (invalidate_slots path l) (λ s. not (shows path s.results))
        (find-keep (λ s. not (shows path s.results)) key l) results total (sym answer ∙ e) in
    ground (arith, clean, same)
