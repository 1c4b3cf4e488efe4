-- ===== src/Cache.antt =====
-- internal/cache/cache.go: the LRU cache with expiry. The entries live on a heap and point at one
-- another, as in the source; a pointer is a number, `nil` is `none`, and `fresh` is the next one
-- that `&entry{}` returns. Times and durations are counts of nanoseconds. `now` is what
-- `time.Now()` returns in the call. The mutex makes each method one step.
pub mod Links
pub mod Layout
pub mod Spec
pub mod Holds
pub mod Edits
pub mod Moves
pub mod Insertion
pub mod Views
pub mod Represents
pub mod Filled
pub mod Setting
pub mod Invalidation
pub mod Refines
pub mod Runs
mod Tests
use filesearch.Base.{
  ℕ, suc, ◌+◌, ◌-◌, ◌*◌, ◌^◌, Bool, true, false, Option, none, some, List, [], ◌∷◌, Text, text_eq,
  ltb, ◌==◌, any, if◌then◌else◌, lookup, insert, remove, values,
}
use filesearch.Base.Int.{ℤ, pos, negsuc, is_positive, to_ℕ}

abbrev pub default_ttl : ℕ
default_ttl = 30 * 10 ^ 9

abbrev pub default_max_size : ℕ
default_max_size = 128

pub record Result : Type 0 where
  pub path : Text
  pub snippet : Text

pub record Entry : Type 0 where
  pub results : List Result
  pub total : ℕ
  pub exp : ℕ
  pub prev : Option ℕ
  pub next : Option ℕ
  pub key : Text

abbrev pub Heap : Type 0
Heap = ℕ → Entry

-- A write through a pointer.
abbrev pub update : Heap → ℕ → Entry → Heap
update h p e q = if p == q then e else h q

pub record Cache : Type 0 where
  pub heap : Heap
  pub fresh : ℕ
  pub items : List (Text × ℕ)
  pub head : Option ℕ
  pub tail : Option ℕ
  pub size : ℕ
  pub max_size : ℕ
  pub ttl : ℕ

abbrev pub nil_entry : Entry
nil_entry = record { results = []; total = 0; exp = 0; prev = none; next = none; key = [] }

-- New(maxSize, ttl)
unfoldable pub new : ℤ → ℤ → Cache
new max_size ttl = record {
  heap = λ p. nil_entry;
  fresh = 0;
  items = [];
  head = none;
  tail = none;
  size = 0;
  max_size = if is_positive max_size then to_ℕ max_size else default_max_size;
  ttl = if is_positive ttl then to_ℕ ttl else default_ttl;
}

-- `p.next = v` and `p.prev = v`
abbrev pub set_next : Heap → ℕ → Option ℕ → Heap
set_next h p v = update h p (record (h p) { next = v })

abbrev pub set_prev : Heap → ℕ → Option ℕ → Heap
set_prev h p v = update h p (record (h p) { prev = v })

-- The two conditionals of `unlink`, then its two resets.
unfoldable pub unlink_prev : Cache → ℕ → Cache
unlink_prev c e = elim (c.heap e).prev [
  | some q ↦ record c { heap = set_next c.heap q (c.heap e).next }
  | none ↦ record c { head = (c.heap e).next }
]

unfoldable pub unlink_next : Cache → ℕ → Cache
unlink_next c e = elim (c.heap e).next [
  | some q ↦ record c { heap = set_prev c.heap q (c.heap e).prev }
  | none ↦ record c { tail = (c.heap e).prev }
]

unfoldable pub unlink_reset : Cache → ℕ → Cache
unlink_reset c e = record c { heap = set_next (set_prev c.heap e none) e none }

unfoldable pub unlink : Cache → ℕ → Cache
unlink c e = let c1 = unlink_prev c e in let c2 = unlink_next c1 e in unlink_reset c2 e

-- `if c.head != nil { c.head.prev = e }; c.head = e`
abbrev push_head : Cache → ℕ → Cache
push_head c e = elim c.head [
  | some q ↦ record c { heap = set_prev c.heap q (some e); head = some e }
  | none ↦ record c { head = some e }
]

-- `if c.tail == nil { c.tail = e }`
abbrev push_tail : Cache → ℕ → Cache
push_tail c e = elim c.tail [ some _ ↦ c | none ↦ record c { tail = some e } ]

unfoldable pub push_front : Cache → ℕ → Cache
push_front c e =
    let c1 = record c { heap = set_next (set_prev c.heap e none) e c.head } in
    push_tail (push_head c1 e) e

abbrev is_head : Option ℕ → ℕ → Bool
is_head none e = false
is_head (some p) e = p == e

unfoldable pub move_to_front : Cache → ℕ → Cache
move_to_front c e = if is_head c.head e then c else push_front (unlink c e) e

-- remove(e); the subtraction stops at 0 here.
unfoldable pub remove_entry : Cache → ℕ → Cache
remove_entry c e =
    let c1 = unlink c e in record c1 { items = remove (c1.heap e).key c1.items; size = c1.size - 1 }

unfoldable pub evict : Cache → Cache
evict c = elim c.tail [ none ↦ c | some e ↦ remove_entry c e ]

-- `Get` from the expiry test on, for the entry that the map has.
abbrev pub get_entry : Cache → ℕ → ℕ → Cache × Option (List Result × ℕ)
get_entry c now e =
    if ltb (c.heap e).exp now
    then (remove_entry c e, none)
    else (let c1 = move_to_front c e in (c1, some ((c1.heap e).results, (c1.heap e).total)))

-- Get(key): the new state, and the results with the total if found and not expired.
unfoldable pub get : Cache → ℕ → Text → Cache × Option (List Result × ℕ)
get c now key = elim (lookup key c.items) [ none ↦ (c, none) | some e ↦ get_entry c now e ]

abbrev fill : Cache → ℕ → ℕ → List Result → ℕ → Cache
fill c now e results total = record c {
  heap =
      update c.heap e (record (c.heap e) { results = results; total = total; exp = now + c.ttl });
}

abbrev allocate : Cache → ℕ → Text → List Result → ℕ → Cache
allocate c now key results total = record c {
  heap = update c.heap c.fresh (record {
    results = results;
    total = total;
    exp = now + c.ttl;
    prev = none;
    next = none;
    key = key;
  });
  fresh = suc c.fresh;
}

-- The end of `Set` for a new key.
unfoldable pub add_entry : Cache → ℕ → Text → Cache
add_entry c e key =
    let c1 = push_front (record c { items = insert key e c.items }) e in
    let c2 = record c1 { size = c1.size + 1 } in if ltb c2.max_size c2.size then evict c2 else c2

-- Set(key, results, total)
unfoldable pub set : Cache → ℕ → Text → List Result → ℕ → Cache
set c now key results total = elim (lookup key c.items) [
  | some e ↦ move_to_front (fill c now e results total) e
  | none ↦ add_entry (allocate c now key results total) c.fresh key
]

-- Flush()
unfoldable pub flush : Cache → Cache
flush c = record c { items = []; head = none; tail = none; size = 0 }

-- `r.Path == path` for one of the results
abbrev pub shows : Text → List Result → Bool
shows path = any (λ r. text_eq r.path path)

-- The loop of `InvalidateByPath` over the entries of the map, in the order of its iteration.
unfoldable pub invalidate_loop : Text → List ℕ → Cache → Cache
invalidate_loop path [] c = c
invalidate_loop path (e ∷ es) c =
    invalidate_loop path es (if shows path (c.heap e).results then remove_entry c e else c)

-- InvalidateByPath(path)
unfoldable pub invalidate_by_path : Cache → Text → Cache
invalidate_by_path c path = invalidate_loop path (values c.items) c
