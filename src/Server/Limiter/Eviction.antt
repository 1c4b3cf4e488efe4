-- ===== src/Server/Limiter/Eviction.antt =====
-- The eviction of idle buckets in internal/server/middleware.go is not seen by any client.
use filesearch.Base.{
  ℕ, ◌≤◌, ◌≡◌, ◌≢◌, ◌⊎◌, inl, inr, refl, ap, sym, ◌∙◌, Bool, true, none, some, List, [], ◌∷◌, Text,
  text_eq, text_eq_iff, All, All-insert, arith, lookup, lookup-insert, lookup-insert_self, Unique,
  Unique-insert, subst, Bool-cases,
}
use filesearch.Server.Limiter.{
  Bucket, RateLimiterStore, allow, get, admit, evict_idle, tick, is_idle, fresh_bucket,
}
use filesearch.Server.Limiter.Bounds.{IsFull, allow-bounded}

-- No bucket holds more than the burst.
abbrev pub IsBounded : RateLimiterStore → Type 0
IsBounded s = All (λ e. IsFull e.1) s.buckets

-- Requests keep every bucket within the burst.
pub admit-IsBounded :
    (s : RateLimiterStore) (created now : ℕ) (ip : Text)
    → IsBounded s
    → IsBounded (admit s created now ip).0
unfolding admit
admit-IsBounded s created now ip h =
    All-insert (λ e. IsFull e.1) (λ e. IsFull e.1) ip (allow now (get s created ip)).0 s.buckets
      (λ j w e full. full) (allow-bounded now (get s created ip)).0 h

-- A request of one client leaves the buckets of the others alone.
pub admit_other :
    (s : RateLimiterStore) (created now : ℕ) (ip other : Text)
    → ip ≢ other
    → lookup other (admit s created now ip).0.buckets ≡ lookup other s.buckets
unfolding admit
admit_other s created now ip other ne =
    ground (
      arith,
      lookup-insert ip other (allow now (get s created ip)).0 s.buckets,
      text_eq_iff ip other,
    )

-- A bucket that has been idle is full when it is used next, as a new one is.
idle_allow :
    (now created later : ℕ) (b : Bucket)
    → is_idle now b ≡ true
    → now ≤ created
    → created ≤ later
    → allow later b ≡ allow later (fresh_bucket created)
unfolding allow
idle_allow now created later b idle h k = ground arith

-- With a map of one binding for a key, eviction keeps the bucket or finds it idle.
lookup-evict_idle :
    (now : ℕ) (ip : Text) (m : List (Text × Bucket))
    → Unique m
    → (lookup ip (evict_idle now m) ≡ lookup ip m)
      ⊎ ((b : Bucket) × (lookup ip m ≡ some b)
          × (is_idle now b ≡ true)
          × (lookup ip (evict_idle now m) ≡ none))
unfolding lookup evict_idle
lookup-evict_idle now ip [] u = inl refl
lookup-evict_idle now ip ((j, b) ∷ m) (e, u) = elim (Bool-cases (text_eq j ip)) [
  | inl same ↦ elim (Bool-cases (is_idle now b)) [
    | inl idle ↦ inr (b, ground arith, idle, evicted same (lookup-evict_idle now ip m u) idle)
    | inr used ↦ inl (ground arith)
  ]
  | inr other ↦ elim (lookup-evict_idle now ip m u) [
    | inl kept ↦ inl (ground arith)
    | inr (c, had, idle, gone) ↦ inr (c, ground arith, idle, ground arith)
  ]
]
  where
    absent : text_eq j ip ≡ true → lookup ip m ≡ none
    absent same = subst (λ k. lookup k m ≡ none) ((text_eq_iff j ip).0 same) e

    evicted :
        text_eq j ip ≡ true
        → (lookup ip (evict_idle now m) ≡ lookup ip m)
          ⊎ ((c : Bucket) × (lookup ip m ≡ some c)
              × (is_idle now c ≡ true)
              × (lookup ip (evict_idle now m) ≡ none))
        → is_idle now b ≡ true
        → lookup ip (evict_idle now ((j, b) ∷ m)) ≡ none
    evicted same (inl kept) idle = ground (arith, absent same)
    evicted same (inr (c, had, old, gone)) idle = ground (arith, absent same)

same_allow :
    (s : RateLimiterStore) (now created later : ℕ) (ip : Text)
    → Unique s.buckets
    → now ≤ created
    → created ≤ later
    → allow later (get (tick now s) created ip) ≡ allow later (get s created ip)
unfolding tick get
same_allow s now created later ip u h k = elim (Bool-cases s.is_done) [
  | inl stopped ↦ ground arith
  | inr running ↦ elim (lookup-evict_idle now ip s.buckets u) [
    | inl kept ↦ ground arith
    | inr (b, had, idle, gone) ↦ ground (arith, idle_allow now created later b idle h k)
  ]
]

-- With one bucket for a client, whether or not idle buckets were dropped before, a later request
-- of any client has the same outcome and leaves the same bucket.
pub admit-tick :
    (s : RateLimiterStore) (now created later : ℕ) (ip : Text)
    → Unique s.buckets
    → now ≤ created
    → created ≤ later
    → ((admit (tick now s) created later ip).1 ≡ (admit s created later ip).1)
      × (lookup ip (admit (tick now s) created later ip).0.buckets
          ≡ lookup ip (admit s created later ip).0.buckets)
unfolding admit
admit-tick s now created later ip u h k =
    let same = same_allow s now created later ip u h k in
    let stored = lookup-insert_self {V = Bucket} ip in
    (
      ap (λ (r : Bucket × Bool). r.1) same,
      stored (allow later (get (tick now s) created ip)).0 (tick now s).buckets
          ∙ ap (λ (r : Bucket × Bool). some r.0) same
          ∙ sym (stored (allow later (get s created ip)).0 s.buckets),
    )

-- Requests and eviction keep one bucket for a client.
pub admit-Unique :
    (s : RateLimiterStore) (created now : ℕ) (ip : Text)
    → Unique s.buckets
    → Unique (admit s created now ip).0.buckets
unfolding admit
admit-Unique s created now ip u = Unique-insert ip (allow now (get s created ip)).0 s.buckets u
