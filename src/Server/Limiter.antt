-- ===== src/Server/Limiter.antt =====
-- The rate limiter of internal/server/middleware.go. A time is a count of nanoseconds, and tokens
-- are counted in billionths, so that the refill of `ratePerSecond` tokens a second is
-- `ratePerSecond` units a nanosecond: what the source rounds in float64 is exact here. The clock
-- that `time.Now()` reads is monotonic; a time that went back would refill nothing here.
pub mod Bounds
pub mod Eviction
mod Tests
use filesearch.Base.{
  ℕ, ◌+◌, ◌-◌, ◌*◌, ◌^◌, Bool, true, false, Option, none, some, List, [], ◌∷◌, Text, ltb, lookup,
  insert, if◌then◌else◌,
}

abbrev pub second : ℕ
second = 10 ^ 9

abbrev pub rate_per_second : ℕ
rate_per_second = 30

abbrev pub rate_burst : ℕ
rate_burst = 15

-- One token, in units.
abbrev pub token : ℕ
token = 10 ^ 9

pub record Bucket : Type 0 where
  pub tokens : ℕ
  pub last : ℕ

abbrev pub refill : ℕ → Bucket → ℕ
refill now b =
    let t = b.tokens + (now - b.last) * rate_per_second in
    if ltb (rate_burst * token) t then rate_burst * token else t

-- allow()
unfoldable pub allow : ℕ → Bucket → Bucket × Bool
allow now b =
    let t = refill now b in
    if ltb t token
    then (record { tokens = t; last = now }, false)
    else (record { tokens = t - token; last = now }, true)

pub record RateLimiterStore : Type 0 where
  pub buckets : List (Text × Bucket)
  pub is_done : Bool

-- newRateLimiterStore()
unfoldable pub new_rate_limiter_store : RateLimiterStore
new_rate_limiter_store = record { buckets = []; is_done = false }

abbrev pub fresh_bucket : ℕ → Bucket
fresh_bucket now = record { tokens = rate_burst * token; last = now }

-- get(ip), without the registration of a new bucket: that is part of `admit`, whose write stores
-- the bucket that `allow` leaves.
unfoldable pub get : RateLimiterStore → ℕ → Text → Bucket
get s now ip = elim (lookup ip s.buckets) [ some b ↦ b | none ↦ fresh_bucket now ]

-- `get(ip).allow()`: `get` reads the clock first, and `allow` reads it again.
unfoldable pub admit : RateLimiterStore → ℕ → ℕ → Text → RateLimiterStore × Bool
unfolding get
admit s created now ip =
    let (b, allowed) = allow now (get s created ip) in
    (record s { buckets = insert ip b s.buckets }, allowed)

abbrev pub idle_limit : ℕ
idle_limit = 10 * (60 * second)

abbrev pub is_idle : ℕ → Bucket → Bool
is_idle now b = ltb idle_limit (now - b.last)

-- One tick of the eviction goroutine.
unfoldable pub evict_idle : ℕ → List (Text × Bucket) → List (Text × Bucket)
evict_idle now [] = []
evict_idle now ((ip, b) ∷ m) =
    let rest = evict_idle now m in if is_idle now b then rest else (ip, b) ∷ rest

-- The goroutine evicts on a tick until `done` is closed.
unfoldable pub tick : ℕ → RateLimiterStore → RateLimiterStore
unfolding evict_idle
tick now s = if s.is_done then s else record s { buckets = evict_idle now s.buckets }

-- Stop(): closing a closed channel would panic, so it is left alone.
unfoldable pub stop : RateLimiterStore → RateLimiterStore
stop s = if s.is_done then s else record s { is_done = true }
