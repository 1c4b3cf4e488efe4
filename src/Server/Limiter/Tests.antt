-- ===== src/Server/Limiter/Tests.antt =====
-- The theorems on the rate limiter of internal/server/middleware.go at concrete requests.
use filesearch.Base.{ℕ, ◌+◌, ◌-◌, ◌*◌, ◌≤◌, ◌≡◌, refl, false, List, [], ◌∷◌, codes, arith, lookup}
use filesearch.Server.Limiter.{
  Bucket, RateLimiterStore, fresh_bucket, admit, tick, second, token, rate_burst, rate_per_second,
}
use filesearch.Server.Limiter.Bounds.{run, run-le-rate}
use filesearch.Server.Limiter.Eviction.{admit-tick}

abbrev requests : List ℕ
requests = 1 ∷ (2 ∷ (second ∷ []))

run-le-rate_example :
    (run (fresh_bucket 1) requests).0 * token
    ≤ rate_burst * token + ((run (fresh_bucket 1) requests).1.last - 1) * rate_per_second
run-le-rate_example = run-le-rate 1 requests (omega arith, (omega arith, (omega arith, tt)))

abbrev empty_bucket : Bucket
empty_bucket = record { tokens = 0; last = 5 }

abbrev one_client : RateLimiterStore
one_client = record {
  buckets = (codes "1.1.1.1", record { tokens = 0; last = 5 }) ∷ [];
  is_done = false;
}

-- Eleven minutes later the client's bucket goes, and the client does not notice.
admit-tick_example :
    ((admit (tick (660 * second) one_client) (660 * second) (661 * second) (codes "1.1.1.1")).1
      ≡ (admit one_client (660 * second) (661 * second) (codes "1.1.1.1")).1)
    × (lookup
          (codes "1.1.1.1")
          (admit
            (tick (660 * second) one_client)
            (660 * second)
            (661 * second)
            (codes "1.1.1.1")).0.buckets
        ≡ lookup
            (codes "1.1.1.1")
            (admit one_client (660 * second) (661 * second) (codes "1.1.1.1")).0.buckets)
unfolding lookup
admit-tick_example =
    admit-tick one_client (660 * second) (660 * second) (661 * second) (codes "1.1.1.1") (refl, tt)
      (omega arith) (omega arith)
