-- ===== src/Server/Limiter/Bounds.antt =====
-- How many requests the rate limiter of internal/server/middleware.go lets through.
use filesearch.Base.{
  ℕ, ◌+◌, ◌-◌, ◌*◌, ◌≤◌, ◌≡◌, ◌↔◌, sym, subst, true, List, [], ◌∷◌, arith, if◌then◌else◌,
}
use filesearch.Server.Limiter.{Bucket, allow, token, rate_burst, rate_per_second, fresh_bucket}

-- A bucket never holds more than the burst.
abbrev pub IsFull : Bucket → Type 0
IsFull b = b.tokens ≤ rate_burst * token

-- Whatever it held, a bucket holds at most the burst after a request, and knows its time.
pub allow-bounded : (now : ℕ) (b : Bucket) → (IsFull (allow now b).0) × ((allow now b).0.last ≡ now)
unfolding allow
allow-bounded now b = ground arith

-- The requests of one client at the given times: the number let through, and the last bucket.
pub run : Bucket → List ℕ → ℕ × Bucket
run b [] = (0, b)
run b (now ∷ times) =
    let (b', allowed) = allow now b in
    let (n, end) = run b' times in ((if allowed then n + 1 else n), end)

-- Times that do not go back.
abbrev pub Monotone : ℕ → List ℕ → Type 0
Monotone last [] = Unit
Monotone last (now ∷ times) = (last ≤ now) × Monotone now times

-- What one request may take from the bucket.
allow_cost :
    (now : ℕ) (b : Bucket)
    → b.last ≤ now
    → ((if (allow now b).1 then token else 0) + (allow now b).0.tokens
        ≤ b.tokens + (now - b.last) * rate_per_second)
      × ((allow now b).0.last ≡ now)
unfolding allow
allow_cost now b h = ground arith

-- Every token that a request takes was there, or came in since.
pub run_cost :
    (times : List ℕ) (b : Bucket)
    → Monotone b.last times
    → ((run b times).0 * token + (run b times).1.tokens + b.last * rate_per_second
        ≤ b.tokens + (run b times).1.last * rate_per_second)
unfolding run
run_cost [] b m = omega arith
run_cost (now ∷ times) b (le, m) =
    let (paid, at) = allow_cost now b le in
    let rest = run_cost times (allow now b).0 (subst (λ t. Monotone t times) (sym at) m) in
    ground (arith, paid, at, rest, le)

-- For request times that do not go back, a client whose first request came at `created` has had
-- at most the burst let through, and `rate_per_second` requests for each second since.
pub run-le-rate :
    (created : ℕ) (times : List ℕ)
    → Monotone created times
    → (run (fresh_bucket created) times).0 * token
      ≤ rate_burst * token + ((run (fresh_bucket created) times).1.last - created) * rate_per_second
run-le-rate created times m = omega (arith, run_cost times (fresh_bucket created) m)

-- A request is let through exactly when the bucket's tokens and those that came in since its last
-- request make one token.
pub allow_iff :
    (now : ℕ) (b : Bucket)
    → ((allow now b).1 ≡ true) ↔ (token ≤ b.tokens + (now - b.last) * rate_per_second)
unfolding allow
allow_iff now b = ground arith
