-- ===== src/Server/Access/Gate.antt =====
-- What gets past the middleware chain of internal/server/middleware.go.
use filesearch.Base.{
  ℕ, ◌≡◌, ◌≢◌, ◌⊎◌, inl, inr, refl, Bool, true, false, none, some, [], ◌∷◌, ◌++◌, codes,
  text_eq_iff, arith, if◌then◌else◌,
}
use filesearch.Server.Limiter.{RateLimiterStore, admit}
use filesearch.Server.Access.{
  Request, Response, Outcome, replies, panics, Server, Handler, error_reply, recovered,
  recovery_middleware, csrf_allows, is_api_path, client_ip, auth_allows, chain,
}

-- What the chain decides about a request, before any handler.
pub data Verdict : Type 0 where
  forged limited unauthorized accepted : Verdict

-- The limiter's part: whether the request is let through, and the server after it.
abbrev pub limit : ℕ → ℕ → Request → Server → Server × Bool
limit created now r s =
    if is_api_path r.url_path
    then (let (l, ok) = admit s.limiter created now (client_ip r) in (record s { limiter = l }, ok))
    else (s, true)

abbrev pub verdict : ℕ → ℕ → Request → Server → Verdict
verdict created now r s =
    if csrf_allows r s
    then (if (limit created now r s).1
        then (if auth_allows r s then accepted else unauthorized)
        else limited)
    else forged

-- The server and the reply that a verdict means.
abbrev pub enact : Verdict → ℕ → ℕ → Handler → Request → Server → Server × Outcome
enact forged created now h r s =
    (s, replies (error_reply [] (codes "forbidden: cross-origin request") 403))
enact limited created now h r s = (
  (limit created now r s).0,
  replies (error_reply ((codes "Retry-After", codes "1") ∷ []) (codes "rate limit exceeded") 429),
)
enact unauthorized created now h r s = (
  (limit created now r s).0,
  replies (
      error_reply ((codes "WWW-Authenticate", codes "Bearer realm=\"filesearch\"") ∷ [])
        (codes "unauthorized") 401),
)
enact accepted created now h r s = recovery_middleware h r (limit created now r s).0

auth_same :
    (r : Request) (s : Server) (l : RateLimiterStore)
    → auth_allows r (record s { limiter = l }) ≡ auth_allows r s
unfolding auth_allows
auth_same r s l = refl

pub chain-verdict :
    (created now : ℕ) (h : Handler) (r : Request) (s : Server)
    → chain created now h r s ≡ enact (verdict created now r s) created now h r s
unfolding chain
chain-verdict created now h r s =
    ground (arith, auth_same r s (admit s.limiter created now (client_ip r)).0)

recovered_replies : (o : Outcome) → (reply : Response) × (recovered o ≡ replies reply)
recovered_replies (replies r) = (r, refl)
recovered_replies (panics none) = (error_reply [] (codes "internal server error") 500, refl)
recovered_replies (panics (some r)) = (r, refl)

enact_replies :
    (v : Verdict) (created now : ℕ) (h : Handler) (r : Request) (s : Server)
    → (reply : Response) × ((enact v created now h r s).1 ≡ replies reply)
unfolding recovery_middleware
enact_replies accepted created now h r s = recovered_replies (h r (limit created now r s).0).1
enact_replies forged created now h r s = (_, refl)
enact_replies limited created now h r s = (_, refl)
enact_replies unauthorized created now h r s = (_, refl)

auth_refuses :
    (r : Request) (s : Server)
    → s.token ≢ []
    → is_api_path r.url_path ≡ true
    → r.authorization ≢ codes "Bearer " ++ s.token
    → auth_allows r s ≡ false
unfolding auth_allows
auth_refuses r s set api wrong =
    ground (arith, text_eq_iff r.authorization (codes "Bearer " ++ s.token))

-- Whatever the handler does, a panic included, the chain replies.
pub chain_replies :
    (created now : ℕ) (h : Handler) (r : Request) (s : Server)
    → (reply : Response) × ((chain created now h r s).1 ≡ replies reply)
chain_replies created now h r s =
    rw chain-verdict (enact_replies (verdict created now r s) created now h r s)

-- A refusal: of the origin, of the rate or of the token.
abbrev pub IsRefused : Outcome → Type 0
IsRefused o =
    (reply : Response) × (o ≡ replies reply)
    × ((reply.status ≡ 401) ⊎ ((reply.status ≡ 403) ⊎ (reply.status ≡ 429)))

enact-IsRefused :
    (v : Verdict) (created now : ℕ) (h : Handler) (r : Request) (s : Server)
    → v ≢ accepted
    → IsRefused (enact v created now h r s).1
enact-IsRefused accepted created now h r s other = absurd (other refl)
enact-IsRefused forged created now h r s other = (_, refl, inr (inl refl))
enact-IsRefused limited created now h r s other = (_, refl, inr (inr refl))
enact-IsRefused unauthorized created now h r s other = (_, refl, inl refl)

verdict_refused :
    (created now : ℕ) (r : Request) (s : Server)
    → auth_allows r s ≡ false
    → verdict created now r s ≢ accepted
verdict_refused created now r s refused same = ground (arith, refused, same)

-- With a token set, the answer to a request for an API path, /health included, with another
-- authorization does not depend on the handler behind the chain, and it is an error with the
-- status 401, 403 or 429.
pub chain_unauthorized :
    (created now : ℕ) (h h' : Handler) (r : Request) (s : Server)
    → s.token ≢ []
    → is_api_path r.url_path ≡ true
    → r.authorization ≢ codes "Bearer " ++ s.token
    → (chain created now h r s ≡ chain created now h' r s) × IsRefused (chain created now h r s).1
chain_unauthorized created now h h' r s set api wrong =
    let refused = auth_refuses r s set api wrong in
    (
      rw (chain-verdict created now h r s, chain-verdict created now h' r s) (ground arith),
      rw (chain-verdict created now h r s) (
          enact-IsRefused (verdict created now r s) created now h r s
            (verdict_refused created now r s refused)),
    )
