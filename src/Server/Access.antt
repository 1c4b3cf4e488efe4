-- ===== src/Server/Access.antt =====
-- The middleware chain of internal/server/middleware.go and `chain` of internal/server/server.go:
-- panic recovery, the check of the origin, the rate limiter and the token. A handler takes the
-- request and the limiter's state, and replies or panics. `http.ServeMux` and the transport are not
-- modelled. Letters are folded as in ASCII.
pub mod Gate
pub mod Origin
mod Tests
use filesearch.Base.{
  ℕ, suc, ◌+◌, ◌==◌, Bool, true, false, not, ◌&&◌, ◌||◌, Option, none, some, List, [], ◌∷◌, ◌++◌,
  Text, codes, text_eq, has_prefix, equal_fold, index_text, index_byte, last_index_byte, is_empty,
  length, take, drop, if◌then◌else◌,
}
use filesearch.Server.Limiter.{RateLimiterStore, admit}

pub record Request : Type 0 where
  pub method : Text
  pub url_path : Text
  pub host : Text
  pub origin : Text
  pub referer : Text
  pub authorization : Text
  pub remote_addr : Text

-- What a handler has sent: the status, the headers that the middlewares set, the error message.
pub record Response : Type 0 where
  pub status : ℕ
  pub headers : List (Text × Text)
  pub error : Option Text

-- A handler replies, or panics; `some` response of a panic was on its way already.
pub data Outcome : Type 0 where
  replies : Response → Outcome
  panics : Option Response → Outcome

-- The fields of `Server` that the middlewares read, and the limiter.
pub record Server : Type 0 where
  pub addr : Text
  pub token : Text
  pub limiter : RateLimiterStore

-- The two readings of the clock by the limiter are arguments of the chain.
abbrev pub Handler : Type 0
Handler = Request → Server → Server × Outcome

-- writeError(w, msg, code) behind headers that were set before.
abbrev pub error_reply : List (Text × Text) → Text → ℕ → Response
error_reply headers msg code = record {
  status = code;
  headers = headers ++ (codes "Content-Type", codes "application/json") ∷ [];
  error = some msg;
}

abbrev recovered : Outcome → Outcome
recovered (replies r) = replies r
recovered (panics none) = replies (error_reply [] (codes "internal server error") 500)
recovered (panics (some r)) = replies r

-- recoveryMiddleware: a response that was on its way keeps its status.
unfoldable pub recovery_middleware : Handler → Handler
recovery_middleware next r s = let (s', o) = next r s in (s', recovered o)

-- The scheme and the host of a referer.
unfoldable pub referer_origin : Text → Text
referer_origin referer = elim (index_text referer (codes "://")) [
  | none ↦ referer
  | some start ↦ elim (index_byte b'/' (drop (start + 3) referer)) [
    | none ↦ referer
    | some slash ↦ take (start + 3 + slash) referer
  ]
]

-- r.Host, or the server's own address.
unfoldable pub server_host : Request → Server → Text
server_host r s = if is_empty r.host then codes "localhost" ++ s.addr else r.host

-- The test that `csrfMiddleware` makes of a request.
unfoldable pub csrf_allows : Request → Server → Bool
csrf_allows r s =
    if text_eq r.method (codes "POST")
    then (if is_empty r.origin && is_empty r.referer
        then true
        else (let check = if is_empty r.origin then referer_origin r.referer else r.origin in
            equal_fold check (codes "http://" ++ server_host r s)
            || equal_fold check (codes "https://" ++ server_host r s)))
    else true

-- csrfMiddleware
unfoldable pub csrf_middleware : Handler → Handler
csrf_middleware next r s =
    if csrf_allows r s
    then next r s
    else (s, replies (error_reply [] (codes "forbidden: cross-origin request") 403))

-- isAPIPath(p)
unfoldable pub is_api_path : Text → Bool
is_api_path p =
    has_prefix p (codes "/search")
    || (has_prefix p (codes "/open")
        || (has_prefix p (codes "/health") || has_prefix p (codes "/api/")))

abbrev has_byte : Text → ℕ → Bool
has_byte s b = elim (index_byte b s) [ none ↦ false | some _ ↦ true ]

-- net.SplitHostPort(hostport): the host, if there is no error.
unfoldable pub split_host : Text → Option Text
split_host hostport = elim (last_index_byte b':' hostport) [
  | none ↦ none
  | some i ↦
      if has_prefix hostport (codes "[")
      then (elim (index_byte b']' hostport) [
        | none ↦ none
        | some end ↦
            if not (suc end == i)
            then none
            else if has_byte (drop 1 hostport) b'[' || has_byte (drop (suc end) hostport) b']'
            then none
            else some (drop 1 (take end hostport))
      ])
      else (let host = take i hostport in
          if has_byte host b':' || (has_byte hostport b'[' || has_byte hostport b']')
          then none
          else some host)
]

-- The client's address, with no port where there is one.
unfoldable pub client_ip : Request → Text
unfolding split_host
client_ip r = elim (split_host r.remote_addr) [ some ip ↦ ip | none ↦ r.remote_addr ]

abbrev admitted : RateLimiterStore × Bool → Handler → Handler
admitted (limiter, true) next r s = next r (record s { limiter = limiter })
admitted (limiter, false) next r s = (
  record s { limiter = limiter },
  replies (error_reply ((codes "Retry-After", codes "1") ∷ []) (codes "rate limit exceeded") 429),
)

-- rateLimitMiddleware
unfoldable pub rate_limit_middleware : ℕ → ℕ → Handler → Handler
rate_limit_middleware created now next r s =
    if is_api_path r.url_path
    then admitted (admit s.limiter created now (client_ip r)) next r s
    else next r s

-- The test of `authMiddleware`.
unfoldable pub auth_allows : Request → Server → Bool
auth_allows r s =
    if not (is_empty s.token) && is_api_path r.url_path
    then text_eq r.authorization (codes "Bearer " ++ s.token)
    else true

-- authMiddleware
unfoldable pub auth_middleware : Handler → Handler
auth_middleware next r s = if auth_allows r s then next r s else (
  s,
  replies (
      error_reply ((codes "WWW-Authenticate", codes "Bearer realm=\"filesearch\"") ∷ [])
        (codes "unauthorized") 401),
)

-- chain(h)
unfoldable pub chain : ℕ → ℕ → Handler → Handler
unfolding recovery_middleware csrf_middleware rate_limit_middleware auth_middleware
chain created now h =
    recovery_middleware (csrf_middleware (rate_limit_middleware created now (auth_middleware h)))
