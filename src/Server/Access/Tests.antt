-- ===== src/Server/Access/Tests.antt =====
-- The theorems on the middleware chain of internal/server/middleware.go at concrete requests.
use filesearch.Base.{◌≡◌, ◌++◌, refl, none, [], ◌∷◌, codes, text_eq_ne}
use filesearch.Server.Limiter.{new_rate_limiter_store}
use filesearch.Server.Access.{
  Request, Response, Outcome, replies, panics, Server, Handler, chain, csrf_allows, server_host,
}
use filesearch.Server.Access.Gate.{chain_unauthorized, IsRefused}

abbrev server : Server
server = record { addr = codes ":8080"; token = codes "secret"; limiter = new_rate_limiter_store }

abbrev search : Request
search = record {
  method = codes "GET";
  url_path = codes "/search";
  host = codes "localhost:8080";
  origin = [];
  referer = [];
  authorization = codes "Bearer wrong";
  remote_addr = codes "127.0.0.1:5000";
}

abbrev open_file : Request
open_file = record {
  method = codes "POST";
  url_path = codes "/open";
  host = codes "localhost:8080";
  origin = [];
  referer = codes "http" ++ (codes "://" ++ (codes "localhost:8080.evil" ++ b'/' ∷ codes "page"));
  authorization = codes "Bearer secret";
  remote_addr = codes "127.0.0.1:5000";
}

abbrev panicking : Handler
panicking r s = (s, panics none)

abbrev answering : Handler
answering r s = (s, replies (record { status = 200; headers = []; error = none }))

chain_unauthorized_example :
    (chain 1 2 panicking search server ≡ chain 1 2 answering search server)
    × IsRefused (chain 1 2 panicking search server).1
unfolding filesearch.Server.Access.is_api_path
chain_unauthorized_example =
    chain_unauthorized 1 2 panicking answering search server (λ e. absurd (cc e)) refl
      (text_eq_ne (codes "Bearer wrong") (codes "Bearer secret") refl)
