-- ===== src/Server/Access/Origin.antt =====
-- Which origins `csrfMiddleware` of internal/server/middleware.go takes for its own.
use mathlib.Core.List.{append_assoc}
use filesearch.Base.{
  ℕ, ◌+◌, ◌≡◌, ◌≢◌, refl, sym, ◌∙◌, Bool, true, false, ◌||◌, ==_ne, some, [], ◌∷◌, ◌++◌, Text,
  codes, equal_fold, index_text, index_byte, length, take, drop, All, arith, length-append,
  drop-append, take-append,
}
use filesearch.Server.Access.{Request, Server, referer_origin, server_host, csrf_allows}

abbrev pub Lacks : ℕ → Text → Type 0
Lacks b = All (λ c. c ≢ b)

pub index_byte-append :
    (b : ℕ) (s rest : Text) → Lacks b s → index_byte b (s ++ b ∷ rest) ≡ some (length s)
index_byte-append b [] rest h = ground arith
index_byte-append b (c ∷ s) rest (ne, h) = ground (arith, index_byte-append b s rest h)

scheme_at :
    (s rest : Text)
    → Lacks b':' s
    → index_text (s ++ (codes "://" ++ rest)) (codes "://") ≡ some (length s)
scheme_at [] rest h = refl
scheme_at (c ∷ s) rest (ne, h) = rw (==_ne c b':' ne, scheme_at s rest h)

module _ (scheme host rest : Text) where
  abbrev front : Text
  front = scheme ++ codes "://"

  regroup : scheme ++ (codes "://" ++ (host ++ b'/' ∷ rest)) ≡ front ++ (host ++ b'/' ∷ rest)
  regroup = sym (append_assoc scheme (codes "://") (host ++ b'/' ∷ rest))

  after_scheme :
      drop (length scheme + 3) (scheme ++ (codes "://" ++ (host ++ b'/' ∷ rest)))
      ≡ host ++ b'/' ∷ rest
  after_scheme =
      rw (regroup, ← length-append scheme (codes "://")) (drop-append front (host ++ b'/' ∷ rest))

  before_path :
      take (length scheme + 3 + length host) (scheme ++ (codes "://" ++ (host ++ b'/' ∷ rest)))
      ≡ scheme ++ (codes "://" ++ host)
  before_path =
      rw
        (
          regroup,
          ← length-append scheme (codes "://"),
          ← append_assoc front host (b'/' ∷ rest),
          ← length-append front host,
        )
        (take-append (front ++ host) (b'/' ∷ rest) ∙ append_assoc scheme (codes "://") host)

  -- The origin of a referer is its scheme and host, where the scheme has no colon and the host no
  -- slash.
  pub referer_origin_lem :
      Lacks b':' scheme
      → Lacks b'/' host
      → referer_origin (scheme ++ (codes "://" ++ (host ++ b'/' ∷ rest)))
        ≡ scheme ++ (codes "://" ++ host)
  unfolding referer_origin
  referer_origin_lem s h =
      rw (scheme_at scheme (host ++ b'/' ∷ rest) s, referer_origin)
        (rw (after_scheme, index_byte-append b'/' host rest h) before_path)

or_false : (b : Bool) → (b || false) ≡ b
or_false true = refl
or_false false = refl

-- A POST with no Origin header, from a page at `http://other/…` whose host has no slash, passes
-- exactly when `other` is the server's host, up to case.
pub csrf_allows-referer :
    (r : Request) (s : Server) (other rest : Text)
    → r.method ≡ codes "POST"
    → r.origin ≡ []
    → r.referer ≡ codes "http" ++ (codes "://" ++ (other ++ b'/' ∷ rest))
    → Lacks b'/' other
    → csrf_allows r s ≡ equal_fold other (server_host r s)
unfolding csrf_allows
csrf_allows-referer r s other rest post none_sent page h =
    let origin = referer_origin_lem (codes "http") other rest (omega arith) h in
    rw (post, none_sent, page) (rw origin (or_false _))
