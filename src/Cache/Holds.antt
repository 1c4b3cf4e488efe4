-- ===== src/Cache/Holds.antt =====
-- The well-formedness of the state of internal/cache/cache.go: the list, the map and the size agree.
use filesearch.Base.{ℕ, ◌<◌, ◌≡◌, some, List, length, lookup, values, All, arith}
use filesearch.Cache.{Heap, Cache, unlink_prev, unlink_next, unlink_reset, unlink, push_front}
use filesearch.Cache.Links.{In, Distinct}
use filesearch.Cache.Layout.{IsList}
use filesearch.Cache.Spec.{Slot}

-- What an entry holds for its users, without its links.
abbrev pub slot : Heap → ℕ → Slot
slot h p = record { key = (h p).key; results = (h p).results; total = (h p).total; exp = (h p).exp }

pub record Holds (c : Cache) (ps : List ℕ) : Type 0 where
  pub layout : IsList c ps
  pub size : c.size ≡ length ps
  pub older : All (λ p. p < c.fresh) ps
  pub indexed : All (λ p. lookup (c.heap p).key c.items ≡ some p) ps
  pub listed : All (λ b. In b.1 ps × ((c.heap b.1).key ≡ b.0)) c.items
  pub distinct : Distinct (values c.items)

-- The two caches differ in their links only.
pub record Same (c d : Cache) : Type 0 where
  pub slots : (q : ℕ) → slot c.heap q ≡ slot d.heap q
  pub fresh : c.fresh ≡ d.fresh
  pub items : c.items ≡ d.items
  pub size : c.size ≡ d.size
  pub max_size : c.max_size ≡ d.max_size
  pub ttl : c.ttl ≡ d.ttl

pub unlink-Same : (c : Cache) (p : ℕ) → Same (unlink c p) c
unfolding unlink unlink_prev unlink_next unlink_reset
unlink-Same c p = record {
  slots = λ q. ground arith;
  fresh = ground arith;
  items = ground arith;
  size = ground arith;
  max_size = ground arith;
  ttl = ground arith;
}

pub push_front-Same : (c : Cache) (p : ℕ) → Same (push_front c p) c
unfolding push_front
push_front-Same c p = record {
  slots = λ q. ground arith;
  fresh = ground arith;
  items = ground arith;
  size = ground arith;
  max_size = ground arith;
  ttl = ground arith;
}
