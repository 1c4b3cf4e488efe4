-- ===== src/Watcher/Flushed.antt =====
-- What `flush` of internal/watcher/watcher.go does to the cache.
use filesearch.Base.{ℕ, ◌≡◌, refl, sym, subst, inl, inr, Bool, List, [], ◌∷◌, Text}
use filesearch.Base.Result.{Result, ok, err, Result-cases}
use filesearch.Cache.{Cache}
use filesearch.Cache.Spec.{Slot, invalidate_slots}
use filesearch.Cache.Represents.{Represents}
use filesearch.Cache.Invalidation.{invalidate_by_path-Represents}
use filesearch.Watcher.{flush, flush_paths, settle, deleted_paths, changed_paths}

module _ {S : Type 0} where
  -- A path that the database took drops the slots that show it.
  abbrev pub settle_slots : Text → S → List Slot → Result S → S × List Slot
  settle_slots path s l (ok s1) = (s1, invalidate_slots path l)
  settle_slots path s l (err e) = (s, l)

  abbrev Agree : ℕ → ℕ → S × Cache → S × List Slot → Type 0
  Agree max_size ttl d l = (d.0 ≡ l.0) × Represents max_size ttl d.1 l.1

  -- The database and the slots of the cache, after the paths: the specification of `flush_paths`.
  pub flush_slots : (S → Text → Result S) → List Text → S × List Slot → S × List Slot
  flush_slots op [] (s, l) = (s, l)
  flush_slots op (path ∷ paths) (s, l) = flush_slots op paths (settle_slots path s l (op s path))

  flush_paths-Represents :
      (op : S → Text → Result S) (paths : List Text) {max_size ttl : ℕ} (s : S) {c : Cache}
      {l : List Slot}
      → Represents max_size ttl c l
      → ((flush_paths op paths (s, c)).0 ≡ (flush_slots op paths (s, l)).0)
        × Represents max_size ttl (flush_paths op paths (s, c)).1 (flush_slots op paths (s, l)).1
  unfolding flush_paths flush_slots
  flush_paths-Represents op [] s r = (refl, r)
  flush_paths-Represents op (path ∷ paths) {max_size} {ttl} s {c} {l} r =
      elim (Result-cases (op s path)) [
        | inl (s1, at) ↦
            subst
              (λ o.
                Agree max_size ttl (flush_paths op paths (settle path s c o))
                  (flush_slots op paths (settle_slots path s l o)))
              (sym at) (flush_paths-Represents op paths s1 (invalidate_by_path-Represents r path))
        | inr (e, at) ↦
            subst
              (λ o.
                Agree max_size ttl (flush_paths op paths (settle path s c o))
                  (flush_slots op paths (settle_slots path s l o)))
              (sym at) (flush_paths-Represents op paths s r)
      ]

  -- The batch takes the deleted paths first, then the changed ones; on a cache that stands for a
  -- list of slots, the slots that show a path are dropped where the database took the path, and
  -- no others.
  pub flush-Represents :
      (delete index_file : S → Text → Result S) (pending : List (Text × Bool)) {max_size ttl : ℕ}
      (s : S) {c : Cache} {l : List Slot}
      → Represents max_size ttl c l
      → ((flush delete index_file pending (s, c)).0
          ≡ (flush_slots index_file
              (changed_paths pending)
              (flush_slots delete (deleted_paths pending) (s, l))).0)
        × Represents max_size ttl
            (flush delete index_file pending (s, c)).1
            (flush_slots index_file
              (changed_paths pending)
              (flush_slots delete (deleted_paths pending) (s, l))).1
  unfolding flush
  flush-Represents delete index_file pending {max_size} {ttl} s {c} {l} r =
      let (same, kept) = flush_paths-Represents delete (deleted_paths pending) s r in
      let (same', kept') =
        flush_paths-Represents index_file (changed_paths pending)
          (flush_paths delete (deleted_paths pending) (s, c)).0 kept in
      rw (← same) (same', kept')
