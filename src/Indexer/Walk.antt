-- ===== src/Indexer/Walk.antt =====
-- The walk of `Run` in internal/indexer/indexer.go over a directory tree, and its statistics. The
-- file system is the tree. `done n` says whether the context is cancelled at the n-th call of the
-- walk's function. The walk gives the files to the workers in the order of `started`.
pub mod Started
pub mod Public
use filesearch.Base.{
  ℕ, suc, ◌+◌, Bool, true, false, not, Option, none, some, List, [], ◌∷◌, ◌++◌, Text, is_empty,
  to_lower, ext, lookup, insert, if◌then◌else◌,
}
use filesearch.Base.Result.{Result, ok, err}
use filesearch.Indexer.Policy.{
  DirEntry, FileEntry, FileVerdict, secret, unsupported, stat_error, too_large, placeholder,
  indexed, skips_dir, file_verdict, excluded_names,
}

pub record Stats : Type 0 where
  pub indexed : ℕ
  pub skipped : ℕ
  pub skipped_large : ℕ
  pub errors : ℕ
  pub skipped_extensions : List (Text × ℕ)

-- The entries of a directory in the order of the walk: each with those that follow it, and a
-- directory with its own entries first.
pub data Tree : Type 0 where
  empty : Tree
  file : FileEntry → Tree → Tree
  unreadable : Text → Tree → Tree
  dir : DirEntry → Tree → Tree → Tree

pub record Walk : Type 0 where
  pub stats : Stats
  pub started : List Text
  pub calls : ℕ

abbrev pub call : Walk → Walk
call w = record w { calls = suc w.calls }

abbrev count_error : Stats → Stats
count_error s = record s { errors = s.errors + 1 }

abbrev count_skipped : Stats → Stats
count_skipped s = record s { skipped = s.skipped + 1 }

-- `stats.SkippedExtensions[ext]++`
abbrev count_extension : Text → Stats → Stats
count_extension e s = if is_empty e then s else record s {
  skipped_extensions =
      insert e ((elim (lookup e s.skipped_extensions) [ none ↦ 0 | some n ↦ n ]) + 1)
        s.skipped_extensions;
}

abbrev pub count_file : FileEntry → FileVerdict → Stats → Stats
count_file f secret s = count_skipped s
count_file f unsupported s = count_extension (to_lower (ext f.path)) (count_skipped s)
count_file f stat_error s = count_error s
count_file f too_large s = record (count_skipped s) { skipped_large = s.skipped_large + 1 }
count_file f placeholder s = count_skipped s
count_file f indexed s = s

abbrev pub starts : FileVerdict → Bool
starts indexed = true
starts _ = false

-- The walk's function on a file.
unfoldable pub visit_file : FileEntry → Walk → Walk
visit_file f w = record {
  stats = count_file f (file_verdict f) w.stats;
  started = if starts (file_verdict f) then w.started ++ f.path ∷ [] else w.started;
  calls = suc w.calls;
}

pub data DirStep : Type 0 where
  stop skip into : DirStep

abbrev pub after_dir : Walk × DirStep → Walk × Bool → Walk × Bool
after_dir (w, stop) inside = (w, false)
after_dir (w, skip) inside = (w, true)
after_dir (w, into) inside = inside

module _ (done : ℕ → Bool) (excluded : List Text) where
  -- The walk's function on a directory, and once more if its entries cannot be read.
  unfoldable pub open_dir : DirEntry → Walk → Walk × DirStep
  open_dir d w =
      if done w.calls
      then (w, stop)
      else if skips_dir excluded d
      then (call w, skip)
      else if d.read_fails
      then (if done (suc w.calls)
          then (call w, stop)
          else (record (call (call w)) { stats = count_error w.stats }, into))
      else (call w, into)

  -- filepath.WalkDir: the flag is false once the context is cancelled.
  unfoldable pub walk : Tree → Walk → Walk × Bool
  walk empty w = (w, true)
  walk (file f siblings) w =
      let rest = walk siblings (visit_file f w) in if done w.calls then (w, false) else rest
  walk (unreadable path siblings) w =
      let rest = walk siblings (record (call w) { stats = count_error w.stats }) in
      if done w.calls then (w, false) else rest
  walk (dir d entries siblings) w =
      let opened = open_dir d w in
      let left = after_dir opened (walk entries opened.0) in
      let rest = walk siblings left.0 in if left.1 then rest else left

abbrev pub start_walk : Walk
start_walk = record {
  stats = record {
    indexed = 0;
    skipped = 0;
    skipped_large = 0;
    errors = 0;
    skipped_extensions = [];
  };
  started = [];
  calls = 0;
}

abbrev pub count_done : Bool → Stats → Stats
count_done is_ok stats =
    if is_ok then record stats { indexed = stats.indexed + 1 } else count_error stats

-- The workers: `index_file` is `IndexFile` on the state of the database, which has a new state
-- whether or not it succeeds.
unfoldable pub work : {S : Type 0} → (S → Text → S × Bool) → List Text → S → Stats → S × Stats
work index_file [] s stats = (s, stats)
work index_file (path ∷ paths) s stats =
    let (s1, is_ok) = index_file s path in work index_file paths s1 (count_done is_ok stats)

-- Run(ctx, database, root, extraExclude…), without the duration: the flag is false where the walk
-- was cancelled. A root that `os.Stat` does not find is an error.
unfoldable pub run :
    {S : Type 0}
    → (ℕ → Bool)
    → (S → Text → S × Bool)
    → List Text
    → Option Tree
    → S
    → Option (S × Stats × Bool)
unfolding walk work
run done index_file extra_exclude none s = none
run done index_file extra_exclude (some tree) s =
    let (w, finished) = walk done (excluded_names extra_exclude) tree start_walk in
    let (s1, stats) = work index_file w.started s w.stats in some (s1, stats, finished)
