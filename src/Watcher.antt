-- ===== src/Watcher.antt =====
-- internal/watcher/watcher.go: the events of a directory, their batches, and the flush of a batch
-- into the index and the cache. `fsnotify` and the timer are sequences of steps; the database is
-- what `Delete` and `IndexFile` do to its state, which they leave as it was where they fail.
pub mod Batch
pub mod Flushed
pub mod Reached
mod Tests
use filesearch.Base.{
  ℕ, suc, ◌+◌, Bool, true, false, not, ◌&&◌, ◌||◌, ltb, Option, none, some, List, [], ◌∷◌, ◌++◌,
  Text, codes, member, to_lower, ext, clean_path, lookup, insert, is_empty, if◌then◌else◌,
}
use filesearch.Base.Result.{Result, ok, err}
use filesearch.Cache.{Cache, invalidate_by_path}

abbrev pub supported_exts : List Text
supported_exts =
    codes ".txt"
    ∷ codes ".md"
    ∷ codes ".html"
    ∷ codes ".htm"
    ∷ codes ".csv"
    ∷ codes ".json"
    ∷ codes ".yaml"
    ∷ codes ".yml"
    ∷ codes ".rtf"
    ∷ codes ".pdf"
    ∷ codes ".docx"
    ∷ codes ".xlsx"
    ∷ codes ".pptx"
    ∷ codes ".odt"
    ∷ codes ".ods"
    ∷ codes ".odp"
    ∷ codes ".xml"
    ∷ codes ".log"
    ∷ codes ".ini"
    ∷ codes ".cfg"
    ∷ codes ".conf"
    ∷ codes ".toml"
    ∷ codes ".sh"
    ∷ codes ".bat"
    ∷ codes ".ps1"
    ∷ codes ".py"
    ∷ codes ".js"
    ∷ codes ".ts"
    ∷ codes ".sql"
    ∷ codes ".tex"
    ∷ codes ".go"
    ∷ codes ".rs"
    ∷ codes ".c"
    ∷ codes ".cpp"
    ∷ codes ".h"
    ∷ codes ".java"
    ∷ codes ".rb"
    ∷ codes ".php"
    ∷ codes ".doc"
    ∷ codes ".xls"
    ∷ codes ".ppt"
    ∷ []

-- isSupportedExt(path)
unfoldable pub is_supported_ext : Text → Bool
is_supported_ext path = member (to_lower (ext path)) supported_exts

-- An event of fsnotify: the name, its operations, and whether the name is a directory now.
pub record Event : Type 0 where
  pub name : Text
  pub is_create : Bool
  pub is_remove : Bool
  pub is_rename : Bool
  pub is_dir : Bool

-- The variables of the loop: the paths of the batch, each with whether it was deleted, whether the
-- timer runs, and the directories that are watched.
pub record Loop : Type 0 where
  pub pending : List (Text × Bool)
  pub is_armed : Bool
  pub watched : List Text

-- The case of an event: a new directory is watched, a path with another extension is passed by, any
-- other is put into the batch, over what the batch had for it.
unfoldable pub on_event : Event → Loop → Loop
on_event e w =
    if e.is_create && e.is_dir
    then record w { watched = w.watched ++ clean_path e.name ∷ [] }
    else if is_supported_ext (clean_path e.name)
    then record w {
      pending = insert (clean_path e.name) (e.is_remove || e.is_rename) w.pending;
      is_armed = true;
    }
    else w

abbrev pub deleted_paths : List (Text × Bool) → List Text
deleted_paths [] = []
deleted_paths ((path, is_delete) ∷ pending) =
    let rest = deleted_paths pending in if is_delete then path ∷ rest else rest

abbrev pub changed_paths : List (Text × Bool) → List Text
changed_paths [] = []
changed_paths ((path, is_delete) ∷ pending) =
    let rest = changed_paths pending in if is_delete then rest else path ∷ rest

module _ {S : Type 0} where
  -- One path of `flush`: the cache is told where the database did its part.
  abbrev pub settle : Text → S → Cache → Result S → S × Cache
  settle path s c (ok s1) = (s1, invalidate_by_path c path)
  settle path s c (err e) = (s, c)

  unfoldable pub flush_paths : (S → Text → Result S) → List Text → S × Cache → S × Cache
  flush_paths op [] (s, c) = (s, c)
  flush_paths op (path ∷ paths) (s, c) = flush_paths op paths (settle path s c (op s path))

  -- flush(ctx, pending): the deletions first
  unfoldable pub flush :
      (S → Text → Result S) → (S → Text → Result S) → List (Text × Bool) → S × Cache → S × Cache
  flush delete index_file pending d =
      flush_paths index_file (changed_paths pending) (flush_paths delete (deleted_paths pending) d)

  -- The case of the timer: an empty batch is passed by, another is flushed and emptied.
  unfoldable pub on_timer :
      (S → Text → Result S) → (S → Text → Result S) → Loop → S × Cache → Loop × S × Cache
  on_timer delete index_file w (s, c) =
      let (s1, c1) = flush delete index_file w.pending (s, c) in
      if is_empty_batch w.pending
      then (record w { is_armed = false }, s, c)
      else (record w { pending = []; is_armed = false }, s1, c1)
    where
      is_empty_batch : List (Text × Bool) → Bool
      is_empty_batch [] = true
      is_empty_batch (b ∷ batch) = false

abbrev pub max_watched_dirs : ℕ
max_watched_dirs = 10000

-- addDirsRecursive(fsw, root): the directories in the order of the walk, with the entries below
-- each. A directory past the cap is skipped with what is below it. The calls of fsw.Add succeed.
pub data Dirs : Type 0 where
  empty : Dirs
  dir : Text → Dirs → Dirs → Dirs

unfoldable pub add_dirs_recursive : Dirs → List Text × ℕ → List Text × ℕ
add_dirs_recursive empty (watched, count) = (watched, count)
add_dirs_recursive (dir path below siblings) (watched, count) =
    let inside = add_dirs_recursive below (watched ++ path ∷ [], suc count) in
    add_dirs_recursive siblings (if ltb count max_watched_dirs then inside else (watched, count))
