-- ===== src/Watcher/Batch.antt =====
-- The batches of internal/watcher/watcher.go, and its cap on directories.
use filesearch.Base.{
  ℕ, suc, ◌≤◌, ◌≡◌, inl, inr, false, Bool-cases, ◌||◌, ltb, ltb→lt, some, List, [], ◌∷◌, ◌++◌, Text,
  clean_path, length, length-append, lookup, lookup-insert, text_eq, arith, if◌then◌else◌,
}
use filesearch.Watcher.{
  Event, Loop, is_supported_ext, on_event, Dirs, empty, dir, add_dirs_recursive, max_watched_dirs,
}

-- What an event of a name that is no directory leaves in the batch for a path: its own operation
-- for the same path with a supported extension, and what was there for every other path.
pub on_event_pending :
    (e : Event) (w : Loop) (path : Text)
    → e.is_dir ≡ false
    → lookup path (on_event e w).pending ≡ (
        if text_eq (clean_path e.name) path
        then (if is_supported_ext (clean_path e.name)
            then some (e.is_remove || e.is_rename)
            else lookup path w.pending)
        else lookup path w.pending)
unfolding on_event
on_event_pending e w path file =
    ground (arith, lookup-insert (clean_path e.name) path (e.is_remove || e.is_rename) w.pending)

-- The count is that of the watched directories, and within the cap.
abbrev pub IsCounted : List Text × ℕ → Type 0
IsCounted d = (d.1 ≡ length d.0) × (d.1 ≤ max_watched_dirs)

-- Where the count is that of the watched directories and within the cap, it is so after the walk
-- of a directory tree.
pub add_dirs_recursive-IsCounted :
    (t : Dirs) (d : List Text × ℕ) → IsCounted d → IsCounted (add_dirs_recursive t d)
unfolding add_dirs_recursive
add_dirs_recursive-IsCounted empty d h = h
add_dirs_recursive-IsCounted (dir path below siblings) (watched, count) (same, small) =
    add_dirs_recursive-IsCounted siblings
      (if ltb count max_watched_dirs
        then add_dirs_recursive below (watched ++ path ∷ [], suc count)
        else (watched, count))
      (elim (Bool-cases (ltb count max_watched_dirs)) [
        | inr full ↦ rw full (same, small)
        | inl room ↦ rw room (
            add_dirs_recursive-IsCounted below (watched ++ path ∷ [], suc count)
              (
                omega (arith, same, length-append watched (path ∷ [])),
                omega (arith, ltb→lt count max_watched_dirs room),
              ))
      ])
