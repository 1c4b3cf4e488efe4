-- ===== src/Logger/Tests.antt =====
-- The log of internal/logger/logger.go in a file system in memory.
use filesearch.Base.{
  ℕ, ◌+◌, ◌≤◌, ◌≡◌, ◌≢◌, ◌⊎◌, refl, sym, ap, ◌∙◌, inl, inr, Option-cases, Option, none, some, List,
  [], ◌∷◌, ◌++◌, Text, codes, length, ltb, lookup, insert, remove, lookup-insert, lookup-remove,
  lookup-insert_self, lookup-insert_other, lookup-remove_other, lookup-remove_self, text_eq,
  text_eq_iff, text_eq_refl, Bool, true, false, Bool-cases, All, arith,
}
use filesearch.Base.Result.{Error, Result, ok}
use filesearch.Logger.{LogSystem, RotatingWriter, backup, max_log_size, write}
use filesearch.Logger.Rotation.{IsWithin, write_all, write_all-IsWithin}
use filesearch.Logger.Backups.{IsReliable, or_else, write-shifts}

abbrev Files : Type 0
Files = List (Text × Text)

abbrev rename_in : Files → Text → Text → Files
rename_in s a b = elim (lookup a s) [ none ↦ s | some c ↦ insert b c (remove a s) ]

abbrev write_in : Files → Text → Text → Files × ℕ × Option Error
write_in s f p = elim (lookup f s) [
  | none ↦ (s, 0, some (codes "no such file" ∷ []))
  | some old ↦ (insert f (old ++ p) s, length p, none)
]

abbrev kept_or_new : Files → Text → Files
kept_or_new s p = elim (lookup p s) [ none ↦ insert p [] s | some c ↦ s ]

abbrev size_in : Files → Text → Result ℕ
size_in s f = elim (lookup f s) [ none ↦ ok 0 | some c ↦ ok (length c) ]

abbrev in_memory : LogSystem
in_memory = record {
  State = Files;
  File = Text;
  open_append = λ s p. ok (kept_or_new s p, p);
  open_trunc = λ s p. ok (insert p [] s, p);
  stat_size = size_in;
  close_file = λ s f. s;
  rename = rename_in;
  write_file = write_in;
}

in_memory-IsReliable : IsReliable in_memory
in_memory-IsReliable = record {
  content = λ s x. lookup x s;
  named = λ s f. some f;
  closes = λ s f x. refl;
  renames = λ s a b c ne found. renamed s a b c ne found;
  renames_missing = λ s a b x missing. unmoved s a b x missing;
  renames_other = λ s a b x na nb. other s a b x na nb;
  truncs = λ s p. (
    insert p [] s,
    p,
    refl,
    refl,
    lookup-insert_self p [] s,
    λ x ne. lookup-insert_other p x [] s ne,
  );
  writes = λ s f p path old at found. written s f p path old at found;
}
  where
    unmoved :
        (s : Files) (a b x : Text) → lookup a s ≡ none → lookup x (rename_in s a b) ≡ lookup x s
    unmoved s a b x missing = rw (rename_in, missing) refl

    renamed :
        (s : Files) (a b c : Text)
        → a ≢ b
        → lookup a s ≡ some c
        → (lookup b (rename_in s a b) ≡ some c) × (lookup a (rename_in s a b) ≡ none)
    renamed s a b c ne found =
        rw (rename_in, found)
          (
            lookup-insert_self b c (remove a s),
            lookup-insert_other b a c (remove a s) ne ∙ lookup-remove_self a s,
          )

    other : (s : Files) (a b x : Text) → x ≢ a → x ≢ b → lookup x (rename_in s a b) ≡ lookup x s
    other s a b x na nb = elim (Option-cases (lookup a s)) [
      | inl missing ↦ rw (rename_in, missing) refl
      | inr (c, found) ↦
          rw (rename_in, found)
            (lookup-insert_other b x c (remove a s) nb ∙ lookup-remove_other a x s na)
    ]

    written :
        (s : Files) (f p path old : Text)
        → some f ≡ some path
        → lookup path s ≡ some old
        → (t : Files) × (write_in s f p ≡ (t, length p, none))
          × (lookup path t ≡ some (old ++ p))
          × ((x : Text) → x ≢ path → lookup x t ≡ lookup x s)
    written s f p path old at found =
        let same : f ≡ path = ground arith in
        rw same (
          insert path (old ++ p) s,
          rw (write_in, found) refl,
          lookup-insert_self path (old ++ p) s,
          λ x ne. lookup-insert_other path x (old ++ p) s ne,
        )

-- The log with a backup, and a writer that counts 10 MB.
abbrev log : Text
log = codes "/log"

abbrev before : Files
before = (codes "/log.1", codes "older") ∷ (log, codes "old") ∷ []

abbrev full_writer : RotatingWriter in_memory
full_writer = record { path = log; file = some log; size = max_log_size }

write-shifts_example :
    (t : Files) × (v : RotatingWriter in_memory) × (write in_memory before full_writer (codes "new")
      ≡ (t, v, 3, none))
    × (v.size ≡ 3)
    × (lookup log t ≡ some (codes "new"))
    × (lookup (backup in_memory log 1) t ≡ some (codes "old"))
    × (lookup (backup in_memory log 2) t ≡ some (codes "older"))
    × (lookup (backup in_memory log 3) t
        ≡ or_else (lookup (backup in_memory log 2) before) (lookup (backup in_memory log 3) before))
unfolding in_memory-IsReliable lookup filesearch.Base.decimal
write-shifts_example =
    write-shifts in_memory in_memory-IsReliable before full_writer (codes "new") refl

write_all-IsWithin_example :
    IsWithin 7 (write_all in_memory before full_writer (codes "one" ∷ codes "another" ∷ [])).1.size
write_all-IsWithin_example =
    write_all-IsWithin in_memory within 7 before full_writer (codes "one" ∷ codes "another" ∷ [])
      (inl (ground arith)) (ground arith, (ground arith, tt))
  where
    within : (s : Files) (f p : Text) → (write_in s f p).1 ≤ length p
    within s f p = elim (Option-cases (lookup f s)) [
      | inl missing ↦ rw (write_in, missing) (ground arith)
      | inr (old, found) ↦ rw (write_in, found) (ground arith)
    ]
