-- ===== src/DataPaths/Pairs.antt =====
-- What becomes of the files in a pair of the loop of `MigrateIfNeeded` in internal/paths/paths.go, and in
-- two pairs.
use filesearch.Base.{
  ◌≡◌, ◌≢◌, ◌⊎◌, refl, sym, ap, ◌∙◌, subst, inl, inr, Bool, true, false, Bool-cases, Option, none,
  some, Option-cases, List, [], ◌∷◌, Text, text_eq, text_eq_iff, arith, if◌then◌else◌,
}
use filesearch.Base.Result.{Error}
use filesearch.DataPaths.{
  DiskSystem, tmp_of, copy_file, migrate_pair, migrate_pairs, is_absent, is_there,
}
use filesearch.DataPaths.Migration.{IsFiles, IsDisk, copy_file-IsCopy}

-- The first of two.
abbrev pub or_else : Option Text → Option Text → Option Text
or_else none o = o
or_else (some c) o = some c

module _ (os : DiskSystem) (files : IsFiles os) where
  -- `os.Stat` reports no error for the file where it is there.
  abbrev pub IsFound : Text → Type 0
  IsFound x = (s : os.State) (c : Text) → files.content s x ≡ some c → os.stat s x ≡ none

  -- What is done with a pair: nothing, or a copy where `os.Stat` reports an error for the target.
  pair-copies :
      (s : os.State) (a b : Text)
      → ((migrate_pair os s a b).0 ≡ s)
        ⊎ ((is_there os (os.stat s b) ≡ false)
            × ((migrate_pair os s a b).0 ≡ (copy_file os s a b).0))
  unfolding migrate_pair
  pair-copies s a b = elim (Bool-cases (is_absent os (os.stat s a))) [
    | inl gone ↦ inl (rw (migrate_pair, gone) refl)
    | inr found ↦ elim (Bool-cases (is_there os (os.stat s b))) [
      | inl there ↦ inl (rw (migrate_pair, found, there) refl)
      | inr free ↦ elim (Option-cases (copy_file os s a b).1) [
        | inl done ↦ inr (rw (migrate_pair, found, free, done) (refl, refl))
        | inr (e, failed) ↦ inr (rw (migrate_pair, found, free, failed) (refl, refl))
      ]
    ]
  ]

  -- A file that is there is kept, if it is not the temporary one and is found where it is the target.
  pub pair-keeps :
      (s : os.State) (a b x c : Text)
      → (x ≡ b → IsFound x)
      → x ≢ tmp_of os b
      → files.content s x ≡ some c
      → files.content (migrate_pair os s a b).0 x ≡ some c
  pair-keeps s a b x c known ne found = elim (pair-copies s a b) [
    | inl skipped ↦ rw skipped found
    | inr (free, same) ↦ elim (Bool-cases (text_eq x b)) [
      | inl e ↦
          let target : x ≡ b = (text_eq_iff x b).0 e in
          let there : os.stat s b ≡ none =
            subst (λ y. os.stat s y ≡ none) target (known target s c found) in
          absurd_there (ap (is_there os) (sym there) ∙ free)
      | inr e ↦ rw same ((copy_file-IsCopy os files s a b).0 x ne (λ y. unequal x b e y) ∙ found)
    ]
  ]
    where
      absurd_there : {B : Type 0} → true ≡ false → B
      absurd_there h = ground arith

      unequal : (x b : Text) → text_eq x b ≡ false → x ≢ b
      unequal x b e y = let f = (text_eq_iff x b).1 y in ground arith

  -- The two pairs, one after the other: an error ends the loop.
  pub two_pairs :
      (s : os.State) (a b a2 b2 : Text)
      → let m = migrate_pairs os s false ((a, b) ∷ (a2, b2) ∷ []) in
        let first = migrate_pair os s a b in
        ((m.0 ≡ first.0) × ((e : Error) × (m.2 ≡ some e)))
        ⊎ ((first.2 ≡ none)
            × (m.0 ≡ (migrate_pair os first.0 a2 b2).0)
            × (m.2 ≡ none → (migrate_pair os first.0 a2 b2).2 ≡ none))
  two_pairs s a b a2 b2 =
      let first = migrate_pair os s a b in
      elim (Option-cases first.2) [
        | inr (e, failed) ↦ inl (rw (migrate_pairs, failed) (refl, (e, refl)))
        | inl done ↦ elim (Option-cases (migrate_pair os first.0 a2 b2).2) [
          | inl done2 ↦ inr (rw (migrate_pairs, done, done2) (refl, refl, λ h. refl))
          | inr (e2, failed2) ↦ inr (rw (migrate_pairs, done, failed2) (refl, refl, λ h. h))
        ]
      ]

module _ (os : DiskSystem) (disk : IsDisk os) where
  -- What is done with a pair: nothing, as its file is not there or its target is; or a copy.
  pair-cases :
      (s : os.State) (a b : Text)
      → ((migrate_pair os s a b ≡ (s, false, none))
          × ((disk.files.content s a ≡ none) ⊎ ((c : Text) × (disk.files.content s b ≡ some c))))
        ⊎ ((disk.files.content s b ≡ none)
            × (((migrate_pair os s a b).0 ≡ (copy_file os s a b).0)
                × ((migrate_pair os s a b).2 ≡ none → (copy_file os s a b).1 ≡ none)))
  unfolding migrate_pair
  pair-cases s a b = elim (Option-cases (disk.files.content s a)) [
    | inl gone ↦ inl (rw (migrate_pair, disk.misses s a gone) refl, inl gone)
    | inr (c, found) ↦ elim (Option-cases (disk.files.content s b)) [
      | inr (d, there) ↦
          inl
            (rw (migrate_pair, disk.finds s a c found, disk.finds s b d there) refl, inr (d, there))
      | inl free ↦ elim (Option-cases (copy_file os s a b).1) [
        | inl done ↦ inr (
          free,
          rw (migrate_pair, disk.finds s a c found, disk.misses s b free, done) (refl, λ h. refl),
        )
        | inr (e, failed) ↦ inr (
          free,
          rw (migrate_pair, disk.finds s a c found, disk.misses s b free, failed)
              (refl, λ h. ground arith),
        )
      ]
    ]
  ]

  -- A file that is not there is not made, if it is neither the target nor the temporary one.
  pub pair-misses :
      (s : os.State) (a b x : Text)
      → x ≢ tmp_of os b
      → x ≢ b
      → disk.files.content s x ≡ none
      → disk.files.content (migrate_pair os s a b).0 x ≡ none
  pair-misses s a b x ne nb gone = elim (pair-cases s a b) [
    | inl (skipped, why) ↦ rw skipped gone
    | inr (free, (same, done)) ↦ rw same ((copy_file-IsCopy os disk.files s a b).0 x ne nb ∙ gone)
  ]

  -- Any other file stays as it is.
  pub pair-others :
      (s : os.State) (a b x : Text)
      → x ≢ tmp_of os b
      → x ≢ b
      → disk.files.content (migrate_pair os s a b).0 x ≡ disk.files.content s x
  pair-others s a b x ne nb = elim (pair-cases s a b) [
    | inl (skipped, why) ↦ rw skipped refl
    | inr (free, (same, done)) ↦ rw same ((copy_file-IsCopy os disk.files s a b).0 x ne nb)
  ]

  -- The old file is not there, or the new one is.
  abbrev pub IsSettled : os.State → Text → Text → Type 0
  IsSettled s a b =
      (disk.files.content s a ≡ none) ⊎ ((c : Text) × (disk.files.content s b ≡ some c))

  pub pair-IsSettled :
      (s : os.State) (a b : Text)
      → a ≢ tmp_of os b
      → (migrate_pair os s a b).2 ≡ none
      → IsSettled (migrate_pair os s a b).0 a b
  pair-IsSettled s a b ne h = elim (pair-cases s a b) [
    | inl (skipped, why) ↦ rw skipped why
    | inr (free, (same, done)) ↦
        let (c, was, now) = (copy_file-IsCopy os disk.files s a b).2 ne (done h) in
        inr (c, rw same now)
  ]

  -- The target holds what it held, or else what the old file holds.
  pub pair-target :
      (s : os.State) (a b : Text)
      → a ≢ tmp_of os b
      → (migrate_pair os s a b).2 ≡ none
      → disk.files.content (migrate_pair os s a b).0 b
        ≡ or_else (disk.files.content s b) (disk.files.content s a)
  pair-target s a b ne h = elim (pair-cases s a b) [
    | inl (skipped, inl gone) ↦ rw (skipped, gone) (sym (or_else-none (disk.files.content s b)))
    | inl (skipped, inr (d, there)) ↦ rw (skipped, there) refl
    | inr (free, (same, done)) ↦
        let (c, was, now) = (copy_file-IsCopy os disk.files s a b).2 ne (done h) in
        rw (same, free, was) now
  ]
    where
      or_else-none : (o : Option Text) → or_else o none ≡ o
      or_else-none none = refl
      or_else-none (some c) = refl

  settled-skips :
      (s : os.State) (a b : Text) → IsSettled s a b → migrate_pair os s a b ≡ (s, false, none)
  unfolding migrate_pair
  settled-skips s a b (inl gone) = rw (migrate_pair, disk.misses s a gone) refl
  settled-skips s a b (inr (d, there)) = elim (Option-cases (disk.files.content s a)) [
    | inl gone ↦ rw (migrate_pair, disk.misses s a gone) refl
    | inr (c, found) ↦ rw (migrate_pair, disk.finds s a c found, disk.finds s b d there) refl
  ]

  skipped_pair :
      (s : os.State) (a b : Text) (pairs : List (Text × Text))
      → migrate_pair os s a b ≡ (s, false, none)
      → migrate_pairs os s false ((a, b) ∷ pairs) ≡ migrate_pairs os s false pairs
  skipped_pair s a b pairs h =
      ap
        (λ (m : os.State × Bool × Option Error). elim m.2 as (λ x. os.State × Bool × Option Error) [
          | some e ↦ (m.0, false, some e)
          | none ↦ migrate_pairs os m.0 (if m.1 then true else false) pairs
        ])
        h

  pub skipped_pairs :
      (s : os.State) (a b a2 b2 : Text)
      → IsSettled s a b
      → IsSettled s a2 b2
      → migrate_pairs os s false ((a, b) ∷ (a2, b2) ∷ []) ≡ (s, false, none)
  skipped_pairs s a b a2 b2 one two =
      skipped_pair s a b ((a2, b2) ∷ []) (settled-skips s a b one)
      ∙ skipped_pair s a2 b2 [] (settled-skips s a2 b2 two)

  -- A pair that is settled stays so while another is copied.
  pub stays-IsSettled :
      (s : os.State) (a b a2 b2 : Text)
      → a ≢ tmp_of os b2
      → a ≢ b2
      → b ≢ tmp_of os b2
      → IsSettled s a b
      → IsSettled (migrate_pair os s a2 b2).0 a b
  stays-IsSettled s a b a2 b2 t n bt (inl gone) = inl (pair-misses s a2 b2 a t n gone)
  stays-IsSettled s a b a2 b2 t n bt (inr (c, there)) =
      inr (c, pair-keeps os disk.files s a2 b2 b c (λ e u d. disk.finds u b d) bt there)
