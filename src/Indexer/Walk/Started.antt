-- ===== src/Indexer/Walk/Started.antt =====
-- Which files the walk of internal/indexer/indexer.go gives to the workers, and its counts.
use mathlib.Core.List.{append_assoc, append-nil}
use filesearch.Base.{
  ℕ, suc, ◌+◌, ◌≡◌, refl, sym, ap, ◌∙◌, Bool, true, false, ◌⊎◌, inl, inr, Bool-cases, List, [], ◌∷◌,
  ◌++◌, Text, length, arith, if◌then◌else◌,
}
use filesearch.Indexer.Policy.{DirEntry, FileEntry, skips_dir, file_verdict}
use filesearch.Indexer.Walk.{
  Stats, Tree, empty, file, unreadable, dir, Walk, DirStep, stop, skip, into, visit_file, starts,
  open_dir, after_dir, walk, work, count_done,
}

module _ (excluded : List Text) where
  -- The files that are to be indexed: those with the verdict, below no skipped directory.
  unfoldable pub wanted : Tree → List Text
  wanted empty = []
  wanted (file f siblings) =
      let rest = wanted siblings in if starts (file_verdict f) then f.path ∷ rest else rest
  wanted (unreadable path siblings) = wanted siblings
  wanted (dir d entries siblings) =
      let inside = wanted entries in
      (if skips_dir excluded d then [] else inside) ++ wanted siblings

  -- What a walk has started is the front of what it had to.
  record Front (before : List Text) (todo : List Text) (r : Walk × Bool) : Type 0 where
    more : List Text
    split : r.0.started ++ more ≡ before ++ todo
    finished : r.1 ≡ true → more ≡ []

  stopped : (w : Walk) (todo : List Text) → Front w.started todo (w, false)
  stopped w todo = record { more = todo; split = refl; finished = λ e. cc }

  after_Front :
      (before now todo : List Text) (r r' : Walk × Bool)
      → Front before now r
      → Front r.0.started todo r'
      → Front before (now ++ todo) (if r.1 then r' else r)
  after_Front before now todo (w, true) r' a b = record {
    more = b.more;
    split =
        b.split
        ∙ ap (λ l. l ++ todo)
            (sym (append-nil w.started)
              ∙ ap (λ l. w.started ++ l) (sym (a.finished refl))
              ∙ a.split)
        ∙ append_assoc before now todo;
    finished = b.finished;
  }
  after_Front before now todo (w, false) r' a b = record {
    more = a.more ++ todo;
    split =
        sym (append_assoc w.started a.more todo)
        ∙ ap (λ l. l ++ todo) a.split
        ∙ append_assoc before now todo;
    finished = λ e. cc;
  }

  file_Front :
      (w : Walk) (todo : List Text) (f : FileEntry) (r : Walk × Bool)
      → Front (visit_file f w).started todo r
      → Front w.started (if starts (file_verdict f) then f.path ∷ todo else todo) r
  unfolding visit_file
  file_Front w todo f r a = elim (Bool-cases (starts (file_verdict f))) [
    | inl begun ↦ record {
      more = a.more;
      split = rw begun (
          a.split
          ∙ ap (λ l. l ++ todo) (started_at begun)
          ∙ append_assoc w.started (f.path ∷ []) todo);
      finished = a.finished;
    }
    | inr other ↦ record {
      more = a.more;
      split = rw other (a.split ∙ ap (λ l. l ++ todo) (passed_at other));
      finished = a.finished;
    }
  ]
    where
      started_at :
          starts (file_verdict f) ≡ true → (visit_file f w).started ≡ w.started ++ f.path ∷ []
      started_at begun = rw begun refl

      passed_at : starts (file_verdict f) ≡ false → (visit_file f w).started ≡ w.started
      passed_at other = rw other refl

  module _ (done : ℕ → Bool) where
    open_started : (d : DirEntry) (w : Walk) → (open_dir done excluded d w).0.started ≡ w.started
    unfolding open_dir
    open_started d w = ground arith

    open_skip :
        (d : DirEntry) (w : Walk)
        → (open_dir done excluded d w).1 ≡ skip
        → skips_dir excluded d ≡ true
    unfolding open_dir
    open_skip d w e = ground arith

    open_into :
        (d : DirEntry) (w : Walk)
        → (open_dir done excluded d w).1 ≡ into
        → skips_dir excluded d ≡ false
    unfolding open_dir
    open_into d w e = ground arith

    dir_Front :
        (d : DirEntry) (before inside : List Text) (opened : Walk × DirStep) (r : Walk × Bool)
        → opened.0.started ≡ before
        → (opened.1 ≡ skip → skips_dir excluded d ≡ true)
        → (opened.1 ≡ into → skips_dir excluded d ≡ false)
        → Front opened.0.started inside r
        → Front before (if skips_dir excluded d then [] else inside) (after_dir opened r)
    dir_Front d before inside (w, stop) r same out inner a =
        rw (← same) (stopped w (if skips_dir excluded d then [] else inside))
    dir_Front d before inside (w, skip) r same out inner a =
        rw (out refl, ← same) (record { more = []; split = refl; finished = λ e. refl })
    dir_Front d before inside (w, into) r same out inner a = rw (inner refl, ← same) a

    walk-Front : (t : Tree) (w : Walk) → Front w.started (wanted t) (walk done excluded t w)
    unfolding walk wanted
    walk-Front empty w = record { more = []; split = refl; finished = λ e. refl }
    walk-Front (file f siblings) w = elim (Bool-cases (done w.calls)) [
      | inl out ↦ rw out (stopped w (wanted (file f siblings)))
      | inr on ↦ rw on (
          file_Front w (wanted siblings) f (walk done excluded siblings (visit_file f w))
            (walk-Front siblings (visit_file f w)))
    ]
    walk-Front (unreadable path siblings) w = elim (Bool-cases (done w.calls)) [
      | inl out ↦ rw out (stopped w (wanted siblings))
      | inr on ↦ rw on (walk-Front siblings _)
    ]
    walk-Front (dir d entries siblings) w =
        let opened = open_dir done excluded d w in
        let inside = walk done excluded entries opened.0 in
        let left =
          dir_Front d w.started (wanted entries) opened inside (open_started d w) (open_skip d w)
            (open_into d w) (walk-Front entries opened.0) in
        after_Front w.started (if skips_dir excluded d then [] else wanted entries)
          (wanted siblings) (after_dir opened inside)
          (walk done excluded siblings (after_dir opened inside).0) left
          (walk-Front siblings (after_dir opened inside).0)

    -- Wherever it is cancelled, the walk has started the front of the files that are to be
    -- indexed, in their order, and all of them where it was not cancelled.
    pub walk-wanted :
        (t : Tree) (w : Walk)
        → (more : List Text) × ((walk done excluded t w).0.started ++ more ≡ w.started ++ wanted t)
          × (((walk done excluded t w).1 ≡ false) ⊎ (more ≡ []))
    walk-wanted t w =
        let front = walk-Front t w in
        (
          front.more,
          front.split,
          elim (Bool-cases (walk done excluded t w).1) [
            | inl on ↦ inr (front.finished on)
            | inr out ↦ inl out
          ],
        )

count_done-one :
    (is_ok : Bool) (stats : Stats)
    → (count_done is_ok stats).indexed + (count_done is_ok stats).errors
      ≡ suc (stats.indexed + stats.errors)
count_done-one true stats = omega arith
count_done-one false stats = omega arith

-- Every file that was given to the workers is counted once, as indexed or as an error, whatever
-- `IndexFile` does.
pub work-accounts :
    {S : Type 0} (index_file : S → Text → S × Bool) (paths : List Text) (s : S) (stats : Stats)
    → (work index_file paths s stats).1.indexed + (work index_file paths s stats).1.errors
      ≡ stats.indexed + stats.errors + length paths
unfolding work
work-accounts index_file [] s stats = omega arith
work-accounts index_file (path ∷ paths) s stats =
    let (s1, is_ok) = index_file s path in
    omega (
      arith,
      work-accounts index_file paths s1 (count_done is_ok stats),
      count_done-one is_ok stats,
    )
