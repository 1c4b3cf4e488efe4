-- ===== src/Watcher/Reached.antt =====
-- The states that the event loop of internal/watcher/watcher.go reaches, and what becomes of a change.
use filesearch.Base.{
  ◌≡◌, ◌≢◌, refl, inl, inr, Bool, true, false, ◌&&◌, ◌||◌, Bool-cases, some, List, [], ◌∷◌, Text,
  text_eq, text_eq_iff, text_eq_refl, member, lookup, lookup-insert, if◌then◌else◌, not, Option,
  none, sym, ap, ◌∙◌, subst, clean_path, arith,
}
use filesearch.Base.Result.{Result}
use filesearch.Cache.{Cache}
use filesearch.Watcher.{
  Event, Loop, on_event, on_timer, flush, deleted_paths, changed_paths, is_supported_ext,
}

lookup_filled : (path : Text) (d : Bool) (p : List (Text × Bool)) → lookup path p ≡ some d → p ≢ []
unfolding lookup
lookup_filled path d [] found e = ground arith
lookup_filled path d (b ∷ p) found e = ground arith

-- A path of a batch is in the list that its flag names.
abbrev pub IsListed : Text → Bool → List (Text × Bool) → Type 0
IsListed path true p = member path (deleted_paths p) ≡ true
IsListed path false p = member path (changed_paths p) ≡ true

IsListed-cons :
    (path j : Text) (b d : Bool) (p : List (Text × Bool))
    → IsListed path d p
    → IsListed path d ((j, b) ∷ p)
IsListed-cons path j true true p h = rw h (or_true (text_eq path j))
  where
    or_true : (t : Bool) → (t || true) ≡ true
    or_true true = refl
    or_true false = refl
IsListed-cons path j true false p h = h
IsListed-cons path j false true p h = h
IsListed-cons path j false false p h = rw h (or_true (text_eq path j))
  where
    or_true : (t : Bool) → (t || true) ≡ true
    or_true true = refl
    or_true false = refl

IsListed-head : (path : Text) (d : Bool) (p : List (Text × Bool)) → IsListed path d ((path, d) ∷ p)
IsListed-head path true p = rw (text_eq_refl path) refl
IsListed-head path false p = rw (text_eq_refl path) refl

lookup-IsListed :
    (path : Text) (d : Bool) (p : List (Text × Bool)) → lookup path p ≡ some d → IsListed path d p
unfolding lookup
lookup-IsListed path d [] found = ground arith
lookup-IsListed path d ((j, b) ∷ p) found = elim (Bool-cases (text_eq j path)) [
  | inl e ↦
      let same = (text_eq_iff j path).0 e in
      let flag : b ≡ d = ground arith in rw (same, flag) (IsListed-head path d p)
  | inr ne ↦ IsListed-cons path j b d p (lookup-IsListed path d p (rw ne at found))
]

-- An event is about a path: a change of a name that is no new directory, with an extension that is
-- watched.
abbrev pub is_about : Text → Event → Bool
is_about path e =
    not (e.is_create && e.is_dir)
    && (is_supported_ext (clean_path e.name) && text_eq (clean_path e.name) path)

-- What the last event about a path said: that it is gone, or that it is there.
abbrev pub last_said : Text → List Event → Option Bool
last_said path [] = none
last_said path (e ∷ events) =
    let before = last_said path events in
    if is_about path e then some (e.is_remove || e.is_rename) else before

module _ {S : Type 0} (delete index_file : S → Text → Result S) where
  -- An event may come at any time, the timer goes off where it runs.
  pub data Step : Loop × S × Cache → Loop × S × Cache → Type 0 where
    event : (e : Event) {w : Loop} {s : S} {c : Cache} → Step (w, s, c) (on_event e w, s, c)
    timer :
        {w : Loop} {s : S} {c : Cache}
        → w.is_armed ≡ true
        → Step (w, s, c) (on_timer delete index_file w (s, c))

  -- The events that the step adds to those since the timer went off, the last one first.
  abbrev pub heard : {x y : Loop × S × Cache} → Step x y → List Event → List Event
  heard (event e) events = e ∷ events
  heard (timer armed) events = []

  -- From an empty batch and a timer that does not run, with the events since the timer went off.
  pub data Reached : List Event → Loop × S × Cache → Type 0 where
    start :
        (watched : List Text) {s : S} {c : Cache}
        → Reached [] (record { pending = []; is_armed = false; watched = watched }, s, c)
    next :
        {events : List Event} {x y : Loop × S × Cache} (after : List Event)
        → Reached events x
        → (step : Step x y) → after ≡ heard step events
        → Reached after y

  -- A batch that is not empty has its timer running.
  abbrev HasTimer : Loop → Type 0
  HasTimer w = w.pending ≢ [] → w.is_armed ≡ true

  on_event-HasTimer : (e : Event) (w : Loop) → HasTimer w → HasTimer (on_event e w)
  unfolding on_event
  on_event-HasTimer e w h = elim (Bool-cases (e.is_create && e.is_dir)) [
    | inl dir ↦ rw (on_event, dir) h
    | inr other ↦ elim (Bool-cases (is_supported_ext (clean_path e.name))) [
      | inl file ↦ rw (on_event, other, file) (λ filled. refl)
      | inr passed ↦ rw (on_event, other, passed) h
    ]
  ]

  -- After the timer the batch is empty.
  on_timer_pending :
      (w : Loop) (s : S) (c : Cache) → (on_timer delete index_file w (s, c)).0.pending ≡ []
  unfolding on_timer
  on_timer_pending w s c = by_batch w.pending refl
    where
      by_batch :
          (p : List (Text × Bool))
          → w.pending ≡ p
          → (on_timer delete index_file w (s, c)).0.pending ≡ []
      by_batch [] e = rw (on_timer, e) refl
      by_batch (b ∷ p) e = rw (on_timer, e) refl

  Step-HasTimer : (x y : Loop × S × Cache) → Step x y → HasTimer x.0 → HasTimer y.0
  Step-HasTimer x y (event e {w}) h = on_event-HasTimer e w h
  Step-HasTimer x y (timer {w} {s} {c} armed) h = λ filled. absurd (filled (on_timer_pending w s c))

  Reached-HasTimer : (events : List Event) (x : Loop × S × Cache) → Reached events x → HasTimer x.0
  Reached-HasTimer events x (start watched) = λ filled. absurd (filled refl)
  Reached-HasTimer after y (next {events} {x} _ r step e) =
      Step-HasTimer x y step (Reached-HasTimer events x r)

  -- The batch has what the events said.
  abbrev Holds : List Event → Loop → Type 0
  Holds events w = (path : Text) → lookup path w.pending ≡ last_said path events

  on_event-Holds :
      (e : Event) (events : List Event) (w : Loop)
      → Holds events w
      → Holds (e ∷ events) (on_event e w)
  unfolding on_event
  on_event-Holds e events w h path =
      ground (
        arith,
        h path,
        lookup-insert (clean_path e.name) path (e.is_remove || e.is_rename) w.pending,
      )

  Step-Holds :
      (events : List Event) (x y : Loop × S × Cache) (step : Step x y)
      → Holds events x.0
      → Holds (heard step events) y.0
  unfolding lookup
  Step-Holds events x y (event e {w}) h = on_event-Holds e events w h
  Step-Holds events x y (timer {w} {s} {c} armed) h =
      λ path. ap (lookup path) (on_timer_pending w s c)

  Reached-Holds : (events : List Event) (x : Loop × S × Cache) → Reached events x → Holds events x.0
  unfolding lookup
  Reached-Holds events x (start watched) = λ path. refl
  Reached-Holds after y (next {events} {x} _ r step e) =
      subst (λ l. Holds l y.0) (sym e) (Step-Holds events x y step (Reached-Holds events x r))

  -- In every state that the loop reaches, a path that an event since the timer last went off was
  -- about has the timer running: the timer may go off then, and when it does, the path is among
  -- those that are flushed, deleted where the last such event was a removal or a renaming and
  -- indexed otherwise, on the database and the cache of that state, and the batch is empty after.
  -- An event is about a path with a watched extension that is no new directory.
  pub Reached-flushed :
      (events : List Event) (w : Loop) (s : S) (c : Cache) (path : Text) (d : Bool)
      → Reached events (w, s, c)
      → last_said path events ≡ some d
      → Step (w, s, c) (on_timer delete index_file w (s, c))
        × IsListed path d w.pending
        × ((on_timer delete index_file w (s, c)).1 ≡ (flush delete index_file w.pending (s, c)).0)
        × ((on_timer delete index_file w (s, c)).2 ≡ (flush delete index_file w.pending (s, c)).1)
        × ((on_timer delete index_file w (s, c)).0.pending ≡ [])
  unfolding on_timer
  Reached-flushed events w s c path d r said =
      let found : lookup path w.pending ≡ some d = Reached-Holds events (w, s, c) r path ∙ said in
      let armed = Reached-HasTimer events (w, s, c) r (lookup_filled path d w.pending found) in
      let (same, same_2) = flushed found w.pending refl in
      (timer armed, lookup-IsListed path d w.pending found, same, same_2, on_timer_pending w s c)
    where
      flushed :
          lookup path w.pending ≡ some d
          → (p : List (Text × Bool)) → w.pending ≡ p
          → ((on_timer delete index_file w (s, c)).1 ≡ (flush delete index_file w.pending (s, c)).0)
            × ((on_timer delete index_file w (s, c)).2
                ≡ (flush delete index_file w.pending (s, c)).1)
      flushed found [] e = absurd (lookup_filled path d w.pending found e)
      flushed found (b ∷ p) e = rw (on_timer, e) (refl, refl)
