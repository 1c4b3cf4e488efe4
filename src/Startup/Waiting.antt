-- ===== src/Startup/Waiting.antt =====
-- `waitForServer` of cmd/server/main.go ends, and what its result says.
use filesearch.Base.{
  ℕ, zero, suc, ◌+◌, ◌*◌, ◌≤◌, ◌<◌, ◌≡◌, ◌∙◌, refl, inl, inr, Bool, true, false, Bool-cases, ltb,
  ltb→lt, ltb-false→le, Option, some, arith,
}
use filesearch.Startup.{HttpAnswer, answers_ok, wait_for_server}

-- The times at which the server is asked, from a first one on, if none is the last.
pub data Asks (poll : ℕ → ℕ × Option HttpAnswer) : ℕ → ℕ → Type 0 where
  here : {t : ℕ} → Asks poll t t
  later : {now t : ℕ} → Asks poll (now + (poll now).0 + 100) t → Asks poll now t

module _ (poll : ℕ → ℕ × Option HttpAnswer) (deadline : ℕ) where
  -- The server answered in time, or at no time before the deadline.
  abbrev pub Tells : ℕ → Bool → Type 0
  Tells now true = (t : ℕ) × Asks poll now t × (t < deadline) × (answers_ok (poll t).1 ≡ true)
  Tells now false = (t : ℕ) → Asks poll now t → t < deadline → answers_ok (poll t).1 ≡ false

  Asks-le : (now t : ℕ) → Asks poll now t → now ≤ t
  Asks-le now t here = omega arith
  Asks-le now t (later a) = let h = Asks-le (now + (poll now).0 + 100) t a in omega arith

  Tells-later :
      (now : ℕ) (b : Bool)
      → answers_ok (poll now).1 ≡ false
      → Tells (now + (poll now).0 + 100) b
      → Tells now b
  Tells-later now true silent (t, a, before, answered) = (t, later a, before, answered)
  Tells-later now false silent told = by_time
    where
      by_time : (t : ℕ) → Asks poll now t → t < deadline → answers_ok (poll t).1 ≡ false
      by_time t here before = silent
      by_time t (later a) before = told t a before

  -- One wait_round: the deadline is over, the server answers, or the loop goes on.
  wait_round :
      (fuel now : ℕ)
      → (ltb now deadline ≡ false → wait_for_server poll deadline (suc fuel) now ≡ some false)
        × (ltb now deadline ≡ true
            → answers_ok (poll now).1 ≡ true
            → wait_for_server poll deadline (suc fuel) now ≡ some true)
        × (ltb now deadline ≡ true
            → answers_ok (poll now).1 ≡ false
            → wait_for_server poll deadline (suc fuel) now
              ≡ wait_for_server poll deadline fuel (now + (poll now).0 + 100))
  unfolding wait_for_server
  wait_round fuel now = (
    λ late. rw (wait_for_server, late) refl,
    λ early answered. rw (wait_for_server, early, answered) refl,
    λ early silent. rw (wait_for_server, early, silent) refl,
  )

  out_of_time : (now : ℕ) → ltb now deadline ≡ false → Tells now false
  out_of_time now late = λ t a before.
      let h = Asks-le now t a in let k = ltb-false→le now deadline late in ground arith

  -- Whatever the server answers and however long that takes, the loop ends, after at most one
  -- poll for each 100 ms up to the deadline and one more test; it returns true just where a poll
  -- before the deadline was answered with status 200.
  pub wait_for_server-Tells :
      (fuel now : ℕ)
      → deadline ≤ now + fuel * 100
      → (b : Bool) × (wait_for_server poll deadline (suc fuel) now ≡ some b) × Tells now b
  wait_for_server-Tells zero now enough =
      let late : ltb now deadline ≡ false = ground arith in
      (false, (wait_round zero now).0 late, out_of_time now late)
  wait_for_server-Tells (suc fuel) now enough = elim (Bool-cases (ltb now deadline)) [
    | inr late ↦ (false, (wait_round (suc fuel) now).0 late, out_of_time now late)
    | inl early ↦ elim (Bool-cases (answers_ok (poll now).1)) [
      | inl answered ↦ (
        true,
        (wait_round (suc fuel) now).1 early answered,
        (now, here, ltb→lt now deadline early, answered),
      )
      | inr silent ↦
          let (b, returned, told) =
            wait_for_server-Tells fuel (now + (poll now).0 + 100)
              (next now (poll now).0 fuel enough) in
          (b, (wait_round (suc fuel) now).2 early silent ∙ returned, Tells-later now b silent told)
    ]
  ]
    where
      next :
          (now taken fuel : ℕ)
          → deadline ≤ now + suc fuel * 100
          → deadline ≤ now + taken + 100 + fuel * 100
      next now taken fuel h = omega arith
