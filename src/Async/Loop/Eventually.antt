-- ===== src/Async/Loop/Eventually.antt =====
-- When an `Eventually` succeeds.
use gomega.Base.Int.{ℤ, pos, negsuc, is_num}
use gomega.Base.{
  ℕ, zero, suc, ◌+◌, ◌≤◌, ◌≡◌, ◌≢◌, refl, Bool, true, false, none, some, List, [], ◌∷◌, All, take,
  replicate, arith, Bool-cases, is_some, ◌⊎◌, ◌==◌, inl, inr, ◌∙◌, sym,
}
use gomega.Async.{eventually, Config, after_polling}
use gomega.Async.Loop.{
  Env, State, finished, waits, Outcome, succeeded, Event, poll_due, context_done, timeout_due,
  at_timeout, settle_wait, check, Result, loop, match_async, try_again_delay,
}
use gomega.Async.Loop.Steps.{
  Check-cases, loop-finished, loop-poll_due, loop-context_done, loop-timeout_due, loop-nil,
}
use gomega.Async.Loop.Verdicts.{verdicts, history-verdicts}
use gomega.Async.Loop.Grades.{
  Grade, stop, pass, again, miss, grade, polled, history, polled-suc, match_async-loop, check-grade,
  IsPatient, polled-IsPatient, streak, counted, take-streak, streak_of_take, decide_grade,
}

decide-succeeded :
    {A : Type 0} (c : Config) (s : State A) (n : ℕ) (g : Grade)
    → c.async_type ≡ eventually
    → decide_grade c s n eventually g ≡ finished succeeded
    → (g ≡ pass) × (is_num (suc n) c.must_pass_repeatedly ≡ true)
unfolding settle_wait
decide-succeeded c s n stop ev h = absurd (cc)
decide-succeeded c s n pass ev h = ground arith
decide-succeeded c s n again ev h = ground arith
decide-succeeded c s n miss ev h = ground arith

decide-waits :
    {A : Type 0} (c : Config) (s : State A) (gs : List Grade) (g : Grade) (p : ℕ) (b : Bool) (d : ℤ)
    → decide_grade c s (streak gs) eventually g ≡ waits p b d
    → (p ≡ streak (g ∷ gs)) × (g ≢ stop)
unfolding settle_wait streak
decide-waits c s gs stop p b d h = absurd (cc)
decide-waits c s gs pass p b d h = ground arith
decide-waits c s gs again p b d h = ground arith
decide-waits c s gs miss p b d h = ground arith

settle_wait-waits :
    {A : Type 0} (c : Config) (s : State A) (p : ℕ)
    → s.oracle_says_stop ≡ false
    → (b : Bool) × (d : ℤ) × (settle_wait c s p ≡ waits p b d)
unfolding settle_wait
settle_wait-waits c s p h = (
  is_some (try_again_delay s),
  elim (try_again_delay s) [ some d ↦ d | none ↦ after_polling c ],
  rw h,
)

-- A count that has not reached its goal either reaches it now or is carried on.
decide-progress :
    {A : Type 0} (c : Config) (s : State A) (gs : List Grade) (g : Grade) (m : ℕ)
    → c.must_pass_repeatedly ≡ pos (suc m)
    → s.oracle_says_stop ≡ false
    → streak gs ≤ m
    → g ≢ stop
    → (decide_grade c s (streak gs) eventually g ≡ finished succeeded)
      ⊎ ((b : Bool) × (d : ℤ) × (decide_grade c s (streak gs) eventually g
            ≡ waits (streak (g ∷ gs)) b d)
          × (streak (g ∷ gs) ≤ m))
unfolding streak
decide-progress c s gs stop m e o h n = absurd (n refl)
decide-progress c s gs pass m e o h n = elim (Bool-cases (streak gs == m)) [
  | inl q ↦ inl (ground arith)
  | inr q ↦
      let (b, d, w) = settle_wait-waits c s (suc (streak gs)) o in
      inr (b, d, ground (arith, w), ground arith)
]
decide-progress c s gs again m e o h n =
    let (b, d, w) = settle_wait-waits c s (streak gs) o in inr (b, d, w, h)
decide-progress c s gs miss m e o h n =
    let (b, d, w) = settle_wait-waits c s 0 o in inr (b, d, w, omega arith)

module _ {A : Type 0} (c : Config) (desired : Bool) (env : Env A)
    (ev : c.async_type ≡ eventually) where
  abbrev past : ℕ → List Grade
  past = history desired env

  abbrev NotStopped : List Grade → Type 0
  NotStopped = All (λ g. g ≢ stop)

  abbrev Sound : Result → Type 0
  Sound r =
      r.outcome ≡ some succeeded
      → (gs : List Grade) × (past r.polls ≡ pass ∷ gs)
        × (is_num (suc (streak gs)) c.must_pass_repeatedly ≡ true)
        × NotStopped (past r.polls)

  check-past :
      (k : ℕ)
      → check c desired (polled env (suc k)) (streak (past k))
        ≡ decide_grade c
            (polled env (suc k))
            (streak (past k))
            eventually
            (grade desired (polled env (suc k)))
  check-past k = check-grade c eventually desired (polled env (suc k)) (streak (past k)) ev

  finished-Sound :
      (k : ℕ) (o : Outcome)
      → NotStopped (past k)
      → check c desired (polled env (suc k)) (streak (past k)) ≡ finished o
      → Sound (record { outcome = some o; polls = suc k })
  unfolding history
  finished-Sound k o n h e =
      let (passed, count) =
        decide-succeeded c (polled env (suc k)) (streak (past k))
          (grade desired (polled env (suc k))) ev (sym (check-past k) ∙ ground (arith, h)) in
      (past k, ground (arith, passed), count, (λ st. cc (passed), n))

  waits_sound :
      (k p : ℕ) (b : Bool) (d : ℤ)
      → NotStopped (past k)
      → check c desired (polled env (suc k)) (streak (past k)) ≡ waits p b d
      → (p ≡ streak (past (suc k))) × NotStopped (past (suc k))
  unfolding history
  waits_sound k p b d n h =
      let (count, going) =
        decide-waits c (polled env (suc k)) (past k) (grade desired (polled env (suc k))) p b d
          (sym (check-past k) ∙ h) in
      (count, (going, n))

  loop-Sound :
      (evs : List Event) (k : ℕ)
      → NotStopped (past k)
      → Sound (loop c desired env evs (suc k) (polled env (suc k)) (streak (past k)))
  unfolding at_timeout
  loop-Sound [] k n = elim (Check-cases (check c desired (polled env (suc k)) (streak (past k)))) [
    | inl (o, e) ↦ rw (loop-finished c desired env [] (suc k) _ _ o e) (finished-Sound k o n e)
    | inr (p, b, d, e) ↦ rw (loop-nil c desired env (suc k) _ _ p b d e) (λ h. cc)
  ]
  loop-Sound (poll_due ∷ evs) k n =
      elim (Check-cases (check c desired (polled env (suc k)) (streak (past k)))) [
        | inl (o, e) ↦
            rw (loop-finished c desired env (poll_due ∷ evs) (suc k) _ _ o e)
              (finished-Sound k o n e)
        | inr (p, b, d, e) ↦
            let (count, still) = waits_sound k p b d n e in
            rw (loop-poll_due c desired env (suc k) _ _ p b d e evs, count, polled-suc env (suc k))
              (loop-Sound evs (suc k) still)
      ]
  loop-Sound (context_done ∷ evs) k n =
      elim (Check-cases (check c desired (polled env (suc k)) (streak (past k)))) [
        | inl (o, e) ↦
            rw (loop-finished c desired env (context_done ∷ evs) (suc k) _ _ o e)
              (finished-Sound k o n e)
        | inr (p, b, d, e) ↦ rw (loop-context_done c desired env (suc k) _ _ p b d e evs) (λ h. cc)
      ]
  loop-Sound (timeout_due ∷ evs) k n =
      elim (Check-cases (check c desired (polled env (suc k)) (streak (past k)))) [
        | inl (o, e) ↦
            rw (loop-finished c desired env (timeout_due ∷ evs) (suc k) _ _ o e)
              (finished-Sound k o n e)
        | inr (p, b, d, e) ↦
            rw (loop-timeout_due c desired env (suc k) _ _ p b d e evs, ev) (λ h. cc)
      ]

  is_num→eq : (n : ℕ) (z : ℤ) → is_num n z ≡ true → z ≡ pos n
  is_num→eq n (pos m) h = ground arith
  is_num→eq n (negsuc m) h = absurd (cc)

  match_async-counted :
      (evs : List Event)
      → (match_async c desired env evs).outcome ≡ some succeeded
      → let gs = history desired env (match_async c desired env evs).polls in
        (m : ℕ) × (rest : List Grade) × (c.must_pass_repeatedly ≡ pos (suc m))
        × (gs ≡ pass ∷ rest)
        × (take (suc m) (counted gs) ≡ replicate (suc m) pass)
        × NotStopped gs
  unfolding streak counted history
  match_async-counted evs h =
      let (gs, last, count, calm) =
        loop-Sound evs 0 tt (rw (match_async-loop c desired env evs) at h) in
      (
        streak gs,
        gs,
        is_num→eq (suc (streak gs)) c.must_pass_repeatedly count,
        rw (match_async-loop c desired env evs) last,
        rw (match_async-loop c desired env evs) (ground (arith, last, take-streak gs)),
        rw (match_async-loop c desired env evs) calm,
      )

  -- An Eventually that succeeds has made polls by whose verdicts none said StopTrying, the last one
  -- passed, and so did the last `mustPassRepeatedly` ones, not counting those that said
  -- TryAgainAfter. A verdict is that of the matcher, or, where the function returned an error, that
  -- of this error and of the error that the matcher returned when it was last asked.
  pub match_async-succeeded :
      (evs : List Event)
      → (match_async c desired env evs).outcome ≡ some succeeded
      → let gs = verdicts desired env (match_async c desired env evs).polls in
        (m : ℕ) × (rest : List Grade) × (c.must_pass_repeatedly ≡ pos (suc m))
        × (gs ≡ pass ∷ rest)
        × (take (suc m) (counted gs) ≡ replicate (suc m) pass)
        × NotStopped gs
  match_async-succeeded evs h =
      rw (← history-verdicts desired env (match_async c desired env evs).polls)
        (match_async-counted evs h)

  module _ (m : ℕ) (goal : c.must_pass_repeatedly ≡ pos (suc m)) (patient : IsPatient env) (l : ℕ)
      (calm : (i : ℕ) → i ≤ l → grade desired (polled env (suc i)) ≢ stop)
      (reached : suc m ≤ streak (past (suc l))) where
    progress :
        (n : ℕ)
        → n ≤ l
        → streak (past n) ≤ m
        → (decide_grade c
              (polled env (suc n))
              (streak (past n))
              eventually
              (grade desired (polled env (suc n)))
            ≡ finished succeeded)
          ⊎ ((b : Bool) × (d : ℤ) × (decide_grade c
                  (polled env (suc n))
                  (streak (past n))
                  eventually
                  (grade desired (polled env (suc n)))
                ≡ waits (streak (past (suc n))) b d)
              × (streak (past (suc n)) ≤ m))
    unfolding history
    progress n h low =
        decide-progress c (polled env (suc n)) (past n) (grade desired (polled env (suc n))) m goal
          (polled-IsPatient env (suc n) patient) low (calm n h)

    loop_complete :
        (k n : ℕ)
        → l ≡ k + n
        → streak (past n) ≤ m
        → (loop c desired env
            (replicate k poll_due)
            (suc n)
            (polled env (suc n))
            (streak (past n))).outcome
          ≡ some succeeded
    unfolding history
    loop_complete zero n e h = elim (progress n (omega arith) h) [
      | inl won ↦
          rw (loop-finished c desired env [] (suc n) _ _ succeeded (check-past n ∙ won)) refl
      | inr (b, d, w, low) ↦ absurd (ground (arith, reached, e))
    ]
    loop_complete (suc k) n e h = elim (progress n (omega arith) h) [
      | inl won ↦
          rw
            (loop-finished c desired env (poll_due ∷ replicate k poll_due) (suc n) _ _ succeeded
              (check-past n ∙ won))
            refl
      | inr (b, d, w, low) ↦
          rw
            (
              loop-poll_due c desired env (suc n) _ _ _ b d (check-past n ∙ w)
                  (replicate k poll_due),
              polled-suc env (suc n),
            )
            (loop_complete k (suc n) (omega arith) low)
    ]

  -- When the oracle never ends the assertion and none of k + 1 polls is graded StopTrying, an Eventually
  -- succeeds within these polls of a schedule without timeout if the last of them completes
  -- `mustPassRepeatedly` passes in a row, polls graded TryAgainAfter not counted. The grade of a poll
  -- whose function fails also reads the matcher's error of when it was last asked.
  pub match_async-reached :
      (m k : ℕ)
      → c.must_pass_repeatedly ≡ pos (suc m)
      → IsPatient env
      → ((i : ℕ) → i ≤ k → grade desired (polled env (suc i)) ≢ stop)
      → take (suc m) (counted (past (suc k))) ≡ replicate (suc m) pass
      → (match_async c desired env (replicate k poll_due)).outcome ≡ some succeeded
  unfolding streak history
  match_async-reached m k goal patient calm reached =
      rw (match_async-loop c desired env (replicate k poll_due)) (
        loop_complete m goal patient k calm (streak_of_take (suc m) (past (suc k)) reached) k 0
          (omega arith) (omega arith))
