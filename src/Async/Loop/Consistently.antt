-- ===== src/Async/Loop/Consistently.antt =====
-- When a `Consistently` succeeds.
use gomega.Base.Int.{ℤ}
use gomega.Base.{
  ℕ, zero, suc, ◌+◌, ◌≤◌, ◌<◌, ◌≡◌, refl, Bool, true, false, none, some, List, [], ◌∷◌, ◌++◌, All,
  replicate, arith, is_some, inl, inr, sym, ◌∙◌,
}
use gomega.Async.{consistently, Config, after_polling}
use gomega.Async.Loop.{
  Env, State, finished, waits, Outcome, succeeded, failed, Event, poll_due, context_done,
  timeout_due, at_timeout, settle_wait, check, Result, loop, match_async, try_again_delay,
  is_passing, timed_out_trying_again, did_fail, told_to_stop,
}
use gomega.Async.Loop.Steps.{
  Check-cases, loop-finished, loop-poll_due, loop-context_done, loop-timeout_due, loop-nil,
}
use gomega.Async.Loop.Verdicts.{verdicts, history-verdicts}
use gomega.Async.Loop.Grades.{
  Grade, stop, pass, again, miss, grade, polled, history, polled-suc, match_async-loop, check-grade,
  IsPatient, polled-IsPatient, decide_grade, Holds, streak,
}

-- A wait knows whether the poll before it passed or was told to try again.
grade-again :
    {A : Type 0} (desired : Bool) (s : State A)
    → grade desired s ≡ again
    → is_some (try_again_delay s) ≡ true
unfolding grade
grade-again desired s h = ground arith

grade-pass :
    {A : Type 0} (desired : Bool) (s : State A)
    → grade desired s ≡ pass
    → is_some (try_again_delay s) ≡ false
unfolding grade is_passing try_again_delay
grade-pass desired s h = ground arith

-- What a schedule's end makes of the last poll.
abbrev pub last_outcome : Grade → Outcome
last_outcome pass = succeeded
last_outcome again = failed timed_out_trying_again
last_outcome miss = failed did_fail
last_outcome stop = failed told_to_stop

decide-finished :
    {A : Type 0} (c : Config) (s : State A) (n : ℕ) (g : Grade) (o : Outcome)
    → c.async_type ≡ consistently
    → decide_grade c s n consistently g ≡ finished o
    → o ≡ succeeded
    → Holds g
unfolding settle_wait
decide-finished c s n stop o co h e = absurd (cc)
decide-finished c s n pass o co h e = inl refl
decide-finished c s n again o co h e = inr refl
decide-finished c s n miss o co h e = absurd (cc)

decide-waits :
    {A : Type 0} (c : Config) (s : State A) (n p : ℕ) (g : Grade) (b : Bool) (d : ℤ)
    → decide_grade c s n consistently g ≡ waits p b d
    → Holds g × (b ≡ is_some (try_again_delay s))
unfolding settle_wait
decide-waits c s n p stop b d h = absurd (cc)
decide-waits c s n p pass b d h = (inl refl, ground arith)
decide-waits c s n p again b d h = (inr refl, ground arith)
decide-waits c s n p miss b d h = absurd (cc)

decide-Holds :
    {A : Type 0} (c : Config) (s : State A) (n : ℕ) (g : Grade)
    → s.oracle_says_stop ≡ false
    → Holds g
    → (p : ℕ) × (d : ℤ) × (decide_grade c s n consistently g
        ≡ waits p (is_some (try_again_delay s)) d)
unfolding settle_wait
decide-Holds c s n stop o h = absurd (ground arith)
decide-Holds c s n pass o h =
    (n, elim (try_again_delay s) [ some d ↦ d | none ↦ after_polling c ], rw o)
decide-Holds c s n again o h =
    (n, elim (try_again_delay s) [ some d ↦ d | none ↦ after_polling c ], rw o)
decide-Holds c s n miss o h = absurd (ground arith)

module _ {A : Type 0} (c : Config) (desired : Bool) (env : Env A)
    (co : c.async_type ≡ consistently) where
  abbrev past : ℕ → List Grade
  past = history desired env

  abbrev at : ℕ → Grade
  at n = grade desired (polled env (suc n))

  check-past :
      (n p : ℕ)
      → check c desired (polled env (suc n)) p
        ≡ decide_grade c (polled env (suc n)) p consistently (at n)
  check-past n p = check-grade c consistently desired (polled env (suc n)) p co

  abbrev Sound : Result → Type 0
  Sound r = r.outcome ≡ some succeeded → All Holds (past r.polls)

  finished-Sound :
      (k p : ℕ) (o : Outcome)
      → All Holds (past k)
      → check c desired (polled env (suc k)) p ≡ finished o
      → Sound (record { outcome = some o; polls = suc k })
  unfolding history
  finished-Sound k p o n h e = (
    decide-finished c (polled env (suc k)) p (at k) o co (sym (check-past k p) ∙ h) (ground arith),
    n,
  )

  waits_sound :
      (k p q : ℕ) (b : Bool) (d : ℤ)
      → All Holds (past k)
      → check c desired (polled env (suc k)) p ≡ waits q b d
      → All Holds (past (suc k))
  unfolding history
  waits_sound k p q b d n h =
      ((decide-waits c (polled env (suc k)) p q (at k) b d (sym (check-past k p) ∙ h)).0, n)

  loop-Sound :
      (evs : List Event) (k p : ℕ)
      → All Holds (past k)
      → Sound (loop c desired env evs (suc k) (polled env (suc k)) p)
  loop-Sound [] k p n = elim (Check-cases (check c desired (polled env (suc k)) p)) [
    | inl (o, e) ↦ rw (loop-finished c desired env [] (suc k) _ _ o e) (finished-Sound k p o n e)
    | inr (q, b, d, e) ↦ rw (loop-nil c desired env (suc k) _ _ q b d e) (λ h. cc)
  ]
  loop-Sound (poll_due ∷ evs) k p n = elim (Check-cases (check c desired (polled env (suc k)) p)) [
    | inl (o, e) ↦
        rw (loop-finished c desired env (poll_due ∷ evs) (suc k) _ _ o e) (finished-Sound k p o n e)
    | inr (q, b, d, e) ↦
        rw (loop-poll_due c desired env (suc k) _ _ q b d e evs, polled-suc env (suc k))
          (loop-Sound evs (suc k) q (waits_sound k p q b d n e))
  ]
  loop-Sound (context_done ∷ evs) k p n =
      elim (Check-cases (check c desired (polled env (suc k)) p)) [
        | inl (o, e) ↦
            rw (loop-finished c desired env (context_done ∷ evs) (suc k) _ _ o e)
              (finished-Sound k p o n e)
        | inr (q, b, d, e) ↦ rw (loop-context_done c desired env (suc k) _ _ q b d e evs) (λ h. cc)
      ]
  loop-Sound (timeout_due ∷ evs) k p n =
      elim (Check-cases (check c desired (polled env (suc k)) p)) [
        | inl (o, e) ↦
            rw (loop-finished c desired env (timeout_due ∷ evs) (suc k) _ _ o e)
              (finished-Sound k p o n e)
        | inr (q, b, d, e) ↦
            rw (loop-timeout_due c desired env (suc k) _ _ q b d e evs)
              (λ h. waits_sound k p q b d n e)
      ]

  history-Holds :
      (evs : List Event)
      → (match_async c desired env evs).outcome ≡ some succeeded
      → All Holds (history desired env (match_async c desired env evs).polls)
  unfolding history
  history-Holds evs h =
      rw (match_async-loop c desired env evs)
        (loop-Sound evs 0 (streak []) tt (rw (match_async-loop c desired env evs) at h))

  -- A Consistently that succeeds has made only polls whose verdict is that they passed or said
  -- TryAgainAfter. A verdict is that of the matcher, or, where the function returned an error, that
  -- of this error and of the error that the matcher returned when it was last asked.
  pub match_async-Holds :
      (evs : List Event)
      → (match_async c desired env evs).outcome ≡ some succeeded
      → All Holds (verdicts desired env (match_async c desired env evs).polls)
  match_async-Holds evs h =
      rw (← history-verdicts desired env (match_async c desired env evs).polls)
        (history-Holds evs h)

  abbrev until_timeout : ℕ → List Event
  until_timeout k = replicate k poll_due ++ timeout_due ∷ []

  at_timeout-last :
      (n : ℕ)
      → Holds (at n)
      → at_timeout consistently (is_some (try_again_delay (polled env (suc n))))
        ≡ last_outcome (at n)
  unfolding at_timeout
  at_timeout-last n (inl h) = rw (grade-pass desired (polled env (suc n)) h, h)
  at_timeout-last n (inr h) = rw (grade-again desired (polled env (suc n)) h, h)

  loop_timeout :
      (k n p l : ℕ)
      → IsPatient env
      → l ≡ k + n
      → ((i : ℕ) → i ≤ l → Holds (at i))
      → loop c desired env (until_timeout k) (suc n) (polled env (suc n)) p
        ≡ record { outcome = some (last_outcome (at l)); polls = suc l }
  loop_timeout zero n p l patient e h =
      let same_poll : l ≡ n = omega arith in
      let (q, d, w) =
        decide-Holds c (polled env (suc n)) p (at n) (polled-IsPatient env (suc n) patient)
          (h n (omega arith)) in
      loop-timeout_due c desired env (suc n) _ p q _ d (check-past n p ∙ w) []
      ∙ cc (co, at_timeout-last n (h n (omega arith)), same_poll)
  loop_timeout (suc k) n p l patient e h =
      let (q, d, w) =
        decide-Holds c (polled env (suc n)) p (at n) (polled-IsPatient env (suc n) patient)
          (h n (omega arith)) in
      rw
        (
          loop-poll_due c desired env (suc n) _ p q _ d (check-past n p ∙ w) (until_timeout k),
          polled-suc env (suc n),
        )
        (loop_timeout k (suc n) q l patient (omega arith) h)

  -- When the oracle never ends the assertion and every poll up to the timeout is graded as a pass or a
  -- TryAgainAfter, a Consistently succeeds if the last one is a pass, and fails with "Timed out while
  -- waiting on TryAgainAfter" if not. The grade of a poll whose function fails also reads the
  -- matcher's error of when it was last asked.
  pub match_async-timeout :
      (k : ℕ)
      → IsPatient env
      → ((i : ℕ) → i ≤ k → Holds (at i))
      → match_async c desired env (until_timeout k)
        ≡ record { outcome = some (last_outcome (at k)); polls = suc k }
  match_async-timeout k patient h =
      match_async-loop c desired env (until_timeout k)
      ∙ loop_timeout k 0 (streak (history desired env 0)) k patient (omega arith) h

  decide-bad :
      (n p : ℕ)
      → ¬ Holds (at n)
      → check c desired (polled env (suc n)) p ≡ finished (last_outcome (at n))
  decide-bad n p h = rw (check-past n p) (bad (at n) h)
    where
      bad :
          (g : Grade)
          → ¬ Holds g
          → decide_grade c (polled env (suc n)) p consistently g ≡ finished (last_outcome g)
      bad stop _ = refl
      bad pass k = absurd (k (inl refl))
      bad again k = absurd (k (inr refl))
      bad miss _ = refl

  loop_bad :
      (k n p l : ℕ) (rest : List Event)
      → IsPatient env
      → l ≡ k + n
      → ((i : ℕ) → i < l → Holds (at i))
      → ¬ Holds (at l)
      → loop c desired env (replicate k poll_due ++ rest) (suc n) (polled env (suc n)) p
        ≡ record { outcome = some (last_outcome (at l)); polls = suc l }
  loop_bad zero n p l rest patient e h bad =
      let same_poll : l ≡ n = omega arith in
      rw same_poll
        (loop-finished c desired env rest (suc n) _ p _ (decide-bad n p (rw same_poll at bad)))
  loop_bad (suc k) n p l rest patient e h bad =
      let (q, d, w) =
        decide-Holds c (polled env (suc n)) p (at n) (polled-IsPatient env (suc n) patient)
          (h n (omega arith)) in
      rw
        (
          loop-poll_due c desired env (suc n) _ p q _ d (check-past n p ∙ w)
              (replicate k poll_due ++ rest),
          polled-suc env (suc n),
        )
        (loop_bad k (suc n) q l rest patient (omega arith) h bad)

  -- When the oracle never ends the assertion, the first poll graded as neither a pass nor
  -- a TryAgainAfter ends a Consistently at once, as failed or as told to stop, whatever would follow.
  pub match_async-bad :
      (k : ℕ) (rest : List Event)
      → IsPatient env
      → ((i : ℕ) → i < k → Holds (at i))
      → ¬ Holds (at k)
      → match_async c desired env (replicate k poll_due ++ rest)
        ≡ record { outcome = some (last_outcome (at k)); polls = suc k }
  match_async-bad k rest patient h bad =
      match_async-loop c desired env (replicate k poll_due ++ rest)
      ∙ loop_bad k 0 (streak (history desired env 0)) k rest patient (omega arith) h bad
