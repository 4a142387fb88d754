-- ===== src/Async/Loop/Grades.antt =====
-- The polling loop read as a history of graded polls.
use gomega.Base.Int.{is_num}
use gomega.Base.{
  ℕ, zero, suc, ◌≤◌, ◌≡◌, ◌⊎◌, refl, Bool, true, false, ◌||◌, List, [], ◌∷◌, take, replicate, arith,
  if◌then◌else◌, is_some,
}
use gomega.Async.{AsyncType, eventually, consistently, Config}
use gomega.Async.Loop.{
  Env, State, unpolled, poll, Check, finished, succeeded, failed, told_to_stop, did_fail,
  told_to_stop_now, try_again_delay, is_passing, settle_wait, check, Event, loop, match_async,
}

-- What an iteration makes of the last poll by the loop's variables: a StopTrying signal, the desired
-- result, a TryAgainAfter signal, or none of these. An error of the matcher stays in the variables until
-- the matcher is asked again, so that a signal may be that of an earlier poll.
pub data Grade : Type 0 where
  stop pass again miss : Grade

module _ {A : Type 0} where
  unfoldable pub grade : Bool → State A → Grade
  grade desired s =
      if told_to_stop_now s
      then stop
      else if is_passing desired s
      then pass
      else if is_some (try_again_delay s)
      then again
      else miss

  -- The loop's variables after n polls.
  unfoldable pub polled : Env A → ℕ → State A
  polled env zero = unpolled
  polled env (suc n) = poll env n (polled env n)

  pub polled-suc : (env : Env A) (n : ℕ) → poll env n (polled env n) ≡ polled env (suc n)
  unfolding polled
  polled-suc env n = refl

  -- The grades of the first n polls, the last poll first.
  unfoldable pub history : Bool → Env A → ℕ → List Grade
  history desired env zero = []
  history desired env (suc n) = grade desired (polled env (suc n)) ∷ history desired env n

  -- `check` by grade.
  abbrev pub decide_grade : Config → State A → ℕ → AsyncType → Grade → Check
  decide_grade c s passed t stop = finished (failed told_to_stop)
  decide_grade c s passed eventually pass =
      if is_num (suc passed) c.must_pass_repeatedly
      then finished succeeded
      else settle_wait c s (suc passed)
  decide_grade c s passed consistently pass = settle_wait c s passed
  decide_grade c s passed t again = settle_wait c s passed
  decide_grade c s passed eventually miss = settle_wait c s 0
  decide_grade c s passed consistently miss = finished (failed did_fail)

  pub check-grade :
      (c : Config) (t : AsyncType) (desired : Bool) (s : State A) (passed : ℕ)
      → c.async_type ≡ t
      → check c desired s passed ≡ decide_grade c s passed t (grade desired s)
  unfolding check grade
  check-grade c eventually desired s passed e = ground arith
  check-grade c consistently desired s passed e = ground arith

  -- The oracle never ends the assertion: the actual is a function, or the result may always change.
  abbrev pub IsPatient : Env A → Type 0
  IsPatient env = (k : ℕ) (a : A) → (env.is_func || env.may_change k a) ≡ true

  pub polled-IsPatient :
      (env : Env A) (n : ℕ) → IsPatient env → (polled env n).oracle_says_stop ≡ false
  unfolding polled poll unpolled
  polled-IsPatient env zero h = refl
  polled-IsPatient env (suc n) h =
      ground (arith, polled-IsPatient env n h, h n (env.poll_actual n).0)

-- How many passes there are since the last miss, TryAgainAfter polls left out.
unfoldable pub streak : List Grade → ℕ
streak [] = 0
streak (pass ∷ gs) = suc (streak gs)
streak (again ∷ gs) = streak gs
streak (miss ∷ gs) = 0
streak (stop ∷ gs) = 0

-- The polls that count: all but those told to try again.
unfoldable pub counted : List Grade → List Grade
counted [] = []
counted (again ∷ gs) = counted gs
counted (pass ∷ gs) = pass ∷ counted gs
counted (miss ∷ gs) = miss ∷ counted gs
counted (stop ∷ gs) = stop ∷ counted gs

pub take-streak : (gs : List Grade) → take (streak gs) (counted gs) ≡ replicate (streak gs) pass
unfolding streak counted
take-streak [] = refl
take-streak (again ∷ gs) = take-streak gs
take-streak (pass ∷ gs) = rw (take-streak gs)
take-streak (miss ∷ gs) = refl
take-streak (stop ∷ gs) = refl

pub streak_of_take :
    (m : ℕ) (gs : List Grade) → take m (counted gs) ≡ replicate m pass → m ≤ streak gs
unfolding streak counted
streak_of_take zero gs h = omega arith
streak_of_take (suc m) [] h = absurd (cc)
streak_of_take (suc m) (again ∷ gs) h = streak_of_take (suc m) gs h
streak_of_take (suc m) (pass ∷ gs) h = ground (arith, streak_of_take m gs)
streak_of_take (suc m) (miss ∷ gs) h = absurd (cc)
streak_of_take (suc m) (stop ∷ gs) h = absurd (cc)

-- Neither a failure nor a StopTrying.
abbrev pub Holds : Grade → Type 0
Holds g = (g ≡ pass) ⊎ (g ≡ again)

pub match_async-loop :
    {A : Type 0} (c : Config) (desired : Bool) (env : Env A) (evs : List Event)
    → match_async c desired env evs
      ≡ loop c desired env evs 1 (polled env 1) (streak (history desired env 0))
unfolding match_async polled streak history
match_async-loop c desired env evs = refl
