-- ===== src/Async/Loop/Endings.antt =====
-- Two ways in which the polling loop's end may surprise.
use gomega.Base.Int.{ℤ, below_one}
use gomega.Base.{ℕ, suc, ◌≡◌, ◌≢◌, Bool, true, Option, none, some, List, arith, ◌∙◌}
use gomega.Errors.{GoError, signal_of, is_stop_trying, is_try_again_after}
use gomega.Async.{eventually, Config}
use gomega.Async.Loop.{
  Env, State, poll, succeeded, Event, match_async, again_delay, told_to_stop_now, try_again_delay,
  is_passing,
}
use gomega.Async.Loop.Grades.{again, miss, grade, polled, polled-suc}
use gomega.Async.Loop.Eventually.{match_async-succeeded}

module _ {A : Type 0} (c : Config) (desired : Bool) (env : Env A) where
  -- An Eventually whose `mustPassRepeatedly` is below 1 never succeeds: the count of passes never
  -- equals it.
  pub match_async-below_one :
      (evs : List Event)
      → c.async_type ≡ eventually
      → below_one c.must_pass_repeatedly ≡ true
      → (match_async c desired env evs).outcome ≢ some succeeded
  match_async-below_one evs ev low h =
      let (m, _, must, _, _, _) = match_async-succeeded c desired env ev evs h in
      ground (arith, must, low)

module _ {A : Type 0} (env : Env A) (k : ℕ) (s : State A) where
  poll_error :
      (b : A) (err : GoError)
      → env.poll_actual k ≡ (b, some err)
      → ((poll env k s).actual_err ≡ some err) × ((poll env k s).matcher_err ≡ s.matcher_err)
  unfolding poll
  poll_error b err h = ground arith

  poll_matcher_error :
      (a : A) (m : Bool) (err : Option GoError)
      → env.poll_actual k ≡ (a, none)
      → env.match_value k a ≡ (m, err)
      → (poll env k s).matcher_err ≡ err
  unfolding poll
  poll_matcher_error a m err h1 h2 = ground arith

grade-stale :
    {A : Type 0} (desired : Bool) (s : State A) (again_err err : GoError) (d : ℤ)
    → s.actual_err ≡ some err
    → s.matcher_err ≡ some again_err
    → again_delay (some again_err) ≡ some d
    → signal_of (some err) ≡ none
    → (grade desired s ≡ again) × (grade desired (record s { matcher_err = none }) ≡ miss)
unfolding grade told_to_stop_now try_again_delay is_passing is_stop_trying is_try_again_after
grade-stale desired s again_err err d h1 h2 h3 h4 = (ground arith, ground arith)

-- After a poll whose matcher said TryAgainAfter, a poll whose function returns an ordinary error is
-- taken for another TryAgainAfter, since the matcher's old error is still there; without it the
-- poll is a miss.
pub stale_try_again :
    {A : Type 0} (desired : Bool) (env : Env A) (n : ℕ) (a b : A) (m : Bool)
    (again_err err : GoError) (d : ℤ)
    → env.poll_actual n ≡ (a, none)
    → env.match_value n a ≡ (m, some again_err)
    → again_delay (some again_err) ≡ some d
    → env.poll_actual (suc n) ≡ (b, some err)
    → signal_of (some err) ≡ none
    → (grade desired (polled env (suc (suc n))) ≡ again)
      × (grade desired (record (polled env (suc (suc n))) { matcher_err = none }) ≡ miss)
stale_try_again desired env n a b m again_err err d h1 h2 h3 h4 h5 =
    let (e, kept) = poll_error env (suc n) (polled env (suc n)) b err h4 in
    let old = poll_matcher_error env n (polled env n) a m (some again_err) h1 h2 in
    rw (← polled-suc env (suc n)) (
      grade-stale desired (poll env (suc n) (polled env (suc n))) again_err err d e
        (kept ∙ (rw (polled-suc env n) at old)) h3 h5)
