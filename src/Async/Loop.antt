-- ===== src/Async/Loop.antt =====
-- internal/async_assertion.go: the polling loop of `match`. Polls are numbered from 0. What the
-- polled function and the matcher do at each poll is the environment's choice, and so is the case
-- of each `select`, given as a schedule. A panic that the poller passes on leaves the loop and is
-- not modelled here.
pub mod Steps
pub mod Grades
pub mod Verdicts
pub mod Endings
pub mod Eventually
pub mod Consistently
use gomega.Base.Int.{ℤ, is_num}
use gomega.Base.{
  ℕ, zero, suc, Bool, true, false, not, ◌&&◌, ◌||◌, Option, none, some, List, [], ◌∷◌,
  if◌then◌else◌, is_none, is_some, same,
}
use gomega.Errors.{
  Signal, GoError, as_polling_signal_error, signal_of, is_stop_trying, is_try_again_after,
}
use gomega.Async.{AsyncType, eventually, consistently, Config, after_polling}

pub record Env (A : Type 0) : Type 0 where
  -- `actualIsFunc`.
  pub is_func : Bool
  -- pollActual at each poll.
  pub poll_actual : ℕ → A × Option GoError
  -- types.MatchMayChangeInTheFuture for the matcher at each poll.
  pub may_change : ℕ → A → Bool
  -- pollMatcher at each poll: the matcher's result, with a signal that it panicked as its error.
  pub match_value : ℕ → A → Bool × Option GoError

-- The variables that outlive an iteration, less the count of passes.
pub record State (A : Type 0) : Type 0 where
  pub actual : Option A
  pub actual_err : Option GoError
  pub last_valid : Option A
  pub oracle_says_stop : Bool
  pub matches : Bool
  pub matcher_err : Option GoError

unfoldable pub matcher_says_stop : {A : Type 0} → Env A → ℕ → A → Bool
matcher_says_stop env k a = not (env.is_func || env.may_change k a)

unfoldable pub unpolled : {A : Type 0} → State A
unpolled = record {
  actual = none;
  actual_err = none;
  last_valid = none;
  oracle_says_stop = false;
  matches = false;
  matcher_err = none;
}

module _ {A : Type 0} where
  -- What one poll writes. After an error of the function the matcher is not asked, and its last
  -- result and error stay.
  unfoldable pub poll : Env A → ℕ → State A → State A
  unfolding matcher_says_stop
  poll env k s =
      let (a, e) = env.poll_actual k in
      elim e [
        | some err ↦ record s { actual = some a; actual_err = some err }
        | none ↦
            let (m, merr) = env.match_value k a in
            record {
              actual = some a;
              actual_err = none;
              last_valid = some a;
              oracle_says_stop = matcher_says_stop env k a;
              matches = m;
              matcher_err = merr;
            }
      ]

pub data Reason : Type 0 where
  told_to_stop did_fail no_future_change : Reason
  context_cancelled timed_out timed_out_trying_again : Reason

pub data Outcome : Type 0 where
  succeeded : Outcome
  failed : Reason → Outcome

-- An iteration ends the assertion, or waits in `select` with a pass count, `isTryAgainAfterError`
-- and the delay before the next poll.
pub data Check : Type 0 where
  finished : Outcome → Check
  waits : ℕ → Bool → ℤ → Check

unfoldable pub says_stop : Option GoError → Bool
unfolding signal_of
says_stop e = elim (signal_of e) [ none ↦ false | some s ↦ is_stop_trying s ]

unfoldable pub again_delay : Option GoError → Option ℤ
unfolding signal_of
again_delay e = elim (signal_of e) [
  | none ↦ none
  | some s ↦ if is_try_again_after s then some s.duration else none
]

module _ {A : Type 0} where
  unfoldable pub told_to_stop_now : State A → Bool
  unfolding says_stop
  told_to_stop_now s = says_stop s.actual_err || says_stop s.matcher_err

  -- `nextPoll` after the loop over both errors: the matcher's delay overrides the function's.
  unfoldable pub try_again_delay : State A → Option ℤ
  unfolding again_delay
  try_again_delay s =
      if is_some (again_delay s.matcher_err)
      then again_delay s.matcher_err
      else again_delay s.actual_err

  unfoldable pub is_passing : Bool → State A → Bool
  is_passing desired s = is_none s.actual_err && is_none s.matcher_err && same s.matches desired

  -- From the oracle's test to the `select`.
  unfoldable pub settle_wait : Config → State A → ℕ → Check
  settle_wait c s passed =
      if s.oracle_says_stop
      then finished
          (elim c.async_type [ eventually ↦ failed no_future_change | consistently ↦ succeeded ])
      else waits passed (is_some (try_again_delay s))
          (elim (try_again_delay s) [ some d ↦ d | none ↦ after_polling c ])

  -- One iteration of the loop, up to the `select`.
  unfoldable pub check : Config → Bool → State A → ℕ → Check
  unfolding settle_wait
  check c desired s passed =
      if told_to_stop_now s
      then finished (failed told_to_stop)
      else if is_passing desired s
      then elim c.async_type [
        | eventually ↦
            if is_num (suc passed) c.must_pass_repeatedly
            then finished succeeded
            else settle_wait c s (suc passed)
        | consistently ↦ settle_wait c s passed
      ]
      else if is_some (try_again_delay s)
      then settle_wait c s passed
      else elim c.async_type [
        | eventually ↦ settle_wait c s 0
        | consistently ↦ finished (failed did_fail)
      ]

pub data Event : Type 0 where
  poll_due context_done timeout_due : Event

unfoldable pub at_timeout : AsyncType → Bool → Outcome
at_timeout eventually again = failed timed_out
at_timeout consistently true = failed timed_out_trying_again
at_timeout consistently false = succeeded

-- `none` where the schedule ends in the `select`; with the number of polls made.
pub record Result : Type 0 where
  pub outcome : Option Outcome
  pub polls : ℕ

module _ {A : Type 0} (c : Config) (desired : Bool) (env : Env A) where
  -- The loop once `k` polls are made.
  unfoldable pub loop : List Event → ℕ → State A → ℕ → Result
  unfolding at_timeout
  loop [] k s passed = elim (check c desired s passed) [
    | finished o ↦ record { outcome = some o; polls = k }
    | waits p again d ↦ record { outcome = none; polls = k }
  ]
  loop (poll_due ∷ evs) k s passed = elim (check c desired s passed) [
    | finished o ↦ record { outcome = some o; polls = k }
    | waits p again d ↦ loop evs (suc k) (poll env k s) p
  ]
  loop (context_done ∷ evs) k s passed = elim (check c desired s passed) [
    | finished o ↦ record { outcome = some o; polls = k }
    | waits p again d ↦ record { outcome = some (failed context_cancelled); polls = k }
  ]
  loop (timeout_due ∷ evs) k s passed = elim (check c desired s passed) [
    | finished o ↦ record { outcome = some o; polls = k }
    | waits p again d ↦ record { outcome = some (at_timeout c.async_type again); polls = k }
  ]

  -- `match`, once buildActualPoller has given a poller.
  unfoldable pub match_async : List Event → Result
  match_async evs = loop evs 1 (poll env 0 unpolled) 0
