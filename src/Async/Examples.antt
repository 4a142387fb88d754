-- ===== src/Async/Examples.antt =====
-- Tests of the polling loop, and its theorems at concrete inputs.
use gomega.Base.Int.{pos, negsuc}
use gomega.Base.{
  ℕ, zero, suc, ◌≤◌, ◌≡◌, ◌≢◌, refl, inl, true, false, none, some, List, [], ◌∷◌, All, arith, leb,
  ltb, if◌then◌else◌, ◌==◌, take, replicate,
}
use gomega.Errors.{GoError, plain, signal, try_again_error}
use gomega.Async.{Config, AsyncType, eventually, consistently, DurationBundle, after_polling}
use gomega.Async.Loop.{
  Env, succeeded, poll_due, timeout_due, loop, match_async, check, poll, unpolled, told_to_stop_now,
  is_passing, try_again_delay, settle_wait, at_timeout,
}
use gomega.Async.Loop.Verdicts.{verdicts}
use gomega.Async.Loop.Grades.{
  Grade, polled as polled_state, stop, pass, grade, history, counted, Holds,
}
use gomega.Async.Loop.Eventually.{match_async-succeeded, match_async-reached}
use gomega.Async.Loop.Consistently.{match_async-Holds, match_async-timeout, last_outcome}

abbrev bundle : DurationBundle
bundle = record {
  eventually_timeout = pos 1000;
  eventually_polling_interval = pos 10;
  consistently_duration = pos 100;
  consistently_polling_interval = pos 10;
}

abbrev config : AsyncType → ℕ → Config
config t n = record {
  async_type = t;
  timeout_interval = negsuc 0;
  polling_interval = negsuc 0;
  must_pass_repeatedly = pos n;
  has_ctx = true;
  offset = 0;
  bundle = bundle;
}

-- A function that counts its polls, and a matcher that wants at least two.
abbrev counting : Env ℕ
counting = record {
  is_func = true;
  poll_actual = λ k. (k, none);
  may_change = λ k a. true;
  match_value = λ k a. (leb 2 a, none);
}

-- What the tests of the loop compute with.
loop_open : Unit {0}
unfolding match_async loop check poll unpolled told_to_stop_now is_passing try_again_delay
    settle_wait after_polling history polled_state grade counted at_timeout
loop_open = tt

two_in_a_row :
    (match_async (config eventually 2) true counting (replicate 3 poll_due)).outcome
    ≡ some succeeded
unfolding loop_open
two_in_a_row = refl

match_async-succeeded_example :
    let r = match_async (config eventually 2) true counting (replicate 3 poll_due) in
    let gs = verdicts true counting r.polls in
    (m : ℕ) × (rest : List Grade) × (pos 2 ≡ pos (suc m))
    × (gs ≡ pass ∷ rest)
    × (take (suc m) (counted gs) ≡ replicate (suc m) pass)
    × All (λ g. g ≢ stop) gs
match_async-succeeded_example =
    match_async-succeeded (config eventually 2) true counting refl (replicate 3 poll_due)
      two_in_a_row

counting_goes_on : (i : ℕ) → i ≤ 3 → grade true (polled_state counting (suc i)) ≢ stop
unfolding loop_open
counting_goes_on zero h = λ e. cc
counting_goes_on (suc zero) h = λ e. cc
counting_goes_on (suc (suc zero)) h = λ e. cc
counting_goes_on (suc (suc (suc zero))) h = λ e. cc
counting_goes_on (suc (suc (suc (suc i)))) h = absurd (omega arith)

match_async-reached_example :
    (match_async (config eventually 2) true counting (replicate 3 poll_due)).outcome
    ≡ some succeeded
unfolding loop_open
match_async-reached_example =
    match_async-reached (config eventually 2) true counting refl 1 3 refl (λ k a. refl)
      counting_goes_on refl

-- A function that counts its polls, and a matcher that wants fewer than two of them.
abbrev failing_later : Env ℕ
failing_later = record counting { match_value = λ k a. (ltb a 2, none) }

failing_later-Holds : (i : ℕ) → i ≤ 1 → Holds (grade true (polled_state failing_later (suc i)))
unfolding loop_open
failing_later-Holds zero h = inl refl
failing_later-Holds (suc zero) h = inl refl
failing_later-Holds (suc (suc i)) h = absurd (omega arith)

holds_until_timeout :
    (match_async (config consistently 1) true failing_later (poll_due ∷ timeout_due ∷ [])).outcome
    ≡ some succeeded
unfolding loop_open
holds_until_timeout = refl

match_async-Holds_example : All Holds (
    verdicts true failing_later
      (match_async (config consistently 1) true failing_later (poll_due ∷ timeout_due ∷ [])).polls)
match_async-Holds_example =
    match_async-Holds (config consistently 1) true failing_later refl (poll_due ∷ timeout_due ∷ [])
      holds_until_timeout

match_async-timeout_example :
    match_async (config consistently 1) true failing_later (poll_due ∷ timeout_due ∷ []) ≡ record {
      outcome = some (last_outcome (grade true (polled_state failing_later 2)));
      polls = 2;
    }
match_async-timeout_example =
    match_async-timeout (config consistently 1) true failing_later refl 1 (λ k a. refl)
      failing_later-Holds

abbrev wait_error : GoError
wait_error = signal (try_again_error "told to try again after 1ns" (pos 1))

-- The matcher says TryAgainAfter at the first poll, and the function fails at the second.
abbrev failing_function : Env ℕ
failing_function = record counting {
  poll_actual = λ k. (k, if k == 1 then some (plain "refused") else none);
  match_value = λ k a. (false, some wait_error);
}
