-- ===== src/Async/Loop/Verdicts.antt =====
-- What the polls of a loop gave, by the environment alone. Polls are numbered from 0.
use gomega.Base.{
  ℕ, zero, suc, ◌≡◌, refl, ap, ◌∙◌, inl, inr, Bool, ◌||◌, Option, none, some, List, [], ◌∷◌, arith,
  if◌then◌else◌, is_some, same, Option-cases,
}
use gomega.Errors.{GoError}
use gomega.Async.Loop.{
  Env, State, unpolled, poll, says_stop, again_delay, told_to_stop_now, try_again_delay, is_passing,
}
use gomega.Async.Loop.Grades.{Grade, stop, pass, again, miss, grade, polled, history}

-- What an error says, and another one that is only a signal if it is there.
abbrev signalled : Option GoError → Option GoError → Grade
signalled e f =
    if says_stop e || says_stop f
    then stop
    else if is_some (again_delay e) || is_some (again_delay f)
    then again
    else miss

-- What the matcher returned.
abbrev returned : Bool → Bool × Option GoError → Grade
returned desired (m, none) = if same m desired then pass else miss
returned desired (m, some e) = signalled none (some e)

-- The matcher's error after a poll: a new one where the function returned no error, else the old one.
abbrev error_after : Option GoError → Option GoError → Option GoError → Option GoError
error_after none old new = new
error_after (some e) old new = old

abbrev judged : Bool → Option GoError → Option GoError → Bool × Option GoError → Grade
judged desired none old r = returned desired r
judged desired (some e) old r = signalled (some e) old

module _ {A : Type 0} where
  -- The error that the matcher returned when it was last asked, before a poll.
  abbrev pub last_error : Env A → ℕ → Option GoError
  last_error env zero = none
  last_error env (suc n) =
      error_after (env.poll_actual n).1 (last_error env n)
        (env.match_value n (env.poll_actual n).0).1

  -- What a poll gave. Where the function returned no error, that is what the matcher returned: the desired
  -- result without an error, a signal, or something else. Where it returned an error, that is a signal if
  -- that error is one or the matcher's error is when it was last asked.
  abbrev pub verdict : Bool → Env A → ℕ → Grade
  verdict desired env n =
      judged desired (env.poll_actual n).1 (last_error env n)
        (env.match_value n (env.poll_actual n).0)

  -- The verdicts on the first n polls, the last poll first.
  abbrev pub verdicts : Bool → Env A → ℕ → List Grade
  verdicts desired env zero = []
  verdicts desired env (suc n) = verdict desired env n ∷ verdicts desired env n

  poll-last_error :
      (env : Env A) (n : ℕ) (s : State A)
      → s.matcher_err ≡ last_error env n
      → (poll env n s).matcher_err ≡ last_error env (suc n)
  unfolding poll
  poll-last_error env n s before = elim (Option-cases (env.poll_actual n).1) [
    | inl fine ↦ ground (arith, fine)
    | inr (e, err) ↦ ground (arith, err, before)
  ]

  polled-last_error : (env : Env A) (n : ℕ) → (polled env n).matcher_err ≡ last_error env n
  unfolding polled unpolled
  polled-last_error env zero = refl
  polled-last_error env (suc n) = poll-last_error env n (polled env n) (polled-last_error env n)

  poll-verdict :
      (desired : Bool) (env : Env A) (n : ℕ) (s : State A)
      → s.matcher_err ≡ last_error env n
      → grade desired (poll env n s) ≡ verdict desired env n
  unfolding poll grade told_to_stop_now is_passing try_again_delay says_stop again_delay
  poll-verdict desired env n s before = elim (Option-cases (env.poll_actual n).1) [
    | inl fine ↦ elim (Option-cases (env.match_value n (env.poll_actual n).0).1) [
      | inl quiet ↦ ground (arith, fine, quiet)
      | inr (e, err) ↦ ground (arith, fine, err)
    ]
    | inr (e, err) ↦ ground (arith, err, before)
  ]

  pub history-verdicts :
      (desired : Bool) (env : Env A) (n : ℕ) → history desired env n ≡ verdicts desired env n
  unfolding history polled
  history-verdicts desired env zero = refl
  history-verdicts desired env (suc n) =
      ap (λ g. g ∷ history desired env n)
        (poll-verdict desired env n (polled env n) (polled-last_error env n))
      ∙ ap (λ gs. verdict desired env n ∷ gs) (history-verdicts desired env n)
