-- ===== src/Async/Loop/Steps.antt =====
-- One iteration of the polling loop at a time, with the check shut.
use gomega.Base.Int.{ℤ}
use gomega.Base.{ℕ, suc, ◌≡◌, ◌⊎◌, refl, inl, inr, Bool, none, some, List, [], ◌∷◌}
use gomega.Async.{Config}
use gomega.Async.Loop.{
  Env, State, poll, Check, finished, waits, check, Outcome, failed, context_cancelled, Event,
  poll_due, context_done, timeout_due, at_timeout, loop,
}

pub Check-cases :
    (x : Check)
    → ((o : Outcome) × (x ≡ finished o)) ⊎ ((p : ℕ) × (b : Bool) × (d : ℤ) × (x ≡ waits p b d))
Check-cases (finished o) = inl (o, refl)
Check-cases (waits p b d) = inr (p, b, d, refl)

module _ {A : Type 0} (c : Config) (desired : Bool) (env : Env A) where
  pub loop-finished :
      (evs : List Event) (k : ℕ) (s : State A) (passed : ℕ) (o : Outcome)
      → check c desired s passed ≡ finished o
      → loop c desired env evs k s passed ≡ record { outcome = some o; polls = k }
  unfolding loop
  loop-finished [] k s passed o e = rw (e, loop)
  loop-finished (poll_due ∷ evs) k s passed o e = rw (e, loop)
  loop-finished (context_done ∷ evs) k s passed o e = rw (e, loop)
  loop-finished (timeout_due ∷ evs) k s passed o e = rw (e, loop)

  module _ (k : ℕ) (s : State A) (passed p : ℕ) (b : Bool) (d : ℤ)
      (e : check c desired s passed ≡ waits p b d) where
    pub loop-poll_due :
        (evs : List Event)
        → loop c desired env (poll_due ∷ evs) k s passed
          ≡ loop c desired env evs (suc k) (poll env k s) p
    unfolding loop
    loop-poll_due evs = rw (e, loop)

    pub loop-context_done :
        (evs : List Event)
        → loop c desired env (context_done ∷ evs) k s passed
          ≡ record { outcome = some (failed context_cancelled); polls = k }
    unfolding loop
    loop-context_done evs = rw (e, loop)

    pub loop-timeout_due :
        (evs : List Event)
        → loop c desired env (timeout_due ∷ evs) k s passed
          ≡ record { outcome = some (at_timeout c.async_type b); polls = k }
    unfolding loop
    loop-timeout_due evs = rw (e, loop)

    pub loop-nil : loop c desired env [] k s passed ≡ record { outcome = none; polls = k }
    unfolding loop
    loop-nil = rw (e, loop)
