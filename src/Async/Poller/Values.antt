-- ===== src/Async/Poller/Values.antt =====
-- What processReturnValues makes of the values that the polled function returned, and what the
-- poller makes of panics and of assertions that failed inside the function.
use gomega.Base.{
  ℕ, ◌+◌, ◌≡◌, ◌≢◌, ◌↔◌, refl, Bool, true, false, ◌&&◌, Option, none, some, List, [], ◌∷◌, ◌++◌,
  All, arith, is_none, Option-cases, inl, inr, if◌then◌else◌,
}
use gomega.Errors.{GoError, as_polling_signal_error}
use gomega.Async.Poller.{
  Any, nil, error, other, signal_error, next_error, is_last, check_extras, process_return_values,
  FuncType, CallResult, returned, panicked, polled, repanicked, prefer_failure, settle, poll_func,
  takes_gomega,
}

module _ {A : Type 0} (is_zero : Any A → Bool) where
  -- An extra value that is ignored.
  abbrev pub is_clean : Any A → Bool
  is_clean nil = true
  is_clean (error e) = is_zero (error e) && is_none (as_polling_signal_error e)
  is_clean (other a) = is_zero (other a)

  next_error_some :
      (last : Bool) (i : ℕ) (v : Any A) (err : Option GoError) → next_error last i v err ≢ none
  unfolding next_error
  next_error_some last i v err = ground arith

  abbrev carried : Bool → ℕ → Any A → Option GoError → Option GoError
  carried last i v err = if is_zero v then err else next_error last i v err

  check_extras_keeps :
      (a : Any A) (err : Option GoError) (i : ℕ) (vs : List (Any A))
      → err ≢ none
      → (check_extras is_zero a err i vs).1 ≢ none
  unfolding check_extras
  check_extras_keeps a err i [] h = h
  check_extras_keeps a err i (nil ∷ vs) h = check_extras_keeps a err (i + 1) vs h
  check_extras_keeps a err i (error e ∷ vs) h = ground (
    arith,
    next_error_some (is_last vs) i (error e) err,
    check_extras_keeps a (carried (is_last vs) i (error e) err) (i + 1) vs,
  )
  check_extras_keeps a err i (other v ∷ vs) h = ground (
    arith,
    next_error_some (is_last vs) i (other v) err,
    check_extras_keeps a (carried (is_last vs) i (other v) err) (i + 1) vs,
  )

  check_extras-value :
      (a : Any A) (err : Option GoError) (i : ℕ) (vs : List (Any A))
      → (check_extras is_zero a err i vs).0 ≡ a
  unfolding check_extras
  check_extras-value a err i [] = refl
  check_extras-value a err i (nil ∷ vs) = check_extras-value a err (i + 1) vs
  check_extras-value a err i (error e ∷ vs) =
      ground (arith, check_extras-value a (carried (is_last vs) i (error e) err) (i + 1) vs)
  check_extras-value a err i (other v ∷ vs) =
      check_extras-value a (carried (is_last vs) i (other v) err) (i + 1) vs

  abbrev pub AllClean : List (Any A) → Type 0
  AllClean = All (λ v. is_clean v ≡ true)

  check_extras-none :
      (a : Any A) (i : ℕ) (vs : List (Any A))
      → ((check_extras is_zero a none i vs).1 ≡ none) ↔ AllClean vs
  unfolding check_extras
  check_extras-none a i [] = (λ _. tt, λ _. refl)
  check_extras-none a i (nil ∷ vs) =
      let (to, from) = check_extras-none a (i + 1) vs in (λ h. (refl, to h), λ h. from h.1)
  check_extras-none a i (error e ∷ vs) =
      let (to, from) = check_extras-none a (i + 1) vs in
      let some_error = next_error_some (is_last vs) i (error e) none in
      let kept =
        check_extras_keeps a (next_error {A = A} (is_last vs) i (error e) none) (i + 1) vs
          some_error in
      (λ h. ground (arith, to, kept), λ h. ground (arith, from h.1, h.0))
  check_extras-none a i (other v ∷ vs) =
      let (to, from) = check_extras-none a (i + 1) vs in
      let some_error = next_error_some (is_last vs) i (other v) none in
      let kept =
        check_extras_keeps a (next_error {A = A} (is_last vs) i (other v) none) (i + 1) vs
          some_error in
      (λ h. ground (arith, to, kept), λ h. ground (arith, from h.1, h.0))

  abbrev pub HasNoSignal : List (Any A) → Type 0
  HasNoSignal = All (λ v. signal_error v ≡ none)

  check_extras-last :
      (a : Any A) (err : Option GoError) (i : ℕ) (vs : List (Any A)) (e : GoError)
      → HasNoSignal vs
      → as_polling_signal_error e ≡ none
      → is_zero (error e) ≡ false
      → check_extras is_zero a err i (vs ++ error e ∷ []) ≡ (a, some e)
  unfolding check_extras next_error
  check_extras-last a err i [] e h s z = ground arith
  check_extras-last a err i (nil ∷ vs) e h s z = check_extras-last a err (i + 1) vs e h.1 s z
  check_extras-last a err i (error x ∷ vs) e h s z = ground (
    arith,
    check_extras-last a (carried (is_last (vs ++ error e ∷ [])) i (error x) err) (i + 1) vs e,
  )
  check_extras-last a err i (other x ∷ vs) e h s z =
      check_extras-last a (carried (is_last (vs ++ error e ∷ [])) i (other x) err) (i + 1) vs e h.1
        s z

  check_extras-signal :
      (a : Any A) (err : Option GoError) (i : ℕ) (before after : List (Any A)) (e : GoError)
      → HasNoSignal before
      → as_polling_signal_error e ≢ none
      → check_extras is_zero a err i (before ++ error e ∷ after) ≡ (a, some e)
  unfolding check_extras
  check_extras-signal a err i [] after e h s = ground arith
  check_extras-signal a err i (nil ∷ vs) after e h s =
      check_extras-signal a err (i + 1) vs after e h.1 s
  check_extras-signal a err i (error x ∷ vs) after e h s = ground (
    arith,
    check_extras-signal a (carried (is_last (vs ++ error e ∷ after)) i (error x) err) (i + 1) vs
        after e,
  )
  check_extras-signal a err i (other x ∷ vs) after e h s =
      check_extras-signal a (carried (is_last (vs ++ error e ∷ after)) i (other x) err) (i + 1) vs
        after e h.1 s

  -- The function's first value is the polled value, and the poll has no error exactly when that
  -- value is no polling signal and every further value is nil, or a zero value that is no signal.
  pub process_return_values-none :
      (v : Any A) (vs : List (Any A))
      → ((process_return_values is_zero (v ∷ vs)).0 ≡ v)
        × (((process_return_values is_zero (v ∷ vs)).1 ≡ none)
            ↔ ((signal_error v ≡ none) × AllClean vs))
  unfolding process_return_values
  process_return_values-none v vs =
      let (to, from) = check_extras-none v 0 vs in
      (
        ground (arith, check_extras-value v none 0 vs),
        (λ h. ground (arith, to), λ h. ground (arith, from h.1, h.0)),
      )

  -- A non-zero error in the last place is the poll's error, whatever stands before it but signals.
  pub process_return_values-last :
      (v : Any A) (vs : List (Any A)) (e : GoError)
      → HasNoSignal (v ∷ vs)
      → as_polling_signal_error e ≡ none
      → is_zero (error e) ≡ false
      → process_return_values is_zero (v ∷ vs ++ error e ∷ []) ≡ (v, some e)
  unfolding process_return_values
  process_return_values-last v vs e h s z =
      ground (arith, check_extras-last v none 0 vs e h.1 s z, h.0)

  -- The first polling signal among the further values is the poll's error, whatever follows it.
  pub process_return_values-signal :
      (v : Any A) (before after : List (Any A)) (e : GoError)
      → HasNoSignal (v ∷ before)
      → as_polling_signal_error e ≢ none
      → process_return_values is_zero (v ∷ before ++ error e ∷ after) ≡ (v, some e)
  unfolding process_return_values
  process_return_values-signal v before after e h s =
      ground (arith, check_extras-signal v none 0 before after e h.1 s, h.0)

  -- The poller panics exactly when the function did, with no polling signal and no failed assertion.
  pub poll_func-repanicked :
      (t : FuncType) (r : CallResult A) (failure : Option GoError) (e : Any A)
      → (poll_func is_zero t r failure ≡ repanicked e)
        ↔ ((r ≡ panicked e) × (signal_error e ≡ none) × (failure ≡ none))
  unfolding poll_func
  poll_func-repanicked t (returned vs) failure e = (λ h. cc, λ h. cc (h.0))
  poll_func-repanicked t (panicked x) failure e =
      (λ h. ground arith, λ h. ground (arith, h.0, h.1, h.2))

  prefer_failure-error :
      (f : GoError) (err : Option GoError) → (e : GoError) × (prefer_failure (some f) err ≡ some e)
  unfolding prefer_failure
  prefer_failure-error f none = (f, refl)
  prefer_failure-error f (some x) = elim (Option-cases (as_polling_signal_error x)) [
    | inl n ↦ (f, rw n)
    | inr (s, p) ↦ (x, rw p)
  ]

  -- A poll in which an assertion failed inside the function carries an error, whether the function
  -- then returned or panicked, unless it takes a Gomega and returns nothing.
  pub poll_func-failure :
      (t : FuncType) (r : CallResult A) (f : GoError)
      → (t.num_out ≡ 0 → takes_gomega t ≡ false)
      → (a : Any A) × (e : GoError) × (poll_func is_zero t r (some f) ≡ polled a (some e))
  unfolding poll_func settle
  poll_func-failure t (returned vs) f h =
      let (e, p) = prefer_failure-error f (process_return_values is_zero vs).1 in
      ((process_return_values is_zero vs).0, e, ground (arith, p, h))
  poll_func-failure t (panicked x) f h = elim (Option-cases (signal_error x)) [
    | inl n ↦
        let (e, p) = prefer_failure-error f (process_return_values is_zero []).1 in
        ((process_return_values is_zero []).0, e, ground (arith, p, h, n))
    | inr (e, p) ↦ ((process_return_values is_zero []).0, e, ground (arith, p, h))
  ]
