-- ===== src/Async/Poller.antt =====
-- internal/async_assertion.go: buildActualPoller and processReturnValues.
pub mod Legal
mod Examples
pub mod Values
use gomega.Base.Int.{is_num, below_one}
use gomega.Base.{
  ℕ, ◌+◌, ◌-◌, Bool, true, false, not, ◌&&◌, Option, none, some, List, [], ◌∷◌, ◌++◌, if◌then◌else◌,
  ltb, ◌==◌, length, is_some, is_none,
}
use gomega.Errors.{GoError, polled_actual, no_values, unexpected_value, as_polling_signal_error}
use gomega.Async.{eventually, consistently, Config}

-- An `interface{}`: nil, an error, or anything else. A context is an `other` value.
pub data Any (A : Type 0) : Type 0 where
  nil : Any A
  error : GoError → Any A
  other : A → Any A

-- AsPollingSignalError of an `interface{}`, as the error that it is.
unfoldable pub signal_error : {A : Type 0} → Any A → Option GoError
signal_error nil = none
signal_error (error e) = if is_some (as_polling_signal_error e) then some e else none
signal_error (other a) = none

-- What reflection tells of the polled function.
pub record FuncType : Type 0 where
  pub num_in : ℕ
  pub num_out : ℕ
  pub is_variadic : Bool
  pub gomega_at : ℕ → Bool
  pub context_at : ℕ → Bool

pub data InValue (A : Type 0) : Type 0 where
  gomega_value : InValue A
  context_value : InValue A
  forwarded : Any A → InValue A

pub data Refusal : Type 0 where
  invalid_function no_configured_context : Refusal
  argument_mismatch : ℕ → Refusal
  only_with_eventually must_pass_below_one : Refusal

-- What buildActualPoller gives: a poller of a constant, a poller that calls the function with these
-- values, an error, or the panic of `reflect.TypeOf(nil).Implements`.
pub data Built (A : Type 0) : Type 0 where
  constant : Built A
  calls : List (InValue A) → Built A
  refused : Refusal → Built A
  panics : Built A

unfoldable pub takes_gomega : FuncType → Bool
takes_gomega t = ltb 0 t.num_in && t.gomega_at 0

-- takesContext, before the forwarded arguments are looked at.
unfoldable pub asks_context : FuncType → Bool
unfolding takes_gomega
asks_context t =
    if takes_gomega t && ltb 1 t.num_in && t.context_at 1
    then true
    else ltb 0 t.num_in && t.context_at 0

unfoldable pub arity_fits : FuncType → ℕ → Bool
arity_fits t n = if t.is_variadic then not (ltb n (t.num_in - 1)) else t.num_in == n

-- What `actualValue.Call` does: it returns, or it panics with a value.
pub data CallResult (A : Type 0) : Type 0 where
  returned : List (Any A) → CallResult A
  panicked : Any A → CallResult A

pub data Polled (A : Type 0) : Type 0 where
  polled : Any A → Option GoError → Polled A
  repanicked : Any A → Polled A

-- A failed assertion replaces any error but a polling signal.
unfoldable pub prefer_failure : Option GoError → Option GoError → Option GoError
unfolding as_polling_signal_error
prefer_failure failure err =
    let is_async : Bool = elim err [
      | none ↦ false
      | some e ↦ is_some (as_polling_signal_error e)
    ] in
    if is_some failure && not is_async then failure else err

module _ {A : Type 0} where
  -- The first forwarded argument is the context: `none` where reading its type panics.
  unfoldable pub forwards_context : (A → Bool) → List (Any A) → Option Bool
  forwards_context is_context [] = some false
  forwards_context is_context (nil ∷ args) = none
  forwards_context is_context (error e ∷ args) = some false
  forwards_context is_context (other a ∷ args) = some (is_context a)

  unfoldable pub takes_context : (A → Bool) → FuncType → List (Any A) → Option Bool
  unfolding forwards_context asks_context
  takes_context is_context t args =
      if asks_context t
      then elim (forwards_context is_context args) [ none ↦ none | some b ↦ some (not b) ]
      else some false

  unfoldable pub forward_all : List (Any A) → List (InValue A)
  forward_all [] = []
  forward_all (a ∷ args) = forwarded a ∷ forward_all args

  unfoldable pub in_values : FuncType → Bool → List (Any A) → List (InValue A)
  unfolding forward_all takes_gomega
  in_values t with_ctx args =
      (if takes_gomega t then gomega_value ∷ [] else [])
      ++ ((if with_ctx then context_value ∷ [] else []) ++ forward_all args)

  -- The checks behind the argument list.
  unfoldable pub check_must_pass : Config → List (InValue A) → Built A
  check_must_pass c vs =
      if not (is_num 1 c.must_pass_repeatedly)
        && (elim c.async_type [ eventually ↦ false | consistently ↦ true ])
      then refused only_with_eventually
      else if below_one c.must_pass_repeatedly
      then refused must_pass_below_one
      else calls vs

  -- The checks once the argument list is known.
  unfoldable pub check_call : Config → FuncType → Bool → List (InValue A) → Built A
  unfolding check_must_pass arity_fits
  check_call c t with_ctx vs =
      if not (takes_gomega t) && t.num_out == 0
      then refused invalid_function
      else if with_ctx && not c.has_ctx
      then refused no_configured_context
      else if not (arity_fits t (length vs))
      then refused (argument_mismatch (length vs))
      else check_must_pass c vs

  unfoldable pub build_call : Config → FuncType → Bool → List (Any A) → Built A
  build_call c t with_ctx args = check_call c t with_ctx (in_values t with_ctx args)

  -- buildActualPoller; `none` is an actual that is no function.
  unfoldable pub build_actual_poller :
      (A → Bool) → Config → Option FuncType → List (Any A) → Built A
  unfolding build_call
  build_actual_poller is_context c none args = constant
  build_actual_poller is_context c (some t) args =
      if t.num_in == 0 && t.num_out == 0
      then refused invalid_function
      else elim (takes_context is_context t args) [
        | none ↦ panics
        | some with_ctx ↦ build_call c t with_ctx args
      ]

  abbrev is_last : List (Any A) → Bool
  is_last [] = true
  is_last (v ∷ vs) = false

  abbrev as_error : Any A → Option GoError
  as_error nil = none
  as_error (error e) = some e
  as_error (other a) = none

  -- `err` after an extra value that is neither nil nor zero nor a signal, at index `i + 1`.
  unfoldable pub next_error : Bool → ℕ → Any A → Option GoError → Option GoError
  next_error last i v err =
      let err' : Option GoError = if last && is_some (as_error v) then as_error v else err in
      if is_none err' then some (polled_actual (unexpected_value (i + 1))) else err'

  -- The loop over `values[1:]`.
  unfoldable pub check_extras :
      (Any A → Bool) → Any A → Option GoError → ℕ → List (Any A) → Any A × Option GoError
  unfolding signal_error
  check_extras is_zero actual err i [] = (actual, err)
  check_extras is_zero actual err i (nil ∷ vs) = check_extras is_zero actual err (i + 1) vs
  check_extras is_zero actual err i (v ∷ vs) =
      let rest =
        check_extras is_zero actual (if is_zero v then err else next_error (is_last vs) i v err)
          (i + 1) vs in
      if is_some (signal_error v) then (actual, signal_error v) else rest

  unfoldable pub process_return_values : (Any A → Bool) → List (Any A) → Any A × Option GoError
  unfolding check_extras signal_error
  process_return_values is_zero [] = (nil, some (polled_actual no_values))
  process_return_values is_zero (v ∷ vs) =
      if is_some (signal_error v) then (v, signal_error v) else check_extras is_zero v none 0 vs

  abbrev as_any : Option GoError → Any A
  as_any none = nil
  as_any (some e) = error e

  -- The first half of the deferred function.
  unfoldable pub settle :
      (Any A → Bool) → FuncType → List (Any A) → Option GoError → Any A × Option GoError
  unfolding process_return_values prefer_failure takes_gomega
  settle is_zero t values failure =
      if t.num_out == 0 && takes_gomega t
      then (as_any failure, none)
      else let (actual, err) = process_return_values is_zero values in
        (actual, prefer_failure failure err)

  -- The poller: `failure` is assertionFailure, as the call leaves it.
  unfoldable pub poll_func : (Any A → Bool) → FuncType → CallResult A → Option GoError → Polled A
  unfolding settle signal_error
  poll_func is_zero t (returned values) failure =
      let (actual, err) = settle is_zero t values failure in polled actual err
  poll_func is_zero t (panicked e) failure =
      let (actual, err) = settle is_zero t [] failure in
      if is_some (signal_error e)
      then polled actual (signal_error e)
      else if is_none failure
      then repanicked e
      else polled actual err
