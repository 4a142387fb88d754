-- ===== src/Assertion.antt =====
-- internal/assertion.go: Assertion, the synchronous assertion, with the values beside the one that it
-- is about. What Fail is called with is a Failure; the description and the offsets are left out.
pub mod Laws
mod Examples
use gomega.Base.{
  ℕ, suc, ◌-◌, ◌==◌, Bool, true, false, Option, none, some, List, [], ◌∷◌, if◌then◌else◌, same,
  length, get_elem?,
}
use gomega.Errors.{GoError}
use gomega.Matchers.{Verdict}
use gomega.Async.Poller.{Any, nil, error, other}

-- `vetinari`: vetActuals or vetError.
pub data Vet : Type 0 where
  vet_actuals vet_error : Vet

pub record Assertion (A : Type 0) : Type 0 where
  pub actuals : List (Any A)
  pub actual_index : ℕ
  pub vetting : Vet

-- The message of a Fail: the error or the value that was not expected, with its index, the error of
-- the matcher, or its failure message or negated failure message.
pub data Failure (A : Type 0) : Type 0 where
  unexpected_error : GoError → Failure A
  unexpected_value : ℕ → A → Failure A
  matcher_error : GoError → Failure A
  failure_message negated_failure_message : Any A → Failure A

module _ {A : Type 0} where
  unfoldable pub new_assertion : Any A → List (Any A) → Assertion A
  new_assertion a extra = record { actuals = a ∷ extra; actual_index = 0; vetting = vet_actuals }

  -- The method Error.
  unfoldable pub error_of : Assertion A → Assertion A
  error_of s = record {
    actuals = s.actuals;
    actual_index = length s.actuals - 1;
    vetting = vet_error;
  }

  -- The method match: the result and the Fails.
  unfoldable pub match_actual : (Any A → Verdict) → Bool → Any A → Bool × List (Failure A)
  match_actual m desired a =
      let (b, err) = m a in
      elim err [
        | some e ↦ (false, matcher_error e ∷ [])
        | none ↦
            if same b desired
            then (true, [])
            else (false, (if desired then failure_message a else negated_failure_message a) ∷ [])
      ]

module _ {A : Type 0} (is_zero : Any A → Bool) where
  -- The function vetActuals from index i on: the message, if it does not succeed.
  unfoldable pub vet_values : ℕ → ℕ → List (Any A) → Option (Failure A)
  vet_values skip i [] = none
  vet_values skip i (nil ∷ vs) = vet_values skip (suc i) vs
  vet_values skip i (error e ∷ vs) =
      let rest = vet_values skip (suc i) vs in
      if i == skip then rest else if is_zero (error e) then rest else some (unexpected_error e)
  vet_values skip i (other a ∷ vs) =
      let rest = vet_values skip (suc i) vs in
      if i == skip then rest else if is_zero (other a) then rest else some (unexpected_value i a)

  -- The methods vetActuals and vetError: the message of the Fail, if there is one; the index is that
  -- of a value.
  unfoldable pub vet : Vet → Assertion A → Any A → Option (Failure A)
  unfolding vet_values
  vet vet_actuals s a = vet_values s.actual_index 0 s.actuals
  vet vet_error s nil = none
  vet vet_error s (error e) = vet_values s.actual_index 0 s.actuals
  vet vet_error s (other b) = vet_values s.actual_index 0 s.actuals

  unfoldable pub vet_and_match :
      Assertion A → (Any A → Verdict) → Bool → Any A → Bool × List (Failure A)
  unfolding vet match_actual
  vet_and_match s m desired a = elim (vet s.vetting s a) [
    | some f ↦ (false, f ∷ [])
    | none ↦ match_actual m desired a
  ]

  -- Should and To with `desired` true, ShouldNot, ToNot and NotTo with false; `none` is the panic of an
  -- index out of range.
  unfoldable pub should : Assertion A → (Any A → Verdict) → Bool → Option (Bool × List (Failure A))
  unfolding vet_and_match
  should s m desired = elim (get_elem? s.actuals s.actual_index) [
    | none ↦ none
    | some a ↦ some (vet_and_match s m desired a)
  ]
