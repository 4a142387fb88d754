-- ===== src/Assertion/Examples.antt =====
-- Instances of the theorems on assertions.
use gomega.Base.{ℕ, ◌≡◌, ◌↔◌, ◌⊎◌, Bool, true, false, none, some, List, [], ◌∷◌, refl, ◌==◌}
use gomega.Errors.{plain}
use gomega.Matchers.{Verdict}
use gomega.Async.Poller.{Any, nil, error, other}
use gomega.Assertion.{new_assertion, error_of, should}
use gomega.Assertion.Laws.{AllBlank, should-error_of}

abbrev zero_number : Any ℕ → Bool
zero_number (other n) = n == 0
zero_number v = false

abbrev be_five : Any ℕ → Verdict
be_five (other n) = (n == 5, none)
be_five v = (false, none)

abbrev occur : Any ℕ → Verdict
occur nil = (false, none)
occur (error e) = (true, none)
occur (other n) = (false, some (plain "Expected an error-type"))

abbrev failed_call : List (Any ℕ)
failed_call = other 0 ∷ error (plain "no such file") ∷ []

should-error_of_example :
    (should zero_number
        (error_of (new_assertion (other 0) (error (plain "no such file") ∷ [])))
        occur
        true
      ≡ some (true, []))
    ↔ (((◌≡◌ {A = Any ℕ} (error (plain "no such file")) nil) ⊎ AllBlank zero_number (other 0 ∷ []))
        × (occur (error (plain "no such file")) ≡ (true, none)))
unfolding new_assertion
should-error_of_example =
    should-error_of zero_number occur true
      (new_assertion (other 0) (error (plain "no such file") ∷ [])) (other 0 ∷ [])
      (error (plain "no such file")) refl
