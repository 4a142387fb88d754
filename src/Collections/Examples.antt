-- ===== src/Collections/Examples.antt =====
-- Instances of the theorems on collections.
use gomega.Base.{ℕ, ◌≡◌, ◌↔◌, true, none, [], ◌∷◌, ◌==◌}
use gomega.Matchers.{Verdict}
use gomega.Collections.{have_exact_elements, new_exact, ExactState}
use gomega.Collections.Exact.{Corresponds, have_exact_elements-Corresponds}

abbrev equal : ℕ → ℕ → Verdict
equal n v = (v == n, none)

have_exact_elements-Corresponds_example :
    ((have_exact_elements (equal 1 ∷ equal 2 ∷ []) (1 ∷ 2 ∷ []) new_exact).0 ≡ true)
    ↔ Corresponds (equal 1 ∷ equal 2 ∷ []) (1 ∷ 2 ∷ [])
have_exact_elements-Corresponds_example =
    have_exact_elements-Corresponds (equal 1) (equal 2 ∷ []) (1 ∷ 2 ∷ [])

abbrev mismatched : ExactState
mismatched = record { mismatches = 1 ∷ []; missing_index = 0; extra_index = 0 }
