-- ===== src/Gstruct/Examples.antt =====
-- Instances of the theorems on MatchElements and MatchFields.
use gomega.Base.{ℕ, ◌==◌, ◌≡◌, ◌⊎◌, ◌↔◌, refl, true, false, Option, none, some, List, [], ◌∷◌}
use gomega.Gstruct.{KeyEquality, Options, of_bits, Ran, verdict, match_elements, succeeds}
use gomega.Gstruct.Elements.{Named, AreDistinct, AllPresent, match_elements-Named}

abbrev numbers : KeyEquality ℕ
numbers = record { same_key = λ j k. j == k }

abbrev lax : Options
lax = record { ignore_extras = true; ignore_missing = false; allow_duplicates = false }

abbrev equal : ℕ → ℕ → Ran
equal n v = verdict (n == v) none

abbrev expected : List (ℕ × (ℕ → Ran))
expected = (0, equal 7) ∷ (1, equal 8) ∷ []

abbrev by_index : ℕ → ℕ → Option ℕ
by_index i v = some i

match_elements-Named_example :
    (succeeds (match_elements numbers lax by_index expected (7 ∷ 8 ∷ 9 ∷ [])) ≡ true) ↔ (
      (ks : List ℕ) × Named numbers lax by_index expected 0 (7 ∷ 8 ∷ 9 ∷ []) ks
      × ((lax.allow_duplicates ≡ true) ⊎ AreDistinct numbers [] ks)
      × ((lax.ignore_missing ≡ true) ⊎ AllPresent numbers expected ks))
match_elements-Named_example = match_elements-Named numbers lax by_index expected (7 ∷ 8 ∷ 9 ∷ [])

abbrev fields : List (ℕ × ℕ)
fields = (0, 7) ∷ (1, 8) ∷ (5, 2) ∷ []

extras_are_ignored :
    (succeeds (match_elements numbers lax by_index expected (7 ∷ 8 ∷ 9 ∷ [])) ≡ true)
    × (succeeds (match_elements numbers (of_bits 2) by_index expected (7 ∷ 8 ∷ 9 ∷ [])) ≡ false)
unfolding match_elements succeeds of_bits
extras_are_ignored = (refl, refl)
