-- ===== src/SemiStructured/Examples.antt =====
-- Comparisons of concrete values.
use gomega.Base.{ℕ, ◌≡◌, refl, true, some, [], ◌∷◌}
use gomega.SemiStructured.{
  text_key, Value, leaf, array, object, no_values, one_value, no_entries, one_entry, at_index,
  at_key, deep_equal, reach, formatted_failure_path,
}
use gomega.SemiStructured.Paths.{Leads, deep_equal-Leads}
use gomega.SemiStructured.Reflexive.{deep_equal-reach}

-- {"a": [1, n]} of strings as keys.
abbrev document : ℕ → Value
document n = object true (
    one_entry (text_key (97 ∷ [])) (array (one_value (leaf 0 1) (one_value (leaf 0 n) no_values)))
      no_entries)

deep_equal-Leads_example :
    Leads (at_index 1 ∷ at_key (text_key (97 ∷ [])) ∷ []) (document 2) (document 3)
unfolding deep_equal
deep_equal-Leads_example =
    deep_equal-Leads (document 2) (document 3) (at_index 1 ∷ at_key (text_key (97 ∷ [])) ∷ [])
      ((refl, tt), ((tt, (tt, tt)), tt)) refl

deep_equal-reach_example :
    reach (at_index 1 ∷ at_key (text_key (97 ∷ [])) ∷ []) (document 2) ≡ some (leaf 0 2)
unfolding deep_equal
deep_equal-reach_example =
    deep_equal-reach (document 2) (document 2) (at_index 1 ∷ at_key (text_key (97 ∷ [])) ∷ []) 0 2
      refl refl

-- The path is printed as "a"[1].
printed_path :
    formatted_failure_path (λ i. (48 ∷ [])) (at_index 0 ∷ at_key (text_key (97 ∷ [])) ∷ [])
    ≡ 34 ∷ 97 ∷ 34 ∷ 91 ∷ 48 ∷ 93 ∷ []
unfolding formatted_failure_path
printed_path = refl
