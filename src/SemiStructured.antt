-- ===== src/SemiStructured.antt =====
-- matchers/semi_structured_data_support.go: the comparison of JSON and YAML values. A value is a tree;
-- the entries of a map stand in the order in which the loop meets them.
pub mod Paths
pub mod Reflexive
mod Examples
use gomega.Base.{
  ℕ, zero, suc, ◌+◌, ◌≡◌, Bool, true, false, not, ◌&&◌, ◌==◌, same, Option, none, some, List, [],
  ◌∷◌, ◌++◌, if◌then◌else◌,
}
use gomega.Format.{Text, equal_text}

-- A key of a map; one that is no int stands as the text that is printed for it.
pub data Key : Type 0 where
  text_key : Text → Key
  int_key : ℕ → Key

-- A value of a type other than the three is compared by ==; the type and the value are numbers, and a NaN
-- is equal to nothing. A map is by strings or by values of any type.
mutual
  pub data Value : Type 0 where
    leaf : ℕ → ℕ → Value
    nan : Value
    array : Values → Value
    object : Bool → Entries → Value

  pub data Values : Type 0 where
    no_values : Values
    one_value : Value → Values → Values

  pub data Entries : Type 0 where
    no_entries : Entries
    one_entry : Key → Value → Entries → Entries

pub data Step : Type 0 where
  at_index : ℕ → Step
  at_key : Key → Step

abbrev pub same_key : Key → Key → Bool
same_key (text_key a) (text_key b) = equal_text a b
same_key (int_key m) (int_key n) = m == n
same_key (text_key a) (int_key n) = false
same_key (int_key m) (text_key b) = false

abbrev pub count : Values → ℕ
count no_values = 0
count (one_value v vs) = suc (count vs)

abbrev pub entry_count : Entries → ℕ
entry_count no_entries = 0
entry_count (one_entry k v es) = suc (entry_count es)

abbrev pub lookup : Key → Entries → Option Value
lookup key no_entries = none
lookup key (one_entry k v es) = let rest = lookup key es in if same_key k key then some v else rest

-- What a comparison returns: whether the values are equal, and the path to where they are not, the
-- innermost step first.
abbrev pub Comparison : Type 0
Comparison = Bool × List Step

-- What the loops return after an element, and after the rest.
abbrev pub after_element : Comparison → Step → Comparison → Comparison
after_element (true, path) step rest = rest
after_element (false, path) step rest = (false, path ++ step ∷ [])

-- What the loops return after an entry, by what the other map has under the key, and after the rest.
abbrev pub equal_entry : Key → (Value → Comparison) → Option Value → Comparison → Comparison
equal_entry k equal none rest = (false, [])
equal_entry k equal (some w) rest = after_element (equal w) (at_key k) rest

unfoldable mutual
  -- deepEqual.
  pub deep_equal : Value → Value → Comparison
  deep_equal (leaf t v) (leaf t' v') = (t == t' && v == v', [])
  deep_equal (leaf t v) nan = (false, [])
  deep_equal nan (leaf t' v') = (false, [])
  deep_equal nan nan = (false, [])
  deep_equal nan (array ws) = (false, [])
  deep_equal nan (object k fs) = (false, [])
  deep_equal (array vs) nan = (false, [])
  deep_equal (object k es) nan = (false, [])
  deep_equal (leaf t v) (array ws) = (false, [])
  deep_equal (leaf t v) (object k fs) = (false, [])
  deep_equal (array vs) (leaf t' v') = (false, [])
  deep_equal (array vs) (array ws) =
      let rest = equal_values 0 vs ws in if not (count vs == count ws) then (false, []) else rest
  deep_equal (array vs) (object k fs) = (false, [])
  deep_equal (object k es) (leaf t' v') = (false, [])
  deep_equal (object k es) (array ws) = (false, [])
  deep_equal (object k es) (object k' fs) =
      let rest = equal_entries es fs in
      if not (same k k' && entry_count es == entry_count fs) then (false, []) else rest

  -- The loop over the elements; the lengths are equal.
  pub equal_values : ℕ → Values → Values → Comparison
  equal_values i no_values ws = (true, [])
  equal_values i (one_value v vs) no_values = (true, [])
  equal_values i (one_value v vs) (one_value w ws) =
      after_element (deep_equal v w) (at_index i) (equal_values (suc i) vs ws)

  -- The loops over the entries.
  pub equal_entries : Entries → Entries → Comparison
  equal_entries no_entries fs = (true, [])
  equal_entries (one_entry k v es) fs =
      equal_entry k (deep_equal v) (lookup k fs) (equal_entries es fs)

abbrev pub nth : ℕ → Values → Option Value
nth i no_values = none
nth zero (one_value v vs) = some v
nth (suc i) (one_value v vs) = nth i vs

-- A step into a value.
abbrev pub step_into : Step → Value → Option Value
step_into (at_index i) (leaf t v) = none
step_into (at_index i) nan = none
step_into (at_key key) nan = none
step_into (at_index i) (array vs) = nth i vs
step_into (at_index i) (object k es) = none
step_into (at_key key) (leaf t v) = none
step_into (at_key key) (array vs) = none
step_into (at_key key) (object k es) = lookup key es

abbrev pub then_into : Step → Option Value → Option Value
then_into step none = none
then_into step (some v) = step_into step v

-- What a path leads to, the last step of which is the outermost.
abbrev pub reach : List Step → Value → Option Value
reach [] v = some v
reach (step ∷ path) v = then_into step (reach path v)

-- formattedFailurePath, with the decimal digits of a number; the Boolean is whether the step is not the
-- first printed one.
abbrev formatted_step : (ℕ → Text) → Step → Bool → Text
formatted_step digits (at_index i) later = 91 ∷ (digits i ++ 93 ∷ [])
formatted_step digits (at_key (int_key n)) later = 91 ∷ (digits n ++ 93 ∷ [])
formatted_step digits (at_key (text_key key)) true = 46 ∷ 34 ∷ (key ++ 34 ∷ [])
formatted_step digits (at_key (text_key key)) false = 34 ∷ (key ++ 34 ∷ [])

unfoldable pub formatted_failure_path : (ℕ → Text) → List Step → Text
formatted_failure_path digits [] = []
formatted_failure_path digits (step ∷ []) = formatted_step digits step false
formatted_failure_path digits (step ∷ outer ∷ path) =
    formatted_failure_path digits (outer ∷ path) ++ formatted_step digits step true
