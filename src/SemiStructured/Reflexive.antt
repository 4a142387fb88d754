-- ===== src/SemiStructured/Reflexive.antt =====
-- What equal values have in common.
use mathlib.Core.Path.{subst}
use gomega.Base.{
  ℕ, zero, suc, ◌≡◌, inl, inr, refl, sym, ap, ◌∙◌, true, false, not, ◌&&◌, ◌==◌, ==_iff, same, some,
  List, [], ◌∷◌, if◌then◌else◌, arith, Bool-cases, Option-cases,
}
use gomega.Format.Equality.{equal_text_iff}
use gomega.SemiStructured.{
  Value, Values, Entries, Key, text_key, int_key, same_key, leaf, nan, array, object, no_values,
  one_value, no_entries, one_entry, Step, at_index, at_key, count, entry_count, lookup, Comparison,
  after_element, equal_entry, deep_equal, equal_values, equal_entries, nth, step_into, then_into,
  reach,
}

same_key_iff : (a b : Key) → same_key a b ≡ true → a ≡ b
same_key_iff (text_key a) (text_key b) one = ap text_key (equal_text_iff a b one)
same_key_iff (int_key m) (int_key n) one = ap int_key ((==_iff m n).0 one)
same_key_iff (text_key a) (int_key n) one = absurd (cc)
same_key_iff (int_key m) (text_key b) one = absurd (cc)

abbrev AreEqual : Value → Value → Type 0
AreEqual a b = (deep_equal a b).0 ≡ true

after_element-true :
    (c : Comparison) (step : Step) (rest : Comparison)
    → (after_element c step rest).0 ≡ true
    → (c.0 ≡ true) × (rest.0 ≡ true)
after_element-true (true, path) step rest done = (refl, done)
after_element-true (false, path) step rest done = absurd (cc)

equal_values-nth :
    (i : ℕ) (vs ws : Values) (j : ℕ) (x : Value)
    → count vs ≡ count ws
    → (equal_values i vs ws).0 ≡ true
    → nth j vs ≡ some x
    → (y : Value) × (nth j ws ≡ some y) × AreEqual x y
unfolding deep_equal
equal_values-nth i no_values ws j x even equal here = absurd (cc)
equal_values-nth i (one_value v vs) no_values j x even equal here = absurd (omega (arith, even))
equal_values-nth i (one_value v vs) (one_value w ws) zero x even equal here =
    let (equal', rest) =
      after_element-true (deep_equal v w) (at_index i) (equal_values (suc i) vs ws) equal in
    let same_value : v ≡ x = cc in (w, refl, subst (λ u. AreEqual u w) same_value equal')
equal_values-nth i (one_value v vs) (one_value w ws) (suc j) x even equal here =
    let (equal', rest) =
      after_element-true (deep_equal v w) (at_index i) (equal_values (suc i) vs ws) equal in
    equal_values-nth (suc i) vs ws j x (omega (arith, even)) rest here

equal_entries-lookup :
    (es fs : Entries) (key : Key) (x : Value)
    → (equal_entries es fs).0 ≡ true
    → lookup key es ≡ some x
    → (y : Value) × (lookup key fs ≡ some y) × AreEqual x y
unfolding deep_equal
equal_entries-lookup no_entries fs key x equal here = absurd (cc)
equal_entries-lookup (one_entry k v es) fs key x equal here = elim (Option-cases (lookup k fs)) [
  | inl missing ↦ absurd (
      ground
        (arith, equal, ap (λ o. (equal_entry k (deep_equal v) o (equal_entries es fs)).0) missing))
  | inr (w, there) ↦
      let (equal', rest) =
        after_element-true (deep_equal v w) (at_key k) (equal_entries es fs) (
          sym (ap (λ o. (equal_entry k (deep_equal v) o (equal_entries es fs)).0) there) ∙ equal) in
      elim (Bool-cases (same_key k key)) [
        | inl hit ↦
            let same_value : v ≡ x = ground (arith, here, hit) in
            (
              w,
              subst (λ t. lookup t fs ≡ some w) (same_key_iff k key hit) there,
              subst (λ u. AreEqual u w) same_value equal',
            )
        | inr miss ↦ equal_entries-lookup es fs key x rest (ground (arith, here, miss))
      ]
]

step_into-AreEqual :
    (step : Step) (a b x : Value)
    → AreEqual a b
    → step_into step a ≡ some x
    → (y : Value) × (step_into step b ≡ some y) × AreEqual x y
unfolding deep_equal
step_into-AreEqual (at_index i) (leaf t v) b x equal here = absurd (cc)
step_into-AreEqual (at_index i) nan b x equal here = absurd (cc)
step_into-AreEqual (at_key key) nan b x equal here = absurd (cc)
step_into-AreEqual (at_index i) (array vs) nan x equal here = absurd (cc)
step_into-AreEqual (at_key key) (object k es) nan x equal here = absurd (cc)
step_into-AreEqual (at_index i) (array vs) (leaf t v) x equal here = absurd (cc)
step_into-AreEqual (at_index i) (array vs) (array ws) x equal here =
    elim (Bool-cases (count vs == count ws)) [
      | inr uneven ↦ absurd (
          ground (
            arith,
            equal,
            ap (λ b. (if not b then (false, []) else equal_values 0 vs ws).0) uneven,
          ))
      | inl even ↦
          equal_values-nth 0 vs ws i x ((==_iff (count vs) (count ws)).0 even)
            (sym (ap (λ b. (if not b then (false, []) else equal_values 0 vs ws).0) even) ∙ equal)
            here
    ]
step_into-AreEqual (at_index i) (array vs) (object k fs) x equal here = absurd (cc)
step_into-AreEqual (at_index i) (object k es) b x equal here = absurd (cc)
step_into-AreEqual (at_key key) (leaf t v) b x equal here = absurd (cc)
step_into-AreEqual (at_key key) (array vs) b x equal here = absurd (cc)
step_into-AreEqual (at_key key) (object k es) (leaf t v) x equal here = absurd (cc)
step_into-AreEqual (at_key key) (object k es) (array ws) x equal here = absurd (cc)
step_into-AreEqual (at_key key) (object k es) (object k' fs) x equal here =
    let alike = same k k' && entry_count es == entry_count fs in
    elim (Bool-cases alike) [
      | inr uneven ↦ absurd (
          ground
            (arith, equal, ap (λ b. (if not b then (false, []) else equal_entries es fs).0) uneven))
      | inl even ↦
          equal_entries-lookup es fs key x
            (sym (ap (λ b. (if not b then (false, []) else equal_entries es fs).0) even) ∙ equal)
            here
    ]

reach-AreEqual :
    (path : List Step) (a b x : Value)
    → AreEqual a b
    → reach path a ≡ some x
    → (y : Value) × (reach path b ≡ some y) × AreEqual x y
reach-AreEqual [] a b x equal here =
    let same_value : a ≡ x = cc in (b, refl, subst (λ u. AreEqual u b) same_value equal)
reach-AreEqual (step ∷ path) a b x equal here = elim (Option-cases (reach path a)) [
  | inl nowhere ↦ absurd (ground (arith, here, nowhere))
  | inr (u, there) ↦
      let (w, there', equal') = reach-AreEqual path a b u equal there in
      let (y, found, equal'') =
        step_into-AreEqual step u w x equal' (sym (ap (then_into step) there) ∙ here) in
      (y, ap (then_into step) there' ∙ found, equal'')
]

leaf-AreEqual : (t v : ℕ) (y : Value) → AreEqual (leaf t v) y → y ≡ leaf t v
unfolding deep_equal
leaf-AreEqual t v (leaf t' v') equal =
    let kinds : t ≡ t' = ground (arith, equal) in let values : v ≡ v' = ground (arith, equal) in cc
leaf-AreEqual t v nan equal = absurd (cc)
leaf-AreEqual t v (array ws) equal = absurd (cc)
leaf-AreEqual t v (object k fs) equal = absurd (cc)

-- Of two values that are found equal, the second has every leaf of the first at the same path.
pub deep_equal-reach :
    (a b : Value) (path : List Step) (t v : ℕ)
    → deep_equal a b ≡ (true, [])
    → reach path a ≡ some (leaf t v)
    → reach path b ≡ some (leaf t v)
deep_equal-reach a b path t v equal here =
    let (y, found, equal') =
      reach-AreEqual path a b (leaf t v) (ap (λ (c : Comparison). c.0) equal) here in
    found ∙ ap some (leaf-AreEqual t v y equal')
