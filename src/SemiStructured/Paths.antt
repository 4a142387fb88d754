-- ===== src/SemiStructured/Paths.antt =====
-- Where the path of a comparison leads.
use mathlib.Core.Path.{subst}
use gomega.Base.{
  ◌≢◌, Bool, none, ℕ, suc, ◌+◌, ◌≡◌, ◌⊎◌, inl, inr, refl, sym, ap, ◌∙◌, true, false, not, ◌&&◌,
  ◌==◌, same, some, List, [], ◌∷◌, ◌++◌, if◌then◌else◌, arith, Bool-cases, Option-cases,
}
use gomega.SemiStructured.{
  Value, Values, Entries, Key, leaf, nan, array, object, no_values, one_value, no_entries,
  one_entry, Step, at_index, at_key, count, entry_count, lookup, Comparison, after_element,
  equal_entry, deep_equal, equal_values, equal_entries, nth, step_into, then_into, reach,
}

-- Every entry of a map is what the map has under its key, in all maps of a value.
abbrev pub Keyed : Entries → Entries → Type 0
Keyed whole no_entries = Unit {0}
Keyed whole (one_entry k v es) = (lookup k whole ≡ some v) × Keyed whole es

abbrev mutual
  pub IsKeyed : Value → Type 0
  IsKeyed (leaf t v) = Unit {0}
  IsKeyed nan = Unit {0}
  IsKeyed (array vs) = AreKeyed vs
  IsKeyed (object k es) = Keyed es es × HaveKeyed es

  pub AreKeyed : Values → Type 0
  AreKeyed no_values = Unit {0}
  AreKeyed (one_value v vs) = IsKeyed v × AreKeyed vs

  pub HaveKeyed : Entries → Type 0
  HaveKeyed no_entries = Unit {0}
  HaveKeyed (one_entry k v es) = IsKeyed v × HaveKeyed es

reach_outer :
    (path : List Step) (step : Step) (v w : Value)
    → step_into step v ≡ some w
    → reach (path ++ step ∷ []) v ≡ reach path w
reach_outer [] step v w into = into
reach_outer (inner ∷ path) step v w into = ap (then_into inner) (reach_outer path step v w into)

-- Two values differ by what they are: by kind, by type or value if they have no parts, where a NaN
-- differs from all, by how many parts they have, or by a key that the second lacks.
abbrev pub Differ : Value → Value → Type 0
Differ (leaf t v) (leaf t' v') = (t ≢ t') ⊎ (v ≢ v')
Differ (leaf t v) nan = Unit {0}
Differ (leaf t v) (array ws) = Unit {0}
Differ (leaf t v) (object k fs) = Unit {0}
Differ nan b = Unit {0}
Differ (array vs) (leaf t' v') = Unit {0}
Differ (array vs) nan = Unit {0}
Differ (array vs) (array ws) = count vs ≢ count ws
Differ (array vs) (object k fs) = Unit {0}
Differ (object k es) (leaf t' v') = Unit {0}
Differ (object k es) nan = Unit {0}
Differ (object k es) (array ws) = Unit {0}
Differ (object k es) (object k' fs) =
    (k ≢ k')
    ⊎ ((entry_count es ≢ entry_count fs)
        ⊎ ((key : Key) × (v : Value) × (lookup key es ≡ some v) × (lookup key fs ≡ none)))

-- A path leads to two values that differ by what they are.
abbrev pub Leads : List Step → Value → Value → Type 0
Leads path a b = (x y : Value) × (reach path a ≡ some x) × (reach path b ≡ some y) × Differ x y

step_into-Leads :
    (path : List Step) (step : Step) (a b v w : Value)
    → step_into step a ≡ some v
    → step_into step b ≡ some w
    → Leads path v w
    → Leads (path ++ step ∷ []) a b
step_into-Leads path step a b v w into into' (x, y, here, there, differ) =
    (x, y, reach_outer path step a v into ∙ here, reach_outer path step b w into' ∙ there, differ)

-- A failed comparison of an element leads from the element; one of the rest leads from the rest.
after_element-cases :
    (c : Comparison) (step : Step) (rest : Comparison) (path : List Step)
    → after_element c step rest ≡ (false, path)
    → ((inner : List Step) × (c ≡ (false, inner)) × (path ≡ inner ++ step ∷ []))
      ⊎ (rest ≡ (false, path))
after_element-cases (true, inner) step rest path done = inr done
after_element-cases (false, inner) step rest path done =
    inl (inner, refl, sym (ap (λ (r : Comparison). r.1) done))

leaf-Differ : (t t' v v' : ℕ) → (t == t' && v == v') ≡ false → (t ≢ t') ⊎ (v ≢ v')
leaf-Differ t t' v v' off = elim (Bool-cases (t == t')) [
  | inr miss ↦ inl (λ one. absurd (ground (arith, miss, one)))
  | inl hit ↦ inr (λ one. absurd (ground (arith, off, hit, one)))
]

object-Differ :
    (k k' : Bool) (es fs : Entries)
    → (same k k' && entry_count es == entry_count fs) ≡ false
    → Differ (object k es) (object k' fs)
object-Differ k k' es fs off = elim (Bool-cases (entry_count es == entry_count fs)) [
  | inr miss ↦ inr (inl (λ one. absurd (ground (arith, miss, one))))
  | inl hit ↦ inl (λ one. absurd (ground (arith, off, hit, one, same_refl k')))
]
  where
    same_refl : (b : Bool) → same b b ≡ true
    same_refl true = refl
    same_refl false = refl

Differ-Leads : (a b : Value) (path : List Step) → Differ a b → [] ≡ path → Leads path a b
Differ-Leads a b path differ empty = subst (λ p. Leads p a b) empty (a, b, refl, refl, differ)

failure_path : {a : Comparison} {path : List Step} → a ≡ (false, path) → a.1 ≡ path
failure_path done = ap (λ (r : Comparison). r.1) done

-- A path into the values of an array from an index on.
abbrev LeadsIn : ℕ → List Step → Values → Values → Type 0
LeadsIn i path vs ws =
    (j : ℕ) × (inner : List Step) × (v w : Value) × (path ≡ inner ++ at_index (i + j) ∷ [])
    × (nth j vs ≡ some v)
    × (nth j ws ≡ some w)
    × Leads inner v w

-- A path into the entries of two maps.
abbrev LeadsUnder : List Step → Entries → Entries → Type 0
LeadsUnder path es fs =
    (key : Key) × (inner : List Step) × (v w : Value) × (path ≡ inner ++ at_key key ∷ [])
    × (lookup key es ≡ some v)
    × (lookup key fs ≡ some w)
    × Leads inner v w

mutual
  unfolding deep_equal

  deep_equal-Leads_any :
      (a b : Value) (path : List Step) → IsKeyed a → deep_equal a b ≡ (false, path) → Leads path a b
  deep_equal-Leads_any (leaf t v) (leaf t' v') path keyed done =
      Differ-Leads (leaf t v) (leaf t' v') path
        (leaf-Differ t t' v v' (ap (λ (r : Comparison). r.0) done)) (failure_path done)
  deep_equal-Leads_any (leaf t v) nan path keyed done =
      Differ-Leads (leaf t v) nan path tt (failure_path done)
  deep_equal-Leads_any nan (leaf t' v') path keyed done =
      Differ-Leads nan (leaf t' v') path tt (failure_path done)
  deep_equal-Leads_any nan nan path keyed done = Differ-Leads nan nan path tt (failure_path done)
  deep_equal-Leads_any nan (array ws) path keyed done =
      Differ-Leads nan (array ws) path tt (failure_path done)
  deep_equal-Leads_any nan (object k fs) path keyed done =
      Differ-Leads nan (object k fs) path tt (failure_path done)
  deep_equal-Leads_any (array vs) nan path keyed done =
      Differ-Leads (array vs) nan path tt (failure_path done)
  deep_equal-Leads_any (object k es) nan path keyed done =
      Differ-Leads (object k es) nan path tt (failure_path done)
  deep_equal-Leads_any (leaf t v) (array ws) path keyed done =
      Differ-Leads (leaf t v) (array ws) path tt (failure_path done)
  deep_equal-Leads_any (leaf t v) (object k fs) path keyed done =
      Differ-Leads (leaf t v) (object k fs) path tt (failure_path done)
  deep_equal-Leads_any (array vs) (leaf t' v') path keyed done =
      Differ-Leads (array vs) (leaf t' v') path tt (failure_path done)
  deep_equal-Leads_any (array vs) (array ws) path keyed done =
      elim (Bool-cases (count vs == count ws)) [
        | inr uneven ↦
            Differ-Leads (array vs) (array ws) path (λ one. absurd (ground (arith, uneven, one)))
              (failure_path
                (sym (ap (λ b. if not b then (false, []) else equal_values 0 vs ws) uneven) ∙ done))
        | inl even ↦
            let (j, inner, v, w, shape, here, there, leads) =
              equal_values-Leads vs ws 0 path keyed
                (sym (ap (λ b. if not b then (false, []) else equal_values 0 vs ws) even) ∙ done) in
            let index : 0 + j ≡ j = omega arith in
            subst (λ p. Leads p (array vs) (array ws))
              (sym (shape ∙ ap (λ i. inner ++ at_index i ∷ []) index))
              (step_into-Leads inner (at_index j) (array vs) (array ws) v w here there leads)
      ]
  deep_equal-Leads_any (array vs) (object k fs) path keyed done =
      Differ-Leads (array vs) (object k fs) path tt (failure_path done)
  deep_equal-Leads_any (object k es) (leaf t' v') path keyed done =
      Differ-Leads (object k es) (leaf t' v') path tt (failure_path done)
  deep_equal-Leads_any (object k es) (array ws) path keyed done =
      Differ-Leads (object k es) (array ws) path tt (failure_path done)
  deep_equal-Leads_any (object k es) (object k' fs) path (keyed, have) done =
      elim (Bool-cases (same k k' && entry_count es == entry_count fs)) [
        | inr uneven ↦
            Differ-Leads (object k es) (object k' fs) path (object-Differ k k' es fs uneven) (
              failure_path
                (sym (ap (λ b. if not b then (false, []) else equal_entries es fs) uneven) ∙ done))
        | inl even ↦
            elim (equal_entries-Leads es es fs path keyed have
              (sym (ap (λ b. if not b then (false, []) else equal_entries es fs) even) ∙ done)) [
                | inl (key, v, here, gone, empty) ↦
                    Differ-Leads (object k es) (object k' fs) path (inr (inr (key, v, here, gone)))
                      empty
                | inr (key, inner, v, w, shape, here, there, leads) ↦
                    subst (λ p. Leads p (object k es) (object k' fs)) (sym shape)
                      (step_into-Leads inner (at_key key) (object k es) (object k' fs) v w here
                        there leads)
              ]
      ]

  equal_values-Leads :
      (vs ws : Values) (i : ℕ) (path : List Step)
      → AreKeyed vs
      → equal_values i vs ws ≡ (false, path)
      → LeadsIn i path vs ws
  equal_values-Leads no_values ws i path keyed done = absurd (cc)
  equal_values-Leads (one_value v vs) no_values i path keyed done = absurd (cc)
  equal_values-Leads (one_value v vs) (one_value w ws) i path (here, keyed) done =
      elim (after_element-cases (deep_equal v w) (at_index i) (equal_values (suc i) vs ws) path
        done) [
          | inl (inner, found, shape) ↦
              let index : i ≡ i + 0 = omega arith in
              (
                0,
                inner,
                v,
                w,
                shape ∙ ap (λ k. inner ++ at_index k ∷ []) index,
                refl,
                refl,
                deep_equal-Leads_any v w inner here found,
              )
          | inr later ↦
              let (j, inner, x, y, shape, first, second, leads) =
                equal_values-Leads vs ws (suc i) path keyed later in
              let index : suc i + j ≡ i + suc j = omega arith in
              (
                suc j,
                inner,
                x,
                y,
                shape ∙ ap (λ k. inner ++ at_index k ∷ []) index,
                first,
                second,
                leads,
              )
        ]

  equal_entries-Leads :
      (whole es fs : Entries) (path : List Step)
      → Keyed whole es
      → HaveKeyed es
      → equal_entries es fs ≡ (false, path)
      → ((key : Key) × (v : Value) × (lookup key whole ≡ some v)
          × (lookup key fs ≡ none)
          × ([] ≡ path))
        ⊎ LeadsUnder path whole fs
  equal_entries-Leads whole no_entries fs path keyed have done = absurd (cc)
  equal_entries-Leads whole (one_entry k v es) fs path (under, keyed) (here, have) done =
      elim (Option-cases (lookup k fs)) [
        | inl missing ↦ inl (
          k,
          v,
          under,
          missing,
          failure_path
              (sym (ap (λ o. equal_entry k (deep_equal v) o (equal_entries es fs)) missing) ∙ done),
        )
        | inr (w, there) ↦
            elim (after_element-cases (deep_equal v w) (at_key k) (equal_entries es fs) path
              (sym (ap (λ o. equal_entry k (deep_equal v) o (equal_entries es fs)) there) ∙ done)) [
                | inl (inner, found, shape) ↦
                    inr (
                      k,
                      inner,
                      v,
                      w,
                      shape,
                      under,
                      there,
                      deep_equal-Leads_any v w inner here found,
                    )
                | inr later ↦ equal_entries-Leads whole es fs path keyed have later
              ]
      ]

-- Where each key of a map in the first value stands once, the path of a failed comparison leads in both
-- values to a value, and these two differ by what they are: by kind, by type or value if they have no
-- parts, where a NaN differs from all, by how many parts they have, or by a key that the second lacks.
pub deep_equal-Leads :
    (a b : Value) (path : List Step) → IsKeyed a → deep_equal a b ≡ (false, path) → Leads path a b
deep_equal-Leads a b path keyed done = deep_equal-Leads_any a b path keyed done
