-- ===== src/Collections/Laws.antt =====
-- HaveEach and ContainElement against the elements they speak of.
use mathlib.Core.List.{append-nil, append_assoc}
use gomega.Base.{
  ◌≡◌, ◌≢◌, ◌↔◌, ◌⊎◌, refl, inl, inr, ap, sym, ◌∙◌, true, Option, none, some, List, [], ◌∷◌, ◌++◌,
  arith, if◌then◌else◌, is_some,
}
use gomega.Errors.{GoError}
use gomega.Matchers.{Verdict}
use gomega.Collections.{
  have_each, have_each_loop, contain_loop, contain_element, findings_loop, contain_element_findings,
  store,
}

-- What ContainElement stores.
abbrev pub nonempty : {A : Type 0} → List A → Option (List A)
nonempty [] = none
nonempty (v ∷ vs) = some (v ∷ vs)

module _ {A : Type 0} (m : A → Verdict) where
  -- Every value matches without an error.
  abbrev pub Each : List A → Type 0
  Each [] = Unit {0}
  Each (v ∷ vs) = (m v ≡ (true, none)) × Each vs

  -- Some value matches without an error.
  abbrev pub Exists : List A → Type 0
  Exists [] = ⊥
  Exists (v ∷ vs) = (m v ≡ (true, none)) ⊎ Exists vs

  -- The values that match without an error, in order.
  abbrev pub matching : List A → List A
  matching [] = []
  matching (v ∷ vs) =
      let rest = matching vs in if is_some (m v).1 then rest else if (m v).0 then v ∷ rest else rest

  have_each_loop-Each : (vs : List A) → (have_each_loop m vs ≡ (true, none)) ↔ Each vs
  unfolding have_each_loop
  have_each_loop-Each [] = (λ _. tt, λ _. refl)
  have_each_loop-Each (v ∷ vs) =
      let (to, from) = have_each_loop-Each vs in
      (λ h. ground (arith, to), λ h. ground (arith, from h.1, h.0))

  -- HaveEach succeeds exactly when there is a value and its matcher succeeds without an error on every
  -- one.
  pub have_each-Each : (vs : List A) → (have_each m vs ≡ (true, none)) ↔ ((vs ≢ []) × Each vs)
  unfolding have_each
  have_each-Each [] = (λ h. absurd (cc), λ h. absurd (h.0 refl))
  have_each-Each (v ∷ vs) =
      let (to, from) = have_each_loop-Each (v ∷ vs) in
      (λ h. ((λ e. absurd (cc)), to h), λ h. from h.1)

  contain_loop-Exists :
      (vs : List A) (last : Option GoError) → (contain_loop m last vs ≡ (true, none)) ↔ Exists vs
  unfolding contain_loop
  contain_loop-Exists [] last = (λ h. absurd (cc), λ h. absurd h)
  contain_loop-Exists (v ∷ vs) last =
      let (to, from) = contain_loop-Exists vs (if is_some (m v).1 then (m v).1 else last) in
      (
        λ h. ground (arith, to, h),
        λ h. elim h [ inl p ↦ ground (arith, p) | inr p ↦ ground (arith, from p) ],
      )

  -- ContainElement without a result succeeds exactly when its matcher succeeds without an error on
  -- some value, whatever errors it gives on the others.
  pub contain_element-Exists : (vs : List A) → (contain_element m vs ≡ (true, none)) ↔ Exists vs
  unfolding contain_element
  contain_element-Exists vs = contain_loop-Exists vs none

  findings_loop-matching :
      (vs found : List A) (last : Option GoError)
      → (findings_loop m found last vs).0 ≡ found ++ matching vs
  unfolding findings_loop
  findings_loop-matching [] found last = sym (append-nil found)
  findings_loop-matching (v ∷ vs) found last =
      let ih = findings_loop-matching vs in
      ground (
        arith,
        ih found (if is_some (m v).1 then (m v).1 else last),
        ih (found ++ v ∷ []) last,
        append_assoc found (v ∷ []) (matching vs),
      )

  findings_loop-nonempty :
      (vs found : List A) (w : A) (last : Option GoError)
      → (store (findings_loop m (w ∷ found) last vs)).0 ≡ (true, none)
  unfolding findings_loop
  findings_loop-nonempty [] found w last = refl
  findings_loop-nonempty (v ∷ vs) found w last =
      let ih = findings_loop-nonempty vs in
      ground
        (arith, ih found w (if is_some (m v).1 then (m v).1 else last), ih (found ++ v ∷ []) w last)

  findings_loop-contain :
      (vs : List A) (last : Option GoError)
      → (store (findings_loop m [] last vs)).0 ≡ contain_loop m last vs
  unfolding findings_loop contain_loop
  findings_loop-contain [] last = refl
  findings_loop-contain (v ∷ vs) last = ground (
    arith,
    findings_loop-contain vs (if is_some (m v).1 then (m v).1 else last),
    findings_loop-nonempty vs [] v last,
  )

  store-found : (r : List A × Option GoError) → (store r).1 ≡ nonempty r.0
  store-found ([], last) = refl
  store-found (v ∷ vs, last) = refl

  -- ContainElement with a slice for its findings has the result, error included, that it has without
  -- one; it stores the values that match without an error, in order, and nothing if there are none.
  pub contain_element_findings-matching :
      (vs : List A)
      → ((contain_element_findings m vs).0 ≡ contain_element m vs)
        × ((contain_element_findings m vs).1 ≡ nonempty (matching vs))
  unfolding contain_element_findings contain_element
  contain_element_findings-matching vs = (
    findings_loop-contain vs none,
    store-found (findings_loop m [] none vs) ∙ ap nonempty (findings_loop-matching vs [] none),
  )
