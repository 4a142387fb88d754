-- ===== src/Assertion/Laws.antt =====
-- When an assertion succeeds, and that it calls Fail exactly when it does not.
use gomega.Base.{
  ℕ, suc, ◌+◌, ◌-◌, ◌<◌, ◌≡◌, ◌↔◌, ◌⊎◌, inl, inr, refl, Bool, true, false, none, some, List, [],
  ◌∷◌, ◌++◌, if◌then◌else◌, same, length, get_elem?, length-append, All, ap, sym, ◌∙◌, arith,
  Option-cases, Bool-cases,
}
use gomega.Matchers.{Verdict}
use gomega.Async.Poller.{Any, nil, error, other}
use gomega.Assertion.{
  Assertion, Failure, matcher_error, failure_message, negated_failure_message, vet_values,
  new_assertion, error_of, vet, vet_error, match_actual, vet_and_match, should,
}

module _ {A : Type 0} (is_zero : Any A → Bool) where
  abbrev pub is_blank : Any A → Bool
  is_blank nil = true
  is_blank (error e) = is_zero (error e)
  is_blank (other a) = is_zero (other a)

  -- Every value is nil or the zero value of its type.
  abbrev pub AllBlank : List (Any A) → Type 0
  AllBlank = All (λ v. is_blank v ≡ true)

  -- Nothing is skipped after the index.
  vet_values-AllBlank :
      (skip i : ℕ) (vs : List (Any A))
      → skip < i
      → (vet_values is_zero skip i vs ≡ none) ↔ AllBlank vs
  unfolding vet_values
  vet_values-AllBlank skip i [] h = (λ _. tt, λ _. refl)
  vet_values-AllBlank skip i (nil ∷ vs) h =
      let (to, from) = vet_values-AllBlank skip (suc i) vs (omega arith) in
      (λ e. (refl, to e), λ b. from b.1)
  vet_values-AllBlank skip i (error e ∷ vs) h =
      let (to, from) = vet_values-AllBlank skip (suc i) vs (omega arith) in
      (λ e. ground (arith, to), λ b. ground (arith, from b.1, b.0))
  vet_values-AllBlank skip i (other a ∷ vs) h =
      let (to, from) = vet_values-AllBlank skip (suc i) vs (omega arith) in
      (λ e. ground (arith, to), λ b. ground (arith, from b.1, b.0))

  vet_values-first :
      (v : Any A) (vs : List (Any A)) → vet_values is_zero 0 0 (v ∷ vs) ≡ vet_values is_zero 0 1 vs
  unfolding vet_values
  vet_values-first nil vs = refl
  vet_values-first (error e) vs = refl
  vet_values-first (other a) vs = refl

  -- The last value is skipped.
  vet_values-last :
      (skip i : ℕ) (vs : List (Any A)) (last : Any A)
      → skip ≡ i + length vs
      → (vet_values is_zero skip i (vs ++ last ∷ []) ≡ none) ↔ AllBlank vs
  unfolding vet_values
  vet_values-last skip i [] nil h = (λ _. tt, λ _. refl)
  vet_values-last skip i [] (error e) h = (λ _. tt, λ _. ground arith)
  vet_values-last skip i [] (other a) h = (λ _. tt, λ _. ground arith)
  vet_values-last skip i (nil ∷ vs) last h =
      let (to, from) = vet_values-last skip (suc i) vs last (omega arith) in
      (λ e. (refl, to e), λ b. from b.1)
  vet_values-last skip i (error e ∷ vs) last h =
      let (to, from) = vet_values-last skip (suc i) vs last (omega arith) in
      (λ e. ground (arith, to), λ b. ground (arith, from b.1, b.0))
  vet_values-last skip i (other a ∷ vs) last h =
      let (to, from) = vet_values-last skip (suc i) vs last (omega arith) in
      (λ e. ground (arith, to), λ b. ground (arith, from b.1, b.0))

suc-minus_one : (n : ℕ) → suc n - 1 ≡ n
suc-minus_one n = omega arith

module _ {A : Type 0} where
  some-injective : {a b : A} → some a ≡ some b → a ≡ b
  some-injective h = cc

  last_index : (init : List A) (last : A) → length (init ++ last ∷ []) - 1 ≡ length init
  last_index init last = omega (arith, length-append init (last ∷ []))

  get_elem?-length :
      (init : List A) (last : A) → get_elem? (init ++ last ∷ []) (length init) ≡ some last
  get_elem?-length [] last = refl
  get_elem?-length (v ∷ vs) last = get_elem?-length vs last

  get_elem?-last :
      (init : List A) (last : A)
      → get_elem? (init ++ last ∷ []) (length (init ++ last ∷ []) - 1) ≡ some last
  get_elem?-last init last =
      ap (get_elem? (init ++ last ∷ [])) (last_index init last) ∙ get_elem?-length init last

  get_elem?-ends :
      (a : A) (extra : List A) → (b : A) × (get_elem? (a ∷ extra) (length extra) ≡ some b)
  get_elem?-ends a [] = (a, refl)
  get_elem?-ends a (b ∷ extra) = get_elem?-ends b extra

module _ {A : Type 0} (m : Any A → Verdict) (desired : Bool) where
  match_actual-desired :
      (a : Any A) → (match_actual m desired a ≡ (true, [])) ↔ (m a ≡ (desired, none))
  unfolding match_actual
  match_actual-desired a = (λ h. ground arith, λ h. ground arith)

  -- A passed assertion makes no Fail, a failed one makes one.
  abbrev pub FailsOnce : Bool × List (Failure A) → Type 0
  FailsOnce r = (r ≡ (true, [])) ⊎ ((f : Failure A) × (r ≡ (false, f ∷ [])))

  match_actual-FailsOnce : (a : Any A) → FailsOnce (match_actual m desired a)
  unfolding match_actual
  match_actual-FailsOnce a = elim (Option-cases (m a).1) [
    | inl calm ↦ elim (Bool-cases (same (m a).0 desired)) [
      | inl hit ↦ inl (ground arith)
      | inr miss ↦
          inr (if desired then failure_message a else negated_failure_message a, ground arith)
    ]
    | inr (e, err) ↦ inr (matcher_error e, ground arith)
  ]

module _ {A : Type 0} (is_zero : Any A → Bool) (m : Any A → Verdict) (desired : Bool) where
  vet_and_match-FailsOnce :
      (s : Assertion A) (a : Any A) → FailsOnce m desired (vet_and_match is_zero s m desired a)
  unfolding vet_and_match
  vet_and_match-FailsOnce s a = elim (Option-cases (vet is_zero s.vetting s a)) [
    | inl passed ↦ rw (passed, vet_and_match) (match_actual-FailsOnce m desired a)
    | inr (f, refused) ↦ inr (f, ground (arith, refused))
  ]

  vet_and_match-passes :
      (s : Assertion A) (a : Any A)
      → (vet_and_match is_zero s m desired a ≡ (true, []))
        ↔ ((vet is_zero s.vetting s a ≡ none) × (m a ≡ (desired, none)))
  unfolding vet_and_match
  vet_and_match-passes s a =
      let (to, from) = match_actual-desired m desired a in
      (λ h. ground (arith, to), λ h. ground (arith, h.0, from h.1))

  -- `Expect(a, extra...)` passes exactly when every extra value is nil or zero and the matcher gives
  -- the desired result for a, without an error.
  pub should-new_assertion :
      (a : Any A) (extra : List (Any A))
      → (should is_zero (new_assertion a extra) m desired ≡ some (true, []))
        ↔ (AllBlank is_zero extra × (m a ≡ (desired, none)))
  unfolding should new_assertion vet
  should-new_assertion a extra =
      let (to, from) = vet_and_match-passes (new_assertion a extra) a in
      let (to_blank, from_blank) = vet_values-AllBlank is_zero 0 1 extra (omega arith) in
      (
        λ h.
            let r = to (some-injective h) in
            (to_blank (sym (vet_values-first is_zero a extra) ∙ r.0), r.1),
        λ h. ap some (from (vet_values-first is_zero a extra ∙ from_blank h.0, h.1)),
      )

  vet_error-passes :
      (init : List (Any A)) (last : Any A) (s : Assertion A)
      → vet_values is_zero s.actual_index 0 s.actuals
        ≡ vet_values is_zero (length init) 0 (init ++ last ∷ [])
      → (vet is_zero vet_error s last ≡ none) ↔ ((last ≡ nil) ⊎ AllBlank is_zero init)
  unfolding vet
  vet_error-passes init nil s h = (λ _. inl refl, λ _. refl)
  vet_error-passes init (error e) s h =
      let (to, from) = vet_values-last is_zero (length init) 0 init (error e) (omega arith) in
      (λ r. inr (to (sym h ∙ r)), λ b. elim b [ inl n ↦ absurd (cc) | inr b ↦ h ∙ from b ])
  vet_error-passes init (other v) s h =
      let (to, from) = vet_values-last is_zero (length init) 0 init (other v) (omega arith) in
      (λ r. inr (to (sym h ∙ r)), λ b. elim b [ inl n ↦ absurd (cc) | inr b ↦ h ∙ from b ])

  should-at :
      (s : Assertion A) (a : Any A)
      → get_elem? s.actuals s.actual_index ≡ some a
      → should is_zero s m desired ≡ some (vet_and_match is_zero s m desired a)
  unfolding should
  should-at s a h = ground (arith, h)

  should-last :
      (s : Assertion A) (init : List (Any A)) (last : Any A)
      → s.actuals ≡ init ++ last ∷ []
      → should is_zero (error_of s) m desired
        ≡ some (vet_and_match is_zero (error_of s) m desired last)
  unfolding error_of
  should-last s init last h =
      should-at (error_of s) last
        (ap (λ l. get_elem? l (length l - 1)) h ∙ get_elem?-last init last)

  vet_error-last :
      (s : Assertion A) (init : List (Any A)) (last : Any A)
      → s.actuals ≡ init ++ last ∷ []
      → (vet is_zero (error_of s).vetting (error_of s) last ≡ none)
        ↔ ((last ≡ nil) ⊎ AllBlank is_zero init)
  unfolding error_of
  vet_error-last s init last h = vet_error-passes init last (error_of s) (
      ap (λ l. vet_values is_zero (length l - 1) 0 l) h
      ∙ ap (λ n. vet_values is_zero n 0 (init ++ last ∷ [])) (last_index init last))

  -- `Expect(values...).Error()` passes exactly when the last value is nil or all the others are nil or
  -- zero, and the matcher gives the desired result for the last value, without an error.
  pub should-error_of :
      (s : Assertion A) (init : List (Any A)) (last : Any A)
      → s.actuals ≡ init ++ last ∷ []
      → (should is_zero (error_of s) m desired ≡ some (true, []))
        ↔ (((last ≡ nil) ⊎ AllBlank is_zero init) × (m last ≡ (desired, none)))
  should-error_of s init last h =
      let (to, from) = vet_and_match-passes (error_of s) last in
      let (to_blank, from_blank) = vet_error-last s init last h in
      (
        λ e.
            let r = to (some-injective (sym (should-last s init last h) ∙ e)) in
            (to_blank r.0, r.1),
        λ e. should-last s init last h ∙ ap some (from (from_blank e.0, e.1)),
      )

  -- `Expect(a, extra...)` and its Error() never panic on an index out of range, and call Fail exactly
  -- once if they do not pass and not at all if they do.
  pub should-FailsOnce :
      (a : Any A) (extra : List (Any A))
      → ((r : Bool × List (Failure A)) × (should is_zero (new_assertion a extra) m desired ≡ some r)
          × FailsOnce m desired r)
        × ((r : Bool × List (Failure A)) × (should is_zero
                (error_of (new_assertion a extra))
                m
                desired
              ≡ some r)
            × FailsOnce m desired r)
  unfolding new_assertion error_of
  should-FailsOnce a extra =
      let (b, e) = get_elem?-ends a extra in
      let s = new_assertion a extra in
      (
        (vet_and_match is_zero s m desired a, should-at s a refl, vet_and_match-FailsOnce s a),
        (
          vet_and_match is_zero (error_of s) m desired b,
          should-at (error_of s) b (ap (get_elem? (a ∷ extra)) (suc-minus_one (length extra)) ∙ e),
          vet_and_match-FailsOnce (error_of s) b,
        ),
      )
