-- ===== src/Collections/Exact.antt =====
-- HaveExactElements against the lists that correspond one to one.
use gomega.Base.{
  ℕ, suc, ◌≡◌, ◌≢◌, ◌↔◌, refl, Bool, true, false, not, ◌&&◌, none, List, [], ◌∷◌, ◌++◌, arith, ap,
  sym, ◌∙◌, length-append, if◌then◌else◌, Bool-cases, inl, inr,
}
use gomega.Matchers.{Verdict}
use gomega.Collections.{
  ExactState, new_exact, is_mismatch, exact_loop, is_clean, have_exact_elements,
}

abbrev result : Bool × ExactState → Bool
result (missing, s) = not missing && is_clean s

-- The state after a comparison at index i.
abbrev noted : Verdict → ℕ → ExactState → ExactState
noted v i s = if is_mismatch v then record s { mismatches = s.mismatches ++ i ∷ [] } else s

noted-dirty :
    (v : Verdict) (i : ℕ) (s : ExactState) → is_clean s ≡ false → is_clean (noted v i s) ≡ false
unfolding is_clean
noted-dirty v i s h = ground (arith, length-append s.mismatches (i ∷ []))

noted-mismatch :
    (v : Verdict) (i : ℕ) (s : ExactState) → is_mismatch v ≡ true → is_clean (noted v i s) ≡ false
unfolding is_clean
noted-mismatch v i s h = ground (arith, length-append s.mismatches (i ∷ []))

is_mismatch-false : (v : Verdict) → is_mismatch v ≡ false → v ≡ (true, none)
unfolding is_mismatch
is_mismatch-false v h = ground arith

is_mismatch-true : (v : Verdict) → is_mismatch v ≡ true → v ≢ (true, none)
unfolding is_mismatch
is_mismatch-true v h e = ground arith

never_true : {b : Bool} → b ≡ false → b ≢ true
never_true h e = ground arith

module _ {A : Type 0} where
  -- As many matchers as values, each of which matches its value.
  abbrev pub Corresponds : List (A → Verdict) → List A → Type 0
  Corresponds [] [] = Unit {0}
  Corresponds [] (v ∷ vs) = ⊥
  Corresponds (m ∷ ms) [] = ⊥
  Corresponds (m ∷ ms) (v ∷ vs) = (m v ≡ (true, none)) × Corresponds ms vs

  -- An extra index above 0 is never taken back.
  exact_loop-extra :
      (vs : List A) (i : ℕ) (s : ExactState)
      → s.extra_index ≢ 0
      → result (exact_loop [] vs (suc i) s) ≡ false
  unfolding exact_loop is_clean
  exact_loop-extra [] i s h = ground arith
  exact_loop-extra (v ∷ vs) i s h =
      exact_loop-extra vs (suc i) (record s { extra_index = suc i }) (omega arith)

  exact_loop-dirty :
      (ms : List (A → Verdict)) (vs : List A) (i : ℕ) (s : ExactState)
      → is_clean s ≡ false
      → result (exact_loop ms vs (suc i) s) ≡ false
  unfolding exact_loop
  exact_loop-dirty [] [] i s h = h
  exact_loop-dirty [] (v ∷ vs) i s h =
      exact_loop-extra vs (suc i) (record s { extra_index = suc i }) (omega arith)
  exact_loop-dirty (m ∷ ms) [] i s h = refl
  exact_loop-dirty (m ∷ ms) (v ∷ vs) i s h =
      exact_loop-dirty ms vs (suc i) (noted (m v) (suc i) s) (noted-dirty (m v) (suc i) s h)

  exact_loop-match :
      (m : A → Verdict) (ms : List (A → Verdict)) (v : A) (vs : List A) (i : ℕ) (s : ExactState)
      → is_mismatch (m v) ≡ false
      → exact_loop (m ∷ ms) (v ∷ vs) i s ≡ exact_loop ms vs (suc i) s
  unfolding exact_loop
  exact_loop-match m ms v vs i s h = ground arith

  exact_loop-Corresponds :
      (ms : List (A → Verdict)) (vs : List A) (i : ℕ) (s : ExactState)
      → is_clean s ≡ true
      → (result (exact_loop ms vs (suc i) s) ≡ true) ↔ Corresponds ms vs
  unfolding exact_loop
  exact_loop-Corresponds [] [] i s h = (λ _. tt, λ _. h)
  exact_loop-Corresponds [] (v ∷ vs) i s h = (
    λ e.
        never_true (exact_loop-extra vs (suc i) (record s { extra_index = suc i }) (omega arith)) e,
    λ e. absurd e,
  )
  exact_loop-Corresponds (m ∷ ms) [] i s h = (λ e. absurd (cc), λ e. absurd e)
  exact_loop-Corresponds (m ∷ ms) (v ∷ vs) i s h = elim (Bool-cases (is_mismatch (m v))) [
    | inl bad ↦ (
      λ e. absurd (
          never_true
            (exact_loop-dirty ms vs (suc i) (noted (m v) (suc i) s)
              (noted-mismatch (m v) (suc i) s bad))
            e),
      λ e. absurd (is_mismatch-true (m v) bad e.0),
    )
    | inr good ↦
        let (to, from) = exact_loop-Corresponds ms vs (suc i) s h in
        let same_state = ap result (exact_loop-match m ms v vs (suc i) s good) in
        (λ e. (is_mismatch-false (m v) good, to (sym same_state ∙ e)), λ e. same_state ∙ from e.1)
  ]

  -- A new HaveExactElements with at least one matcher succeeds exactly when there are as many values
  -- as matchers and each matcher succeeds without an error on its value.
  pub have_exact_elements-Corresponds :
      (m : A → Verdict) (ms : List (A → Verdict)) (vs : List A)
      → ((have_exact_elements (m ∷ ms) vs new_exact).0 ≡ true) ↔ Corresponds (m ∷ ms) vs
  unfolding have_exact_elements exact_loop is_clean new_exact
  have_exact_elements-Corresponds m ms [] = (λ e. absurd (cc), λ e. absurd e)
  have_exact_elements-Corresponds m ms (v ∷ vs) = elim (Bool-cases (is_mismatch (m v))) [
    | inl bad ↦ (
      λ e. absurd (
          never_true
            (exact_loop-dirty ms vs 0 (noted (m v) 0 new_exact)
              (noted-mismatch (m v) 0 new_exact bad))
            e),
      λ e. absurd (is_mismatch-true (m v) bad e.0),
    )
    | inr good ↦
        let (to, from) = exact_loop-Corresponds ms vs 0 new_exact refl in
        let same_state = ap result (exact_loop-match m ms v vs 0 new_exact good) in
        (λ e. (is_mismatch-false (m v) good, to (sym same_state ∙ e)), λ e. same_state ∙ from e.1)
  ]

  -- A HaveExactElements with at least one matcher that has recorded a mismatch, a missing or an extra
  -- element in an earlier Match fails on every later value.
  pub have_exact_elements-dirty :
      (m : A → Verdict) (ms : List (A → Verdict)) (vs : List A) (s : ExactState)
      → is_clean s ≡ false
      → (have_exact_elements (m ∷ ms) vs s).0 ≡ false
  unfolding have_exact_elements exact_loop
  have_exact_elements-dirty m ms [] s h = refl
  have_exact_elements-dirty m ms (v ∷ vs) s h =
      exact_loop-dirty ms vs 0 (noted (m v) 0 s) (noted-dirty (m v) 0 s h)
