-- ===== src/Collections.antt =====
-- matchers/have_exact_elements.go, have_each_matcher.go, contain_element_matcher.go (with and without
-- a slice for its findings) and be_element_of_matcher.go, over the values that valuesOf reads from an
-- array, slice or map. A matcher of elements is its result on a value.
pub mod Laws
pub mod Exact
mod Examples
use gomega.Base.{
  ℕ, suc, ◌+◌, Bool, true, false, not, ◌&&◌, Option, none, some, List, [], ◌∷◌, ◌++◌, if◌then◌else◌,
  is_some, ◌==◌, length,
}
use gomega.Errors.{GoError, plain}
use gomega.Matchers.{Verdict}

-- HaveExactElementsMatcher, less its elements; a mismatch is kept as its index.
pub record ExactState : Type 0 where
  pub mismatches : List ℕ
  pub missing_index : ℕ
  pub extra_index : ℕ

unfoldable pub new_exact : ExactState
new_exact = record { mismatches = []; missing_index = 0; extra_index = 0 }

-- `err != nil || !match`.
unfoldable pub is_mismatch : Verdict → Bool
is_mismatch (m, e) = if is_some e then true else not m

-- `missingIndex+extraIndex+len(mismatchFailures) == 0`.
unfoldable pub is_clean : ExactState → Bool
is_clean s = s.missing_index + s.extra_index + length s.mismatches == 0

module _ {A : Type 0} where
  -- The loop from index i on, with whether it returned from inside.
  unfoldable pub exact_loop : List (A → Verdict) → List A → ℕ → ExactState → Bool × ExactState
  unfolding is_mismatch
  exact_loop [] [] i s = (false, s)
  exact_loop [] (v ∷ vs) i s = exact_loop [] vs (suc i) (record s { extra_index = i })
  exact_loop (m ∷ ms) [] i s = (true, record s { missing_index = i })
  exact_loop (m ∷ ms) (v ∷ vs) i s =
      exact_loop ms vs (suc i)
        (if is_mismatch (m v) then record s { mismatches = s.mismatches ++ i ∷ [] } else s)

  -- HaveExactElements: the result, and the state that it leaves.
  unfoldable pub have_exact_elements : List (A → Verdict) → List A → ExactState → Bool × ExactState
  unfolding exact_loop is_clean
  have_exact_elements ms vs s =
      let (missing, s') = exact_loop ms vs 0 s in (not missing && is_clean s', s')

  unfoldable pub have_each_loop : (A → Verdict) → List A → Verdict
  have_each_loop m [] = (true, none)
  have_each_loop m (v ∷ vs) =
      let rest = have_each_loop m vs in
      if is_some (m v).1 then (false, (m v).1) else if not (m v).0 then (false, none) else rest

  -- HaveEach.
  unfoldable pub have_each : (A → Verdict) → List A → Verdict
  unfolding have_each_loop
  have_each m [] = (false, some (plain "HaveEach matcher expects a non-empty array/slice/map"))
  have_each m (v ∷ vs) = have_each_loop m (v ∷ vs)

  -- The loop of ContainElement without a result, and of BeElementOf, whose matchers are EqualMatchers.
  unfoldable pub contain_loop : (A → Verdict) → Option GoError → List A → Verdict
  contain_loop m last [] = (false, last)
  contain_loop m last (v ∷ vs) =
      let rest = contain_loop m (if is_some (m v).1 then (m v).1 else last) vs in
      if is_some (m v).1 then rest else if (m v).0 then (true, none) else rest

  unfoldable pub contain_element : (A → Verdict) → List A → Verdict
  unfolding contain_loop
  contain_element m vs = contain_loop m none vs

  -- The loop of ContainElement with a slice to store its findings in: the findings and the last error.
  unfoldable pub findings_loop :
      (A → Verdict) → List A → Option GoError → List A → List A × Option GoError
  findings_loop m found last [] = (found, last)
  findings_loop m found last (v ∷ vs) =
      findings_loop m
        (if is_some (m v).1 then found else if (m v).0 then found ++ v ∷ [] else found)
        (if is_some (m v).1 then (m v).1 else last) vs

  abbrev store : List A × Option GoError → Verdict × Option (List A)
  store ([], last) = ((false, last), none)
  store (v ∷ vs, last) = ((true, none), some (v ∷ vs))

  -- The result, and what is stored, if anything.
  unfoldable pub contain_element_findings : (A → Verdict) → List A → Verdict × Option (List A)
  unfolding findings_loop
  contain_element_findings m vs = store (findings_loop m [] none vs)
