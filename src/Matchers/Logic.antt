-- ===== src/Matchers/Logic.antt =====
-- And, Or and Not as connectives.
use gomega.Base.{ℕ, suc, ◌≡◌, ◌↔◌, ◌⊎◌, refl, inl, inr, true, false, not, Option, none, some, arith}
use gomega.Matchers.{
  Verdict, Leaves, Matchers, nil, cons, negated, all_of, any_of, keep_scanning, not_match, fails,
  match, match_all, match_any,
}

abbrev pub negate_all : {A : Type 0} → Matchers A → Matchers A
negate_all nil = nil
negate_all (cons m ms) = cons (negated m) (negate_all ms)

abbrev pub negate : Verdict → Verdict
negate (s, none) = (not s, none)
negate (s, some e) = (false, some e)

module _ {A : Type 0} (env : Leaves A) (a : A) where
  -- Every matcher succeeds, without an error.
  abbrev pub AllMatch : Matchers A → Type 0
  AllMatch nil = Unit {0}
  AllMatch (cons m ms) = ((match env m a).0 ≡ (true, none)) × AllMatch ms

  -- Some matcher succeeds without an error, and all before it fail without one.
  abbrev pub SomeMatches : Matchers A → Type 0
  SomeMatches nil = ⊥
  SomeMatches (cons m ms) =
      ((match env m a).0 ≡ (true, none)) ⊎ (((match env m a).0 ≡ (false, none)) × SomeMatches ms)

  match_all-verdict :
      (ms : Matchers A) (k : ℕ) → ((match_all env ms a k).verdict ≡ (true, none)) ↔ AllMatch ms
  unfolding match_all fails keep_scanning
  match_all-verdict nil k = (λ _. tt, λ _. refl)
  match_all-verdict (cons m ms) k =
      let (to, from) = match_all-verdict ms (suc k) in
      (λ h. ground (arith, to), λ h. ground (arith, from h.1, h.0))

  match_any-verdict :
      (ms : Matchers A) (k : ℕ) → ((match_any env ms a k).verdict ≡ (true, none)) ↔ SomeMatches ms
  unfolding match_any keep_scanning
  match_any-verdict nil k = (λ h. absurd (cc), λ h. absurd h)
  match_any-verdict (cons m ms) k =
      let (to, from) = match_any-verdict ms (suc k) in
      (
        λ h. ground (arith, to, h),
        λ h. elim h [ inl p ↦ ground (arith, p) | inr p ↦ ground (arith, p.0, from p.1) ],
      )

  -- And succeeds exactly when every one of its matchers does, and an error of any of them is no
  -- success; after a success none is marked as the first that failed.
  pub match-all_of :
      (ms : Matchers A) (f : Option ℕ)
      → ((match env (all_of ms f) a).0 ≡ (true, none)) ↔ AllMatch ms
  unfolding match
  match-all_of ms f = match_all-verdict ms 0

  -- Or succeeds exactly when one of its matchers does and all those before it fail without an error.
  match-any_of :
      (ms : Matchers A) (f : Option ℕ)
      → ((match env (any_of ms f) a).0 ≡ (true, none)) ↔ SomeMatches ms
  unfolding match
  match-any_of ms f = match_any-verdict ms 0

  match_any-negate :
      (ms : Matchers A) (k : ℕ)
      → (match_any env ms a k).verdict ≡ negate (match_all env (negate_all ms) a k).verdict
  unfolding match_any match_all match keep_scanning not_match fails
  match_any-negate nil k = refl
  match_any-negate (cons m ms) k = ground (arith, match_any-negate ms (suc k))

  -- Or is the negation of the And of the negations, errors included.
  pub match-any_of-negated :
      (ms : Matchers A) (f g : Option ℕ)
      → (match env (any_of ms f) a).0 ≡ (match env (negated (all_of (negate_all ms) g)) a).0
  unfolding match not_match
  match-any_of-negated ms f g = ground (arith, match_any-negate ms 0)
