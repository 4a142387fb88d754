-- ===== src/Matchers/Oracle.antt =====
-- What MatchMayChangeInTheFuture of And, Or, Not and WithTransform promises.
use native.Mathlib.Nat.{zero-add}
use gomega.Base.{
  ℕ, suc, ◌+◌, ◌≡◌, ◌⊎◌, refl, inl, inr, Bool, true, false, not, Option, none, some, arith, ◌∙◌,
  sym, Bool-cases,
}
use gomega.Matchers.{
  Leaves, value, Matcher, Matchers, nil, cons, leaf, negated, all_of, any_of, with_transform,
  Scanned, keep_scanning, not_match, fails, match, match_all, match_any, may_change, may_change_any,
  may_change_at,
}

-- The leaves give no error.
pub record IsCalm {A : Type 0} (env : Leaves A) : Type 0 where
  pub no_error : (i : ℕ) (a : A) → (env.leaf_match i a).1 ≡ none
  pub transforms : (t : ℕ) (a : A) → (b : A) × (env.transform t a ≡ value b)

module _ {A : Type 0} (env : Leaves A) (calm : IsCalm env) where
  mutual
    unfolding match match_all match_any not_match keep_scanning fails

    match-calm : (m : Matcher A) (a : A) → (match env m a).0.1 ≡ none
    match-calm (leaf i) a = calm.no_error i a
    match-calm (all_of ms f) a = match_all-calm ms a 0
    match-calm (any_of ms f) a = match_any-calm ms a 0
    match-calm (negated m) a = ground (arith, match-calm m a)
    match-calm (with_transform t old m) a =
        let (b, e) = calm.transforms t a in ground (arith, e, match-calm m b)

    match_all-calm : (ms : Matchers A) (a : A) (k : ℕ) → (match_all env ms a k).verdict.1 ≡ none
    match_all-calm nil a k = refl
    match_all-calm (cons m ms) a k = ground (arith, match-calm m a, match_all-calm ms a (suc k))

    match_any-calm : (ms : Matchers A) (a : A) (k : ℕ) → (match_any env ms a k).verdict.1 ≡ none
    match_any-calm nil a k = refl
    match_any-calm (cons m ms) a k = ground (arith, match-calm m a, match_any-calm ms a (suc k))

  -- So each verdict is a plain success or failure.
  verdict-cases :
      (m : Matcher A) (a : A)
      → ((match env m a).0 ≡ (true, none)) ⊎ ((match env m a).0 ≡ (false, none))
  verdict-cases m a = elim (Bool-cases (match env m a).0.0) [
    | inl hit ↦ inl (ground (arith, hit, match-calm m a))
    | inr miss ↦ inr (ground (arith, miss, match-calm m a))
  ]

module _ {A : Type 0} (env : Leaves A) (m : Matcher A) (ms : Matchers A) (a : A) (k : ℕ) where
  match_all-hit :
      (match env m a).0 ≡ (true, none)
      → match_all env (cons m ms) a k ≡ keep_scanning (match env m a).1 (match_all env ms a (suc k))
  unfolding match_all fails
  match_all-hit h = ground arith

  match_all-miss :
      (match env m a).0 ≡ (false, none)
      → match_all env (cons m ms) a k
        ≡ record { verdict = (false, none); mark = some k; matchers = cons (match env m a).1 ms }
  unfolding match_all fails
  match_all-miss h = ground arith

  match_any-miss :
      (match env m a).0 ≡ (false, none)
      → match_any env (cons m ms) a k ≡ keep_scanning (match env m a).1 (match_any env ms a (suc k))
  unfolding match_any
  match_any-miss h = ground arith

  match_any-hit :
      (match env m a).0 ≡ (true, none)
      → match_any env (cons m ms) a k
        ≡ record { verdict = (true, none); mark = some k; matchers = cons (match env m a).1 ms }
  unfolding match_any
  match_any-hit h = ground arith

-- A later time: an oracle that said that its matcher would not change was right, and the transforms
-- give what they gave.
pub record IsLater {A : Type 0} (env env' : Leaves A) : Type 0 where
  pub stable :
      (i : ℕ) (a : A) → env.leaf_may_change i a ≡ false → env'.leaf_match i a ≡ env.leaf_match i a
  pub same_transforms : (t : ℕ) (a : A) → env'.transform t a ≡ env.transform t a

module _ {A : Type 0} (env env' : Leaves A) (calm : IsCalm env) (calm' : IsCalm env')
    (later : IsLater env env') where
  -- A scan that marked nothing, or that marked a position counted from where it began.
  abbrev Held : (Matchers A → A → ℕ → Scanned A) → Bool → Scanned A → A → ℕ → Type 0
  Held scan b r a k =
      ((r.mark ≡ none)
        × (r.verdict ≡ (b, none))
        × (may_change_any env r.matchers a ≡ false
            → (j : ℕ) → (scan r.matchers a j).verdict ≡ (b, none)))
      ⊎ ((p : ℕ) × (r.mark ≡ some (k + p))
          × (r.verdict ≡ (not b, none))
          × (may_change_at env r.matchers a p ≡ false
              → (j : ℕ) → (scan r.matchers a j).verdict ≡ (not b, none)))

  Keeps : Matcher A → A → Type 0
  Keeps m a =
      may_change env (match env m a).1 a ≡ false
      → (match env' (match env m a).1 a).0 ≡ (match env m a).0

  all_step :
      (m : Matcher A) (ms : Matchers A) (a : A) (k : ℕ)
      → Keeps m a
      → Held (match_all env') true (match_all env ms a (suc k)) a (suc k)
      → Held (match_all env') true (match_all env (cons m ms) a k) a k
  unfolding Keeps keep_scanning may_change_any may_change_at
  all_step m ms a k keeps ih = elim (verdict-cases env calm m a) [
    | inl hit ↦ rw (match_all-hit env m ms a k hit) (elim ih [
      | inl (mark, verdict, holds) ↦ inl (
        mark,
        verdict,
        λ h j.
            rw
              (match_all-hit env' (match env m a).1 (match_all env ms a (suc k)).matchers a j
                (keeps (ground arith) ∙ hit))
              (holds (ground arith) (suc j)),
      )
      | inr (p, mark, verdict, holds) ↦ inr (
        suc p,
        ground (arith, mark),
        verdict,
        λ h j. elim (verdict-cases env' calm' (match env m a).1 a) [
          | inl again ↦
              rw
                (match_all-hit env' (match env m a).1 (match_all env ms a (suc k)).matchers a j
                  again)
                (holds h (suc j))
          | inr fewer ↦
              rw
                (match_all-miss env' (match env m a).1 (match_all env ms a (suc k)).matchers a j
                  fewer)
                refl
        ],
      )
    ])
    | inr miss ↦ rw (match_all-miss env m ms a k miss) (
        inr (
          0,
          ground arith,
          refl,
          λ h j. rw (match_all-miss env' (match env m a).1 ms a j (keeps h ∙ miss)) refl,
        ))
  ]

  any_step :
      (m : Matcher A) (ms : Matchers A) (a : A) (k : ℕ)
      → Keeps m a
      → Held (match_any env') false (match_any env ms a (suc k)) a (suc k)
      → Held (match_any env') false (match_any env (cons m ms) a k) a k
  unfolding Keeps keep_scanning may_change_any may_change_at
  any_step m ms a k keeps ih = elim (verdict-cases env calm m a) [
    | inr miss ↦ rw (match_any-miss env m ms a k miss) (elim ih [
      | inl (mark, verdict, holds) ↦ inl (
        mark,
        verdict,
        λ h j.
            rw
              (match_any-miss env' (match env m a).1 (match_any env ms a (suc k)).matchers a j
                (keeps (ground arith) ∙ miss))
              (holds (ground arith) (suc j)),
      )
      | inr (p, mark, verdict, holds) ↦ inr (
        suc p,
        ground (arith, mark),
        verdict,
        λ h j. elim (verdict-cases env' calm' (match env m a).1 a) [
          | inr again ↦
              rw
                (match_any-miss env' (match env m a).1 (match_any env ms a (suc k)).matchers a j
                  again)
                (holds h (suc j))
          | inl sooner ↦
              rw
                (match_any-hit env' (match env m a).1 (match_any env ms a (suc k)).matchers a j
                  sooner)
                refl
        ],
      )
    ])
    | inl hit ↦ rw (match_any-hit env m ms a k hit) (
        inr (
          0,
          ground arith,
          refl,
          λ h j. rw (match_any-hit env' (match env m a).1 ms a j (keeps h ∙ hit)) refl,
        ))
  ]

  all_of-Keeps :
      (ms : Matchers A) (f : Option ℕ) (a : A)
      → Held (match_all env') true (match_all env ms a 0) a 0
      → Keeps (all_of ms f) a
  unfolding Keeps match may_change
  all_of-Keeps ms f a (inl (mark, verdict, holds)) h = holds (rw mark at h) 0 ∙ sym verdict
  all_of-Keeps ms f a (inr (p, mark, verdict, holds)) h =
      holds (rw (mark, zero-add) at h) 0 ∙ sym verdict

  any_of-Keeps :
      (ms : Matchers A) (f : Option ℕ) (a : A)
      → Held (match_any env') false (match_any env ms a 0) a 0
      → Keeps (any_of ms f) a
  unfolding Keeps match may_change
  any_of-Keeps ms f a (inl (mark, verdict, holds)) h = holds (rw mark at h) 0 ∙ sym verdict
  any_of-Keeps ms f a (inr (p, mark, verdict, holds)) h =
      holds (rw (mark, zero-add) at h) 0 ∙ sym verdict

  negated-Keeps : (m : Matcher A) (a : A) → Keeps m a → Keeps (negated m) a
  unfolding Keeps match may_change not_match
  negated-Keeps m a keep h = ground (arith, keep)

  with_transform-Keeps :
      (t : ℕ) (old : A) (m : Matcher A) (a b : A)
      → env.transform t a ≡ value b
      → Keeps m b
      → Keeps (with_transform t old m) a
  unfolding Keeps match may_change
  with_transform-Keeps t old m a b e keep h = ground (arith, e, later.same_transforms t a, keep)

  mutual
    unfolding Keeps match match_all match_any may_change may_change_any

    keeps : (m : Matcher A) (a : A) → Keeps m a
    keeps (leaf i) a = λ h. later.stable i a h
    keeps (all_of ms f) a = all_of-Keeps ms f a (keeps_all ms a 0)
    keeps (any_of ms f) a = any_of-Keeps ms f a (keeps_any ms a 0)
    keeps (negated m) a = negated-Keeps m a (keeps m a)
    keeps (with_transform t old m) a =
        let (b, e) = calm.transforms t a in with_transform-Keeps t old m a b e (keeps m b)

    keeps_all :
        (ms : Matchers A) (a : A) (k : ℕ) → Held (match_all env') true (match_all env ms a k) a k
    keeps_all nil a k = inl (refl, refl, λ h j. refl)
    keeps_all (cons m ms) a k = all_step m ms a k (keeps m a) (keeps_all ms a (suc k))

    keeps_any :
        (ms : Matchers A) (a : A) (k : ℕ) → Held (match_any env') false (match_any env ms a k) a k
    keeps_any nil a k = inl (refl, refl, λ h j. refl)
    keeps_any (cons m ms) a k = any_step m ms a k (keeps m a) (keeps_any ms a (suc k))

  -- When the leaves give no errors and the transforms give the same values at both times, a tree of
  -- And, Or, Not and WithTransform whose oracle says, after a match, that the result will not change
  -- has the same result at the later time, if the oracles of its leaves are right.
  pub match-may_change :
      (m : Matcher A) (a : A)
      → may_change env (match env m a).1 a ≡ false
      → (match env' (match env m a).1 a).0 ≡ (match env m a).0
  unfolding Keeps
  match-may_change m a h = keeps m a h

-- Asked before the match, the oracle of an And speaks of the matcher that failed last: if that one now
-- succeeds for good and a later one fails but may change, the oracle says that nothing will change,
-- although the And fails, and would say after the match that it may change.
pub stale_first_failed :
    {A : Type 0} (env : Leaves A) (i j : ℕ) (a : A)
    → env.leaf_match i a ≡ (true, none)
    → env.leaf_may_change i a ≡ false
    → env.leaf_match j a ≡ (false, none)
    → env.leaf_may_change j a ≡ true
    → let both = all_of (cons (leaf i) (cons (leaf j) nil)) (some 0) in
      (may_change env both a ≡ false)
      × ((match env both a).0 ≡ (false, none))
      × (may_change env (match env both a).1 a ≡ true)
unfolding match match_all fails keep_scanning may_change may_change_at
stale_first_failed env i j a h1 h2 h3 h4 = ground arith
