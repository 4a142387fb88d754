-- ===== src/Matchers.antt =====
-- matchers/and.go, or.go, not.go and with_transform.go, as trees over the other matchers. A matcher
-- of a tree remembers what its last Match left in it; `firstFailedMatcher` and
-- `firstSuccessfulMatcher`, pointers into the list of matchers, are positions in it.
pub mod Logic
pub mod Oracle
mod Examples
use gomega.Base.{
  ℕ, zero, suc, Bool, true, false, not, ◌&&◌, ◌||◌, Option, none, some, if◌then◌else◌, is_some,
}
use gomega.Errors.{GoError}

-- A result `(success, err)` of Match.
abbrev pub Verdict : Type 0
Verdict = Bool × Option GoError

-- What a transform function makes of an actual.
pub data Transformed (A : Type 0) : Type 0 where
  value : A → Transformed A
  refused : GoError → Transformed A

-- How the other matchers and the transform functions behave at one time, by number. `leaf_may_change`
-- is true for a matcher that is no OracleMatcher.
pub record Leaves (A : Type 0) : Type 0 where
  pub leaf_match : ℕ → A → Verdict
  pub leaf_may_change : ℕ → A → Bool
  pub transform : ℕ → A → Transformed A

mutual
  pub data Matcher (A : Type 0) : Type 0 where
    leaf : ℕ → Matcher A
    all_of : Matchers A → Option ℕ → Matcher A
    any_of : Matchers A → Option ℕ → Matcher A
    negated : Matcher A → Matcher A
    -- The transform, the value that it last gave, and the matcher of that value.
    with_transform : ℕ → A → Matcher A → Matcher A

  pub data Matchers (A : Type 0) : Type 0 where
    nil : Matchers A
    cons : Matcher A → Matchers A → Matchers A

-- The verdict and the matcher that Match leaves behind.
abbrev pub Matched : Type 0 → Type 0
Matched A = Verdict × Matcher A

-- The same for a loop over the matchers from some position on, with the position that it marks.
pub record Scanned (A : Type 0) : Type 0 where
  pub verdict : Verdict
  pub mark : Option ℕ
  pub matchers : Matchers A

unfoldable pub not_match : {A : Type 0} → Matched A → Matched A
not_match ((s, none), m) = ((not s, none), negated m)
not_match ((s, some e), m) = ((false, some e), negated m)

unfoldable pub keep_scanning : {A : Type 0} → Matcher A → Scanned A → Scanned A
keep_scanning m r = record r { matchers = cons m r.matchers }

unfoldable pub fails : Verdict → Bool
fails (s, e) = not s || is_some e

unfoldable mutual
  pub match : {A : Type 0} → Leaves A → Matcher A → A → Matched A
  match env (leaf i) a = (env.leaf_match i a, leaf i)
  match env (all_of ms f) a = let r = match_all env ms a 0 in (r.verdict, all_of r.matchers r.mark)
  match env (any_of ms f) a = let r = match_any env ms a 0 in (r.verdict, any_of r.matchers r.mark)
  match env (negated m) a = not_match (match env m a)
  match env (with_transform t old m) a = elim (env.transform t a) [
    | refused e ↦ ((false, some e), with_transform t old m)
    | value b ↦ let (v, m') = match env m b in (v, with_transform t b m')
  ]

  pub match_all : {A : Type 0} → Leaves A → Matchers A → A → ℕ → Scanned A
  match_all env nil a k = record { verdict = (true, none); mark = none; matchers = nil }
  match_all env (cons m ms) a k =
      let (v, m') = match env m a in
      let rest = keep_scanning m' (match_all env ms a (suc k)) in
      if fails v
      then record { verdict = (false, v.1); mark = some k; matchers = cons m' ms }
      else rest

  pub match_any : {A : Type 0} → Leaves A → Matchers A → A → ℕ → Scanned A
  match_any env nil a k = record { verdict = (false, none); mark = none; matchers = nil }
  match_any env (cons m ms) a k =
      let (v, m') = match env m a in
      let rest = keep_scanning m' (match_any env ms a (suc k)) in
      if is_some v.1
      then record { verdict = (false, v.1); mark = none; matchers = cons m' ms }
      else if v.0
      then record { verdict = (true, none); mark = some k; matchers = cons m' ms }
      else rest

unfoldable mutual
  -- MatchMayChangeInTheFuture.
  pub may_change : {A : Type 0} → Leaves A → Matcher A → A → Bool
  may_change env (leaf i) a = env.leaf_may_change i a
  may_change env (all_of ms none) a = may_change_any env ms a
  may_change env (all_of ms (some k)) a = may_change_at env ms a k
  may_change env (any_of ms none) a = may_change_any env ms a
  may_change env (any_of ms (some k)) a = may_change_at env ms a k
  may_change env (negated m) a = may_change env m a
  may_change env (with_transform t old m) a = may_change env m old

  pub may_change_any : {A : Type 0} → Leaves A → Matchers A → A → Bool
  may_change_any env nil a = false
  may_change_any env (cons m ms) a = may_change env m a || may_change_any env ms a

  -- The matcher at a position; a marked position is always one of the list.
  pub may_change_at : {A : Type 0} → Leaves A → Matchers A → A → ℕ → Bool
  may_change_at env nil a k = true
  may_change_at env (cons m ms) a zero = may_change env m a
  may_change_at env (cons m ms) a (suc k) = may_change_at env ms a k
