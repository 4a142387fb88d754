-- ===== src/Matchers/Examples.antt =====
-- Theorems on the tree of matchers at concrete inputs.
use gomega.Base.{ℕ, ◌≡◌, refl, none, arith, leb, ltb, ◌&&◌}
use gomega.Matchers.{
  Leaves, value, Matcher, Matchers, nil, cons, leaf, all_of, match, may_change, match_all,
  may_change_any, fails, keep_scanning,
}
use gomega.Matchers.Oracle.{IsCalm, IsLater, match-may_change}

-- The matcher i succeeds on numbers of at least i; the matchers from 5 on may change.
abbrev at_least : Leaves ℕ
at_least = record {
  leaf_match = λ i a. (leb i a, none);
  leaf_may_change = λ i a. leb 5 i;
  transform = λ t a. value t;
}

abbrev later_on : Leaves ℕ
later_on = record at_least { leaf_match = λ i a. (ltb i 5 && leb i a, none) }

three_and_seven : Matchers ℕ
three_and_seven = cons (leaf 3) (cons (leaf 7) nil)

at_least-IsCalm : IsCalm at_least
at_least-IsCalm = record { no_error = λ i a. refl; transforms = λ t a. (t, refl) }

later_on-IsCalm : IsCalm later_on
later_on-IsCalm = record { no_error = λ i a. refl; transforms = λ t a. (t, refl) }

at_least-IsLater : IsLater at_least later_on
at_least-IsLater = record { stable = λ i a h. ground arith; same_transforms = λ t a. refl }

abbrev three_and_four : Matcher ℕ
three_and_four = all_of (cons (leaf 3) (cons (leaf 4) nil)) none

match-may_change_example :
    (match later_on (match at_least three_and_four 6).1 6).0 ≡ (match at_least three_and_four 6).0
unfolding match match_all may_change may_change_any fails keep_scanning
match-may_change_example =
    match-may_change at_least later_on at_least-IsCalm later_on-IsCalm at_least-IsLater
      three_and_four 6 refl
