-- ===== src/Numerically/Examples.antt =====
-- Instances of the theorems on numbers.
use gomega.Base.{ℕ, ◌+◌, ◌≤◌, ◌≡◌, ◌↔◌, ◌⊎◌, ◌==◌, leb, ltb, [], ◌∷◌, arith, true}
use gomega.Numerically.{
  Floats, integer, unsigned_integer, near, matched, be_numerically, word, half_word,
}
use gomega.Numerically.Laws.{place, be_numerically-near_integers}

-- Whole numbers in place of floating point.
abbrev whole : Floats ℕ
whole = record {
  float_leb = leb;
  float_ltb = ltb;
  float_eq = λ a b. a == b;
  is_within = λ a b t. leb a (b + t);
  of_int = λ n. n;
  of_uint = λ n. n;
  to_int = λ n. n;
  to_uint = λ n. n;
  small = 0;
}

-- The largest int64 and the smallest.
be_numerically-near_integers_example :
    ((be_numerically whole near (integer half_word ∷ integer 1 ∷ []) (integer 9223372036854775807)
        ≡ matched true)
      ↔ (((place 9223372036854775807 ≤ place half_word + 1)
            × (place half_word ≤ place 9223372036854775807 + 1))
          ⊎ ((place half_word + word ≤ place 9223372036854775807 + 1)
              ⊎ (place 9223372036854775807 + word ≤ place half_word + 1))))
    × (be_numerically whole near
          (unsigned_integer half_word ∷ integer 1 ∷ [])
          (integer 9223372036854775807)
        ≡ be_numerically whole near
            (integer half_word ∷ integer 1 ∷ [])
            (integer 9223372036854775807))
be_numerically-near_integers_example =
    be_numerically-near_integers whole 9223372036854775807 half_word 1 (omega arith) (omega arith)
      (omega arith)
