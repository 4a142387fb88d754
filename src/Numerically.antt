-- ===== src/Numerically.antt =====
-- matchers/be_numerically_matcher.go and the numbers of matchers/type_support.go. A 64-bit integer is
-- the number below 2 ^ 64 that its bits are, signed or not; floating point is the environment's.
pub mod Laws
mod Examples
use gomega.Base.{
  ℕ, ◌+◌, ◌-◌, ◌%◌, Bool, true, false, not, ◌&&◌, ◌||◌, Option, none, some, List, [], ◌∷◌,
  if◌then◌else◌, ltb, leb, ◌==◌,
}

abbrev pub word : ℕ
word = 18446744073709551616

abbrev pub half_word : ℕ
half_word = 9223372036854775808

-- `a - b` and `-a` on 64 bits.
unfoldable pub minus : ℕ → ℕ → ℕ
minus a b = (a + (word - b)) % word

-- `a <= b` of int64.
unfoldable pub signed_leb : ℕ → ℕ → Bool
signed_leb a b = leb ((a + half_word) % word) ((b + half_word) % word)

-- float64: its comparisons, whether two values lie within a third of each other, the conversions, and
-- the default threshold 1e-8.
pub record Floats (F : Type 0) : Type 0 where
  pub float_leb : F → F → Bool
  pub float_ltb : F → F → Bool
  pub float_eq : F → F → Bool
  pub is_within : F → F → F → Bool
  pub of_int : ℕ → F
  pub of_uint : ℕ → F
  pub to_int : F → ℕ
  pub to_uint : F → ℕ
  pub small : F

-- An `interface{}`: a number, by its kind, or none.
pub data Value (F : Type 0) : Type 0 where
  integer : ℕ → Value F
  unsigned_integer : ℕ → Value F
  uintptr : ℕ → Value F
  float : F → Value F
  not_a_number : Value F

pub data Comparator : Type 0 where
  equal_to near greater greater_equal less less_equal unknown : Comparator

-- The results: a success or failure, an error, or a panic of a conversion.
pub data Outcome : Type 0 where
  matched : Bool → Outcome
  wrong_arguments expected_a_number unknown_comparator failed_to_compare : Outcome
  panics : Outcome

module _ {F : Type 0} where
  unfoldable pub is_number : Value F → Bool
  is_number not_a_number = false
  is_number v = true

  unfoldable pub to_integer : Floats F → Value F → Option ℕ
  to_integer fl (integer n) = some n
  to_integer fl (unsigned_integer n) = some n
  to_integer fl (float x) = some (fl.to_int x)
  to_integer fl v = none

  unfoldable pub to_unsigned_integer : Floats F → Value F → Option ℕ
  to_unsigned_integer fl (integer n) = some n
  to_unsigned_integer fl (unsigned_integer n) = some n
  to_unsigned_integer fl (float x) = some (fl.to_uint x)
  to_unsigned_integer fl v = none

  unfoldable pub to_float : Floats F → Value F → Option F
  to_float fl (integer n) = some (fl.of_int n)
  to_float fl (unsigned_integer n) = some (fl.of_uint n)
  to_float fl (float x) = some x
  to_float fl v = none

  unfoldable pub is_integer : Value F → Bool
  is_integer (integer n) = true
  is_integer v = false

  unfoldable pub is_unsigned_integer : Value F → Bool
  is_unsigned_integer (unsigned_integer n) = true
  is_unsigned_integer v = false

  unfoldable pub is_float : Value F → Bool
  is_float (float x) = true
  is_float v = false

unfoldable pub match_integers : Comparator → ℕ → ℕ → ℕ → Bool
unfolding minus signed_leb
match_integers equal_to a c t = signed_leb (minus 0 t) (minus a c) && signed_leb (minus a c) t
match_integers near a c t = signed_leb (minus 0 t) (minus a c) && signed_leb (minus a c) t
match_integers greater a c t = not (signed_leb a c)
match_integers greater_equal a c t = signed_leb c a
match_integers less a c t = not (signed_leb c a)
match_integers less_equal a c t = signed_leb a c
match_integers unknown a c t = false

unfoldable pub match_unsigned_integers : Comparator → ℕ → ℕ → ℕ → Bool
unfolding minus
match_unsigned_integers equal_to a c t = if ltb a c then leb (minus c a) t else leb (minus a c) t
match_unsigned_integers near a c t = if ltb a c then leb (minus c a) t else leb (minus a c) t
match_unsigned_integers greater a c t = ltb c a
match_unsigned_integers greater_equal a c t = leb c a
match_unsigned_integers less a c t = ltb a c
match_unsigned_integers less_equal a c t = leb a c
match_unsigned_integers unknown a c t = false

-- `none` is a panic of the conversion.
unfoldable pub test_operands :
    {N : Type 0} → (N → N → N → Bool) → Option N → Option N → Option N → Outcome
test_operands test (some a) (some c) (some t) = matched (test a c t)
test_operands test a c t = panics

unfoldable pub second_operand : {V N : Type 0} → (V → Option N) → Option V → N → Option N
second_operand convert none zero = some zero
second_operand convert (some v) zero = convert v

module _ {F : Type 0} (fl : Floats F) where
  unfoldable pub match_floats : Comparator → F → F → F → Bool
  match_floats equal_to a c t = fl.float_eq a c
  match_floats near a c t = fl.is_within a c t
  match_floats greater a c t = fl.float_ltb c a
  match_floats greater_equal a c t = fl.float_leb c a
  match_floats less a c t = fl.float_ltb a c
  match_floats less_equal a c t = fl.float_leb a c
  match_floats unknown a c t = false

  -- The first two operands and `compareTo[1]`, if there is one, converted, and compared.
  unfoldable pub compared :
      {N : Type 0}
      → (Value F → Option N)
      → (N → N → N → Bool)
      → Value F
      → Value F
      → Option (Value F)
      → N
      → Outcome
  unfolding test_operands second_operand
  compared convert test a c second zero =
      test_operands test (convert a) (convert c) (second_operand convert second zero)

  -- Match from the switch over the comparator on.
  unfoldable pub match_numbers : Comparator → Value F → Value F → Option (Value F) → Outcome
  unfolding compared match_integers match_unsigned_integers match_floats is_float is_integer
      is_unsigned_integer to_float to_integer to_unsigned_integer
  match_numbers unknown a c second = unknown_comparator
  match_numbers cmp a c second =
      if is_float a || is_float c
      then compared (to_float fl) (match_floats cmp) a c second fl.small
      else if is_integer a
      then compared (to_integer fl) (match_integers cmp) a c second 0
      else if is_unsigned_integer a
      then compared (to_unsigned_integer fl) (match_unsigned_integers cmp) a c second 0
      else failed_to_compare

  -- Match.
  unfoldable pub be_numerically : Comparator → List (Value F) → Value F → Outcome
  unfolding match_numbers is_number
  be_numerically cmp (c ∷ []) a =
      if not (is_number a)
      then expected_a_number
      else if not (is_number c)
      then expected_a_number
      else match_numbers cmp a c none
  be_numerically cmp (c ∷ t ∷ []) a =
      if not (is_number a)
      then expected_a_number
      else if not (is_number c)
      then expected_a_number
      else if not (is_number t)
      then expected_a_number
      else match_numbers cmp a c (some t)
  be_numerically cmp cs a = wrong_arguments
