-- ===== src/Base/Int.antt =====
-- Signed integers over the native numbers, with the tests that the program makes of them.
use gomega.Base.{ℕ, Bool, true, false, ◌==◌}

-- `negsuc n` is -(n + 1).
pub data ℤ : Type 0 where
  pos : ℕ → ℤ
  negsuc : ℕ → ℤ

abbrev pub is_negative : ℤ → Bool
is_negative (pos n) = false
is_negative (negsuc n) = true

-- x == 0, 1, … for an integer on the right.
abbrev pub is_num : ℕ → ℤ → Bool
is_num n (pos m) = n == m
is_num n (negsuc m) = false

-- z < 1.
abbrev pub below_one : ℤ → Bool
below_one (pos n) = n == 0
below_one (negsuc n) = true
