-- ===== src/Format/Windows.antt =====
-- What truncateAndFormat shows of a text.
use gomega.Base.{
  ℕ, zero, suc, ◌+◌, ◌-◌, ◌≡◌, ◌≤◌, inl, inr, refl, sym, ap, ◌∙◌, true, ltb, leb, some, [], ◌∷◌,
  ◌++◌, length, length-append, take, drop, arith, Bool-cases,
}
use gomega.Format.{
  Text, slice, window_start, window_end, left_padding, right_padding, quoted, windowed,
  truncate_and_format,
}

-- What stands before the byte of an index, and what after it.
abbrev pub shown_before : ℕ → Text → Text
shown_before around p = left_padding around (length p) ++ drop (length p - around) p

abbrev pub shown_after : ℕ → Text → ℕ → Text → Text
shown_after around p x u = take around u ++ right_padding around (length p) (length (p ++ x ∷ u))

drop-append : (n : ℕ) (p q : Text) → n ≤ length p → drop n (p ++ q) ≡ drop n p ++ q
drop-append zero p q below = refl
drop-append (suc n) [] q below = absurd (omega (arith, below))
drop-append (suc n) (b ∷ p) q below = drop-append n p q (omega (arith, below))

take-append :
    (k n : ℕ) (l : Text) (x : ℕ) (u : Text)
    → k ≡ length l + 1 + n
    → take k (l ++ x ∷ u) ≡ l ++ x ∷ take n u
take-append zero n l x u count = absurd (omega (arith, count))
take-append (suc k) n [] x u count =
    let same : k ≡ n = omega (arith, count) in ap (λ j. x ∷ take j u) same
take-append (suc k) n (b ∷ l) x u count =
    ap (λ t. b ∷ t) (take-append k n l x u (omega (arith, count)))

take-all : (n : ℕ) (u : Text) → length u ≤ n → take n u ≡ u
take-all zero [] below = refl
take-all zero (b ∷ u) below = absurd (omega (arith, below))
take-all (suc n) [] below = refl
take-all (suc n) (b ∷ u) below = ap (λ t. b ∷ t) (take-all n u (omega (arith, below)))

length-drop : (n : ℕ) (p : Text) → length (drop n p) ≡ length p - n
length-drop zero p = omega arith
length-drop (suc n) [] = omega arith
length-drop (suc n) (b ∷ p) = length-drop n p ∙ omega arith

-- The bytes from around a byte on up to around it.
slice-window :
    (around : ℕ) (p : Text) (x : ℕ) (u : Text)
    → slice
        (p ++ x ∷ u)
        (window_start around (length p))
        (window_end around (length p) (length (p ++ x ∷ u)))
      ≡ some (drop (length p - around) p ++ x ∷ take around u)
slice-window around p x u =
    let start = length p - around in
    let l = drop start p in
    let whole = length-append p (x ∷ u) in
    let before = length-drop start p in
    let tail = drop-append start p (x ∷ u) (omega arith) in
    elim (Bool-cases (ltb (length (p ++ x ∷ u)) (length p + around + 1))) [
      | inl beyond ↦
          let order : leb start (length (p ++ x ∷ u)) ≡ true = ground (arith, whole) in
          let count : length (p ++ x ∷ u) - start ≡ length l + 1 + length u =
            omega (arith, whole, before) in
          let short : length u ≤ around = ground (arith, beyond, whole) in
          rw (beyond, order, tail)
            (ap some (
              take-append (length (p ++ x ∷ u) - start) (length u) l x u count
              ∙ ap (λ t. l ++ x ∷ t)
                  (take-all (length u) u (omega arith) ∙ sym (take-all around u short))))
      | inr within ↦
          let order : leb start (length p + around + 1) ≡ true = ground arith in
          let count : length p + around + 1 - start ≡ length l + 1 + around =
            omega (arith, before) in
          rw (within, order, tail)
            (ap some (take-append (length p + around + 1 - start) around l x u count))
    ]

pub truncate_and_format-shown :
    (around : ℕ) (p : Text) (x : ℕ) (u : Text)
    → truncate_and_format around (p ++ x ∷ u) (length p)
      ≡ some (
          34
          ∷ ((left_padding around (length p)
                ++ ((drop (length p - around) p ++ x ∷ take around u)
                    ++ right_padding around (length p) (length (p ++ x ∷ u))))
              ++ 34 ∷ []))
unfolding truncate_and_format
truncate_and_format-shown around p x u =
    ap
      (windowed (left_padding around (length p))
        (right_padding around (length p) (length (p ++ x ∷ u))))
      (slice-window around p x u)

-- With an index at most one beyond the end, and a byte around it, the slice is in range.
pub truncate_and_format-some :
    (around : ℕ) (s : Text) (index : ℕ)
    → 1 ≤ around
    → index ≤ length s + 1
    → (r : Text) × (truncate_and_format around s index ≡ some r)
unfolding truncate_and_format
truncate_and_format-some around s index wide below =
    let start = index - around in
    let end = window_end around index (length s) in
    let order : leb start end ≡ true = ground (arith, wide, below) in
    (
      quoted (
          left_padding around index
          ++ (take (end - start) (drop start s) ++ right_padding around index (length s))),
      rw order refl,
    )
