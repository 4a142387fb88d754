-- ===== src/Gleak/Trims.antt =====
-- What the functions on strings do to a text put together from parts.
use gomega.Base.{
  ℕ, suc, ◌+◌, ◌-◌, ◌*◌, ◌≡◌, ◌≤◌, ◌<◌, refl, ap, ◌∙◌, Bool, true, false, not, ◌&&◌, ◌==◌, ltb,
  Option, none, some, List, [], ◌∷◌, ◌++◌, if◌then◌else◌, length, length-append, take, drop, arith,
}
use gomega.Gleak.Strings.{
  Bytes, same_bytes, has_prefix, has_suffix, trim_suffix, last_index, is_space, trim_left,
  trim_right, trim_space, cut, split_n, parse_from,
}

-- No byte `sep` in a text.
abbrev pub is_without : ℕ → Bytes → Bool
is_without sep [] = true
is_without sep (c ∷ s) = not (c == sep) && is_without sep s

pub both : (a b : Bool) → (a && b) ≡ true → (a ≡ true) × (b ≡ true)
both true b h = (refl, h)
both false b h = absurd (cc)

same_bytes_refl : (s : Bytes) → same_bytes s s ≡ true
same_bytes_refl [] = refl
same_bytes_refl (c ∷ s) = ground (arith, same_bytes_refl s)

pub drop-length : (x s : Bytes) → drop (length x) (x ++ s) ≡ s
drop-length [] s = refl
drop-length (c ∷ x) s = drop-length x s

drop-append : (x s : Bytes) → drop (length (x ++ s) - length s) (x ++ s) ≡ s
drop-append x s =
    let behind : length (x ++ s) - length s ≡ length x = omega (arith, length-append x s) in
    ap (λ k. drop k (x ++ s)) behind ∙ drop-length x s

pub take-length : (x s : Bytes) → take (length x) (x ++ s) ≡ x
take-length [] s = refl
take-length (c ∷ x) s = ap (λ y. c ∷ y) (take-length x s)

pub take-append : (x s : Bytes) → take (length (x ++ s) - length s) (x ++ s) ≡ x
take-append x s = ap (λ k. take k (x ++ s)) (omega (arith, length-append x s)) ∙ take-length x s

pub has_suffix-append :
    (p x s : Bytes) → length p ≡ length s → has_suffix p (x ++ s) ≡ same_bytes s p
has_suffix-append p x s same_length =
    ap (λ k. same_bytes (drop (length (x ++ s) - k) (x ++ s)) p) same_length
    ∙ ap (λ y. same_bytes y p) (drop-append x s)

pub trim_suffix-append : (p x : Bytes) → trim_suffix p (x ++ p) ≡ x
trim_suffix-append p x =
    let found = has_suffix-append p x p refl ∙ same_bytes_refl p in
    ap (λ b. if b then take (length (x ++ p) - length p) (x ++ p) else x ++ p) found
    ∙ take-append x p

pub cut-append :
    (sep : ℕ) (x s : Bytes) → is_without sep x ≡ true → cut sep (x ++ sep ∷ s) ≡ some (x, s)
cut-append sep [] s without = ground arith
cut-append sep (c ∷ x) s without =
    let rest = cut-append sep x s (ground (arith, without)) in ground (arith, rest, without)

pub split_n-append :
    (n sep : ℕ) (x s : Bytes)
    → is_without sep x ≡ true
    → split_n (suc (suc n)) sep (x ++ sep ∷ s) ≡ x ∷ split_n (suc n) sep s
split_n-append n sep x s without = ground (arith, cut-append sep x s without)

-- Where a part occurs again after its first byte, if anywhere.
abbrev pub occurs_later : Bytes → Bytes → Option ℕ
occurs_later p [] = none
occurs_later p (c ∷ s) = last_index p s

has_prefix-append : (p s : Bytes) → has_prefix p (p ++ s) ≡ true
has_prefix-append [] s = refl
has_prefix-append (c ∷ p) s = ground (arith, has_prefix-append p s)

pub last_index-append :
    (c : ℕ) (p x s : Bytes)
    → last_index (c ∷ p) (p ++ s) ≡ none
    → last_index (c ∷ p) (x ++ (c ∷ p ++ s)) ≡ some (length x)
last_index-append c p [] s last = ground (arith, last, has_prefix-append p s)
last_index-append c p (d ∷ x) s last = ground (arith, last_index-append c p x s last)

abbrev pub begins_tight : Bytes → Bool
begins_tight [] = false
begins_tight (c ∷ s) = not (is_space c)

abbrev pub ends_tight : Bytes → Bool
ends_tight [] = false
ends_tight (c ∷ []) = not (is_space c)
ends_tight (c ∷ d ∷ s) = ends_tight (d ∷ s)

-- The first and the last byte are no white space.
abbrev pub is_tight : Bytes → Bool
is_tight s = begins_tight s && ends_tight s

trim_left-tight : (s : Bytes) → begins_tight s ≡ true → trim_left is_space s ≡ s
trim_left-tight [] tight = refl
trim_left-tight (c ∷ s) tight =
    let solid : is_space c ≡ false = ground (arith, tight) in
    ap (λ b. if b then trim_left is_space s else c ∷ s) solid

trim_right-tight : (s : Bytes) → ends_tight s ≡ true → trim_right is_space s ≡ s
trim_right-tight [] tight = refl
trim_right-tight (c ∷ []) tight =
    let solid : is_space c ≡ false = ground (arith, tight) in
    ap (λ b. if b then [] else c ∷ []) solid
trim_right-tight (c ∷ d ∷ s) tight =
    ap
      (λ r. elim r as (λ _. Bytes) [ [] ↦ if is_space c then [] else c ∷ [] | e ∷ es ↦ c ∷ e ∷ es ])
      (trim_right-tight (d ∷ s) tight)

trim_right-newline : (s : Bytes) → ends_tight s ≡ true → trim_right is_space (s ++ 10 ∷ []) ≡ s
trim_right-newline [] tight = absurd (cc)
trim_right-newline (c ∷ []) tight =
    let solid : is_space c ≡ false = ground (arith, tight) in
    ap (λ b. if b then [] else c ∷ []) solid
trim_right-newline (c ∷ d ∷ s) tight =
    ap
      (λ r. elim r as (λ _. Bytes) [ [] ↦ if is_space c then [] else c ∷ [] | e ∷ es ↦ c ∷ e ∷ es ])
      (trim_right-newline (d ∷ s) tight)

begins_tight-append : (s t : Bytes) → begins_tight s ≡ true → begins_tight (s ++ t) ≡ true
begins_tight-append [] t tight = absurd (cc)
begins_tight-append (c ∷ s) t tight = tight

pub trim_space-line : (s : Bytes) → is_tight s ≡ true → trim_space (s ++ 10 ∷ []) ≡ s
trim_space-line s tight =
    ap (trim_right is_space)
      (trim_left-tight (s ++ 10 ∷ []) (begins_tight-append s (10 ∷ []) (ground (arith, tight))))
    ∙ trim_right-newline s (ground (arith, tight))

pub trim_space-indented : (s : Bytes) → is_tight s ≡ true → trim_space (9 ∷ s) ≡ s
trim_space-indented s tight =
    ap (trim_right is_space) (trim_left-tight s (ground (arith, tight)))
    ∙ trim_right-tight s (ground (arith, tight))

abbrev pub decimal : ℕ → List ℕ → ℕ
decimal n [] = n
decimal n (d ∷ ds) = decimal (n * 10 + d) ds

abbrev pub are_digits : List ℕ → Bool
are_digits [] = true
are_digits (d ∷ ds) = ltb d 10 && are_digits ds

abbrev pub digits_text : List ℕ → Bytes
digits_text [] = []
digits_text (d ∷ ds) = (48 + d) ∷ digits_text ds

decimal-grows : (n : ℕ) (ds : List ℕ) → n ≤ decimal n ds
decimal-grows n [] = omega arith
decimal-grows n (d ∷ ds) = omega (arith, decimal-grows (n * 10 + d) ds)

pub parse_from-digits_text :
    (n : ℕ) (ds : List ℕ)
    → are_digits ds ≡ true
    → decimal n ds < 18446744073709551616
    → parse_from n (digits_text ds) ≡ some (decimal n ds)
parse_from-digits_text n [] digits small = refl
parse_from-digits_text n (d ∷ ds) digits small =
    let digit : d < 10 = ground (arith, digits) in
    let back : 48 + d - 48 ≡ d = omega arith in
    let below : n * 10 + d < 18446744073709551616 =
      omega (arith, small, decimal-grows (n * 10 + d) ds) in
    let rest = parse_from-digits_text (n * 10 + d) ds (ground (arith, digits)) small in
    ground (arith, digit, back, below, rest)

pub digits_text-IsWithout : (ds : List ℕ) → is_without 32 (digits_text ds) ≡ true
digits_text-IsWithout [] = refl
digits_text-IsWithout (d ∷ ds) = ground (arith, digits_text-IsWithout ds)
