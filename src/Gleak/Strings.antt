-- ===== src/Gleak/Strings.antt =====
-- What gleak uses of the packages strings and strconv, on the bytes of a text. White space and digits are
-- those of ASCII, and all other bytes are neither.
use gomega.Base.{
  ℕ, zero, suc, ◌+◌, ◌-◌, ◌*◌, Bool, true, false, ◌&&◌, ◌||◌, ◌==◌, ltb, leb, Option, none, some,
  List, [], ◌∷◌, if◌then◌else◌, is_some, length, take, drop,
}

abbrev pub Bytes : Type 0
Bytes = List ℕ

abbrev pub same_bytes : Bytes → Bytes → Bool
same_bytes [] [] = true
same_bytes [] (d ∷ ds) = false
same_bytes (c ∷ cs) [] = false
same_bytes (c ∷ cs) (d ∷ ds) = (c == d) && same_bytes cs ds

-- HasPrefix(s, p), and the others with the part first.
abbrev pub has_prefix : Bytes → Bytes → Bool
has_prefix [] s = true
has_prefix (c ∷ p) [] = false
has_prefix (c ∷ p) (d ∷ s) = (c == d) && has_prefix p s

abbrev pub has_suffix : Bytes → Bytes → Bool
has_suffix p s = same_bytes (drop (length s - length p) s) p

abbrev pub trim_prefix : Bytes → Bytes → Bytes
trim_prefix p s = if has_prefix p s then drop (length p) s else s

abbrev pub trim_suffix : Bytes → Bytes → Bytes
trim_suffix p s = if has_suffix p s then take (length s - length p) s else s

abbrev next : Option ℕ → Option ℕ
next none = none
next (some i) = some (suc i)

abbrev pub index : Bytes → Bytes → Option ℕ
index p [] = if has_prefix p [] then some 0 else none
index p (c ∷ s) = let later = index p s in if has_prefix p (c ∷ s) then some 0 else next later

abbrev pub last_index : Bytes → Bytes → Option ℕ
last_index p [] = if has_prefix p [] then some 0 else none
last_index p (c ∷ s) = elim (last_index p s) [
  | some i ↦ some (suc i)
  | none ↦ if has_prefix p (c ∷ s) then some 0 else none
]

abbrev pub contains_bytes : Bytes → Bytes → Bool
contains_bytes p s = is_some (index p s)

abbrev pub is_space : ℕ → Bool
is_space c = (c == 32) || (leb 9 c && leb c 13)

-- TrimLeft and TrimRight by a test of a byte.
abbrev pub trim_left : (ℕ → Bool) → Bytes → Bytes
trim_left t [] = []
trim_left t (c ∷ s) = let rest = trim_left t s in if t c then rest else c ∷ s

abbrev pub trim_right : (ℕ → Bool) → Bytes → Bytes
trim_right t [] = []
trim_right t (c ∷ s) = elim (trim_right t s) [
  | [] ↦ if t c then [] else c ∷ []
  | d ∷ ds ↦ c ∷ d ∷ ds
]

abbrev pub trim_space : Bytes → Bytes
trim_space s = trim_right is_space (trim_left is_space s)

-- What is before the first `sep`, and what is after it.
abbrev pub cut : ℕ → Bytes → Option (Bytes × Bytes)
cut sep [] = none
cut sep (c ∷ s) =
    let rest : Option (Bytes × Bytes) = elim (cut sep s) [
      | none ↦ none
      | some found ↦ some (c ∷ found.0, found.1)
    ] in
    if c == sep then some ([], s) else rest

-- SplitN at a byte.
abbrev pub split_n : ℕ → ℕ → Bytes → List Bytes
split_n zero sep s = []
split_n (suc zero) sep s = s ∷ []
split_n (suc (suc n)) sep s = elim (cut sep s) [
  | none ↦ s ∷ []
  | some found ↦ found.0 ∷ split_n (suc n) sep found.1
]

-- ParseUint(s, 10, 64).
abbrev pub parse_from : ℕ → Bytes → Option ℕ
parse_from n [] = some n
parse_from n (c ∷ s) =
    let rest = parse_from (n * 10 + (c - 48)) s in
    if leb 48 c && leb c 57 && ltb (n * 10 + (c - 48)) 18446744073709551616 then rest else none

abbrev pub parse_uint : Bytes → Option ℕ
parse_uint [] = none
parse_uint (c ∷ s) = parse_from 0 (c ∷ s)
