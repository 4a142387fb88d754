-- ===== src/Format/Cuts.antt =====
-- Where truncateLongStrings cuts a text.
use mathlib.Core.List.{append_assoc, append-nil}
use gomega.Base.{
  ℕ, ◌+◌, ◌≡◌, ◌≤◌, ◌<◌, ◌⊎◌, inl, inr, refl, sym, ap, ◌∙◌, true, ltb, List, [], ◌∷◌, ◌++◌, length,
  length-append, arith, Bool-cases, All,
}
use gomega.Format.{Text, ellipsis}
use gomega.Format.Texts.{Rune, write_runes, truncate_help_text, truncate_long_strings}

abbrev pub encoded : List Rune → Text
encoded [] = []
encoded (r ∷ rs) = r.written ++ encoded rs

-- A rune that is written as it was read, of one to four bytes.
abbrev pub IsValid : Rune → Type 0
IsValid r = (length r.written ≡ r.size) × (1 ≤ r.size) × (r.size ≤ 4)

write_runes-prefix :
    (max i : ℕ) (rs : List Rune)
    → i < max + 4
    → All IsValid rs
    → (rest : Text) × (encoded rs ≡ write_runes max i rs ++ rest)
      × (i + length (write_runes max i rs) < max + 4)
      × ((max ≤ i + length (write_runes max i rs)) ⊎ (rest ≡ []))
write_runes-prefix max i [] small valid = ([], refl, omega (arith, small), inr refl)
write_runes-prefix max i (r ∷ rs) small ((same, _, short), valid) = elim (Bool-cases (ltb i max)) [
  | inl go ↦
      let (rest, whole, below, enough) =
        write_runes-prefix max (i + r.size) rs (ground (arith, go, short)) valid in
      let count = length-append r.written (write_runes max (i + r.size) rs) in
      (
        rest,
        rw go (
            ap (λ t. r.written ++ t) whole
            ∙ sym (append_assoc r.written (write_runes max (i + r.size) rs) rest)),
        rw go (omega (arith, below, count, same)),
        rw go
            (elim enough [ inl much ↦ inl (omega (arith, much, count, same)) | inr all ↦ inr all ]),
      )
  | inr stop ↦ (
    encoded (r ∷ rs),
    rw stop refl,
    rw stop (omega (arith, small)),
    rw stop (inl (ground (arith, stop))),
  )
]

-- A text of whole runes that is longer than the limit, which is not 0, is cut after a rune, at the limit
-- or up to three bytes beyond it, and the help follows.
pub truncate_long_strings-cut :
    (max_length : ℕ) (runes : Text → List Rune) (s : Text)
    → encoded (runes s) ≡ s
    → All IsValid (runes s)
    → 1 ≤ max_length
    → max_length < length s
    → (kept rest : Text) × (s ≡ kept ++ rest)
      × (truncate_long_strings max_length runes s ≡ kept ++ (ellipsis ++ (10 ∷ truncate_help_text)))
      × (max_length ≤ length kept)
      × (length kept < max_length + 4)
unfolding truncate_long_strings
truncate_long_strings-cut max_length runes s same valid some_length long =
    let (rest, whole, below, enough) =
      write_runes-prefix max_length 0 (runes s) (omega arith) valid in
    let kept = write_runes max_length 0 (runes s) in
    let limited : ltb 0 max_length ≡ true = ground (arith, some_length) in
    let longer : ltb max_length (length s) ≡ true = ground (arith, long) in
    let parts : s ≡ kept ++ rest = sym same ∙ whole in
    (
      kept,
      rest,
      parts,
      rw (limited, longer) refl,
      elim enough [
        | inl much ↦ omega (arith, much)
        | inr all ↦
            let bare : s ≡ kept = parts ∙ (ap (λ t. kept ++ t) all ∙ append-nil kept) in
            let count : length s ≡ length kept = ap length bare in omega (arith, long, count)
      ],
      omega (arith, below),
    )
