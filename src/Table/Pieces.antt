-- ===== src/Table/Pieces.antt =====
-- What a long word is broken into.
use mathlib.Core.List.{append_assoc, append-nil}
use gomega.Base.{
  ℕ, suc, ◌-◌, ◌≡◌, ◌≤◌, ◌<◌, inl, inr, refl, sym, ap, ◌∙◌, ◌==◌, List, [], ◌∷◌, ◌++◌, length,
  length-append, arith, Bool-cases, All,
}
use gomega.Table.{Text, split_word}
use gomega.Table.Words.{IsLong}

abbrev concat : List Text → Text
concat [] = []
concat (w ∷ ws) = w ++ concat ws

-- Each text with a hyphen after it.
abbrev hyphenated : List Text → List Text
hyphenated [] = []
hyphenated (w ∷ ws) = (w ++ 45 ∷ []) ∷ hyphenated ws

-- A word is some texts of a rune less than the width and a rest shorter than those, and its pieces are
-- those texts hyphenated.
abbrev pub IsBroken : ℕ → Text → List Text → Type 0
IsBroken width word pieces =
    (bodies : List Text) × (rest : Text) × (concat bodies ++ rest ≡ word)
    × (pieces ≡ hyphenated bodies)
    × All (IsLong (width - 1)) bodies
    × (length rest < width - 1)

split_word-IsBroken_from :
    (width n : ℕ) (sub s : Text)
    → length sub ≡ n
    → n < width - 1
    → IsBroken width (sub ++ s) (split_word width n sub s)
split_word-IsBroken_from width n sub [] same below =
    ([], sub, sym (append-nil sub), refl, tt, omega (arith, same, below))
split_word-IsBroken_from width n sub (c ∷ s) same below = elim (Bool-cases (suc n == width - 1)) [
  | inl hit ↦
      let (bodies, rest, whole, pieces, long, short) =
        split_word-IsBroken_from width 0 [] s refl (omega (arith, below)) in
      (
        (sub ++ c ∷ []) ∷ bodies,
        rest,
        append_assoc (sub ++ c ∷ []) (concat bodies) rest
            ∙ (ap (λ t. (sub ++ c ∷ []) ++ t) whole ∙ append_assoc sub (c ∷ []) s),
        rw hit (ap (λ ps. ((sub ++ c ∷ []) ++ 45 ∷ []) ∷ ps) pieces),
        (length-append sub (c ∷ []) ∙ ground (arith, hit, same), long),
        short,
      )
  | inr miss ↦
      let (bodies, rest, whole, pieces, long, short) =
        split_word-IsBroken_from width (suc n) (sub ++ c ∷ []) s
          (length-append sub (c ∷ []) ∙ omega (arith, same)) (ground (arith, miss, below)) in
      (bodies, rest, whole ∙ append_assoc sub (c ∷ []) s, rw miss pieces, long, short)
]

-- A word that is broken to a width of at least two runes gives pieces of a rune less than the width, each
-- with a hyphen after it, and what is left of the word after the last whole piece is in no piece.
pub split_word-IsBroken :
    (width : ℕ) (word : Text) → 2 ≤ width → IsBroken width word (split_word width 0 [] word)
split_word-IsBroken width word wide =
    split_word-IsBroken_from width 0 [] word refl (omega (arith, wide))
