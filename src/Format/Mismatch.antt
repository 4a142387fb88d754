-- ===== src/Format/Mismatch.antt =====
-- Where findFirstMismatch finds a mismatch.
use gomega.Base.{
  ℕ, suc, ◌+◌, ◌≡◌, ◌≢◌, ◌≤◌, ◌<◌, inl, inr, ap, ◌∙◌, ltb, List, [], ◌∷◌, ◌++◌, if◌then◌else◌,
  length, arith, Bool-cases, All,
}
use gomega.Format.Equality.{equal_text_refl}
use gomega.Format.{Text, equal_text, mismatch_from, find_first_mismatch}

-- The pieces of an ASCII text.
abbrev pub singles : Text → List Text
singles [] = []
singles (b ∷ s) = (b ∷ []) ∷ singles s

abbrev pub IsAscii : Text → Type 0
IsAscii s = All (λ b. b < 128) s

mismatch_from-singles :
    (i : ℕ) (p : Text) (x y : ℕ) (u v : Text) (at_end : ℕ)
    → x ≢ y
    → mismatch_from i (singles (p ++ x ∷ u)) (singles (p ++ y ∷ v)) at_end ≡ i + length p
unfolding mismatch_from
mismatch_from-singles i [] x y u v at_end differ = ground (arith, differ)
mismatch_from-singles i (b ∷ p) x y u v at_end differ =
    rw (equal_text_refl (b ∷ []))
      (mismatch_from-singles (suc i) p x y u v at_end differ ∙ omega arith)

-- Two texts that agree up to a byte differ there.
pub find_first_mismatch-common :
    (explode : Text → List Text) (p : Text) (x y : ℕ) (u v : Text)
    → ((s : Text) → IsAscii s → explode s ≡ singles s)
    → IsAscii (p ++ x ∷ u)
    → IsAscii (p ++ y ∷ v)
    → x ≢ y
    → find_first_mismatch explode (p ++ x ∷ u) (p ++ y ∷ v) ≡ length p
unfolding find_first_mismatch
find_first_mismatch-common explode p x y u v law ascii ascii' differ =
    let at_end =
      if ltb (length (p ++ x ∷ u)) (length (p ++ y ∷ v)) then length (p ++ x ∷ u) + 1 else 0 in
    ap (λ as'. mismatch_from 0 as' (explode (p ++ y ∷ v)) at_end) (law (p ++ x ∷ u) ascii)
    ∙ (ap (λ bs. mismatch_from 0 (singles (p ++ x ∷ u)) bs at_end) (law (p ++ y ∷ v) ascii')
        ∙ (mismatch_from-singles 0 p x y u v at_end differ ∙ omega arith))

mismatch_from-left :
    (i : ℕ) (xs ys : List Text) (at_end k : ℕ)
    → at_end ≤ k
    → i + length xs ≤ k
    → mismatch_from i xs ys at_end ≤ k
unfolding mismatch_from
mismatch_from-left i [] ys at_end k small below = small
mismatch_from-left i (a ∷ xs) [] at_end k small below = omega (arith, below)
mismatch_from-left i (a ∷ xs) (b ∷ ys) at_end k small below = elim (Bool-cases (equal_text a b)) [
  | inl same ↦ rw same (mismatch_from-left (suc i) xs ys at_end k small (omega (arith, below)))
  | inr differ ↦ rw differ (omega (arith, below))
]

mismatch_from-right :
    (i : ℕ) (xs ys : List Text) (at_end k : ℕ)
    → at_end ≤ k
    → i + length ys ≤ k
    → mismatch_from i xs ys at_end ≤ k
unfolding mismatch_from
mismatch_from-right i [] ys at_end k small below = small
mismatch_from-right i (a ∷ xs) [] at_end k small below = omega (arith, below)
mismatch_from-right i (a ∷ xs) (b ∷ ys) at_end k small below = elim (Bool-cases (equal_text a b)) [
  | inl same ↦ rw same (mismatch_from-right (suc i) xs ys at_end k small (omega (arith, below)))
  | inr differ ↦ rw differ (omega (arith, below))
]

-- A mismatch is at most one beyond the end of either text.
pub find_first_mismatch-bound :
    (explode : Text → List Text) (a b : Text)
    → ((s : Text) → length (explode s) ≤ length s)
    → (find_first_mismatch explode a b ≤ length a + 1)
      × (find_first_mismatch explode a b ≤ length b + 1)
unfolding find_first_mismatch
find_first_mismatch-bound explode a b law =
    let at_end = if ltb (length a) (length b) then length a + 1 else 0 in
    let small : at_end ≤ length a + 1 = ground arith in
    let small' : at_end ≤ length b + 1 = ground arith in
    (
      mismatch_from-left 0 (explode a) (explode b) at_end (length a + 1) small
          (omega (arith, law a)),
      mismatch_from-right 0 (explode a) (explode b) at_end (length b + 1) small'
          (omega (arith, law b)),
    )

pub length-singles : (s : Text) → length (singles s) ≤ length s
length-singles [] = omega arith
length-singles (b ∷ s) = omega (arith, length-singles s)
