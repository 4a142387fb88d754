-- ===== src/Format/Equality.antt =====
-- The comparison of texts byte by byte.
use gomega.Base.{◌≡◌, ◌≢◌, inl, inr, refl, true, false, ◌==◌, [], ◌∷◌, arith, Bool-cases, ==_iff}
use gomega.Format.{Text, equal_text}

pub equal_text_refl : (s : Text) → equal_text s s ≡ true
equal_text_refl [] = refl
equal_text_refl (b ∷ s) = ground (arith, equal_text_refl s)

pub equal_text_iff : (a b : Text) → equal_text a b ≡ true → a ≡ b
equal_text_iff [] [] same = refl
equal_text_iff [] (c ∷ b) same = absurd (cc)
equal_text_iff (d ∷ a) [] same = absurd (cc)
equal_text_iff (d ∷ a) (c ∷ b) same = elim (Bool-cases (d == c)) [
  | inl hit ↦
      let head : d ≡ c = (==_iff d c).0 hit in
      let tail : a ≡ b = equal_text_iff a b (ground (arith, same, hit)) in cc
  | inr miss ↦ absurd (ground (arith, same, miss))
]

pub equal_text_differ : (a b : Text) → a ≢ b → equal_text a b ≡ false
equal_text_differ a b differ = elim (Bool-cases (equal_text a b)) [
  | inl hit ↦ absurd (differ (equal_text_iff a b hit))
  | inr miss ↦ miss
]
