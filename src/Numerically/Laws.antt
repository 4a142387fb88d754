-- ===== src/Numerically/Laws.antt =====
-- What BeNumerically means on 64-bit integers.
use gomega.Base.{ℕ, ◌+◌, ◌-◌, ◌%◌, ◌≤◌, ◌<◌, ◌≡◌, ◌↔◌, ◌⊎◌, refl, ap, Bool, true, [], ◌∷◌, arith}
use gomega.Numerically.{
  Floats, integer, unsigned_integer, matched, near, word, half_word, minus, signed_leb,
  match_integers, match_unsigned_integers, be_numerically,
}

minus_above : (a c : ℕ) → a < word → c ≤ a → minus a c ≡ a - c
unfolding minus
minus_above a c h above = omega arith

match_unsigned_integers-near :
    (a c t : ℕ)
    → a < word
    → c < word
    → (match_unsigned_integers near a c t ≡ true) ↔ ((a ≤ c + t) × (c ≤ a + t))
unfolding match_unsigned_integers minus
match_unsigned_integers-near a c t ha hc = (λ h. ground arith, λ h. ground arith)

-- The place of a signed integer among the integers, from the smallest, `- 2 ^ 63`, on.
abbrev pub place : ℕ → ℕ
place n = (n + half_word) % word

match_integers-near :
    (a c t : ℕ)
    → a < word
    → c < word
    → t < half_word
    → (match_integers near a c t ≡ true) ↔ (
        ((place a ≤ place c + t) × (place c ≤ place a + t))
        ⊎ ((place c + word ≤ place a + t) ⊎ (place a + word ≤ place c + t)))
unfolding match_integers minus signed_leb
match_integers-near a c t ha hc ht = (λ h. ground arith, λ h. ground arith)

matched_inj : {b : Bool} → matched b ≡ matched true → b ≡ true
matched_inj h = cc

module _ {F : Type 0} (fl : Floats F) (a c t : ℕ) where
  -- On unsigned integers of 64 bits `~` with a threshold t succeeds exactly when the values are at most
  -- t apart.
  pub be_numerically-near_unsigned :
      a < word
      → c < word
      → (be_numerically fl near (unsigned_integer c ∷ unsigned_integer t ∷ []) (unsigned_integer a)
          ≡ matched true)
        ↔ ((a ≤ c + t) × (c ≤ a + t))
  unfolding be_numerically
  be_numerically-near_unsigned ha hc =
      let (to, from) = match_unsigned_integers-near a c t ha hc in
      (λ h. to (matched_inj h), λ h. ap matched (from h))

  -- On signed integers of 64 bits `~` with a threshold t that is not negative succeeds exactly when the
  -- values are at most t apart, where the largest value counts as next to the smallest. An unsigned
  -- integer to compare to is read as the signed one with the same bits.
  pub be_numerically-near_integers :
      a < word
      → c < word
      → t < half_word
      → ((be_numerically fl near (integer c ∷ integer t ∷ []) (integer a) ≡ matched true) ↔ (
          ((place a ≤ place c + t) × (place c ≤ place a + t))
          ⊎ ((place c + word ≤ place a + t) ⊎ (place a + word ≤ place c + t))))
        × (be_numerically fl near (unsigned_integer c ∷ integer t ∷ []) (integer a)
            ≡ be_numerically fl near (integer c ∷ integer t ∷ []) (integer a))
  unfolding be_numerically
  be_numerically-near_integers ha hc ht =
      let (to, from) = match_integers-near a c t ha hc ht in
      ((λ h. to (matched_inj h), λ h. ap matched (from h)), refl)
