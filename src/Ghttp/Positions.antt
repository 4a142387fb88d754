-- ===== src/Ghttp/Positions.antt =====
-- Lists from a position on, and the change of an element at a position.
use gomega.Base.{
  ℕ, zero, suc, ◌≤◌, ◌<◌, ◌-◌, ◌≡◌, ◌⊎◌, inl, inr, refl, ap, ◌∙◌, Option, none, some, List, [], ◌∷◌,
  ◌++◌, arith, Option-cases, length, drop, get_elem?,
}
use gomega.Ghttp.{set_at}

module _ {A : Type 0} where
  pub drop-none : (n : ℕ) (xs : List A) → get_elem? xs n ≡ none → drop n xs ≡ []
  drop-none zero [] h = refl
  drop-none zero (x ∷ xs) h = absurd (cc)
  drop-none (suc n) [] h = refl
  drop-none (suc n) (x ∷ xs) h = drop-none n xs h

  pub drop-some :
      (n : ℕ) (xs : List A) (x : A) → get_elem? xs n ≡ some x → drop n xs ≡ x ∷ drop (suc n) xs
  drop-some n [] x h = absurd (cc)
  drop-some zero (y ∷ ys) x h = ap (λ z. z ∷ ys) (cc (h))
  drop-some (suc n) (y ∷ ys) x h = drop-some n ys x h

  pub get_elem?-lt : (n : ℕ) (xs : List A) (x : A) → get_elem? xs n ≡ some x → n < length xs
  get_elem?-lt n [] x h = absurd (cc)
  get_elem?-lt zero (y ∷ ys) x h = omega arith
  get_elem?-lt (suc n) (y ∷ ys) x h = omega (arith, get_elem?-lt n ys x h)

  pub drop-append : (n : ℕ) (xs ys : List A) → n ≤ length xs → drop n (xs ++ ys) ≡ drop n xs ++ ys
  drop-append zero xs ys h = refl
  drop-append (suc n) [] ys h = absurd (omega arith)
  drop-append (suc n) (x ∷ xs) ys h = drop-append n xs ys (omega arith)

  -- The list with the element at a position changed; `none` where there is no such position.
  unfoldable pub alter : (A → A) → ℕ → List A → Option (List A)
  alter f i [] = none
  alter f zero (x ∷ xs) = some (f x ∷ xs)
  alter f (suc i) (x ∷ xs) = elim (alter f i xs) [ none ↦ none | some ys ↦ some (x ∷ ys) ]

  pub set_at-alter : (i : ℕ) (a : A) (xs : List A) → set_at i a xs ≡ alter (λ x. a) i xs
  unfolding set_at alter
  set_at-alter i a [] = refl
  set_at-alter zero a (x ∷ xs) = refl
  set_at-alter (suc i) a (x ∷ xs) = rw (set_at-alter i a xs) refl

  pub set_at-get_elem? :
      (f : A → A) (i : ℕ) (a : A) (xs : List A)
      → get_elem? xs i ≡ some a
      → set_at i (f a) xs ≡ alter f i xs
  unfolding set_at alter
  set_at-get_elem? f i a [] h = refl
  set_at-get_elem? f zero a (x ∷ xs) h = cc (h)
  set_at-get_elem? f (suc i) a (x ∷ xs) h = rw (set_at-get_elem? f i a xs h) refl

  pub alter-none : (f : A → A) (i : ℕ) (xs : List A) → get_elem? xs i ≡ none → alter f i xs ≡ none
  unfolding alter
  alter-none f i [] h = refl
  alter-none f zero (x ∷ xs) h = absurd (cc)
  alter-none f (suc i) (x ∷ xs) h = rw (alter-none f i xs h) refl

  length-alter :
      (f : A → A) (i : ℕ) (xs ys : List A) → alter f i xs ≡ some ys → length ys ≡ length xs
  unfolding alter
  length-alter f i [] ys h = absurd (cc)
  length-alter f zero (x ∷ xs) ys h = ground arith
  length-alter f (suc i) (x ∷ xs) ys h = elim (Option-cases (alter f i xs)) [
    | inl bad ↦ absurd (ground (arith, bad))
    | inr (zs, good) ↦ ground (arith, good, length-alter f i xs zs good)
  ]

  -- What a change does to the rest of a list from a position on.
  abbrev Altered : (A → A) → ℕ → ℕ → List A → Type 0
  Altered f n i xs =
      ((n ≤ i) × (alter f i xs ≡ none) × (alter f (i - n) (drop n xs) ≡ none))
      ⊎ ((ys : List A) × (alter f i xs ≡ some ys)
          × (length ys ≡ length xs)
          × (((i < n) × (drop n ys ≡ drop n xs))
              ⊎ ((n ≤ i) × (alter f (i - n) (drop n xs) ≡ some (drop n ys)))))

  pub alter-drop : (f : A → A) (n i : ℕ) (xs : List A) → n ≤ length xs → Altered f n i xs
  unfolding alter
  alter-drop f zero i xs h = elim (Option-cases (alter f i xs)) [
    | inl bad ↦ inl (omega arith, bad, rw (← bad) (ap (λ k. alter f k xs) (omega arith)))
    | inr (ys, good) ↦ inr (
      ys,
      good,
      length-alter f i xs ys good,
      inr (omega arith, ap (λ k. alter f k xs) {x = i - 0} (omega arith) ∙ good),
    )
  ]
  alter-drop f (suc n) i [] h = absurd (omega arith)
  alter-drop f (suc n) zero (x ∷ xs) h = inr (f x ∷ xs, refl, refl, inl (omega arith, refl))
  alter-drop f (suc n) (suc i) (x ∷ xs) h = elim (alter-drop f n i xs (omega arith)) [
    | inl (le, bad, rest) ↦ inl (
      omega arith,
      rw bad refl,
      ap (λ k. alter f k (drop n xs)) {x = suc i - suc n} (omega arith) ∙ rest,
    )
    | inr (ys, good, size, inl (lt, same)) ↦
        inr (x ∷ ys, rw good refl, omega arith, inl (omega arith, same))
    | inr (ys, good, size, inr (le, rest)) ↦ inr (
      x ∷ ys,
      rw good refl,
      omega arith,
      inr (omega arith, ap (λ k. alter f k (drop n xs)) {x = suc i - suc n} (omega arith) ∙ rest),
    )
  ]
