-- ===== src/Gstruct/Elements.antt =====
-- When MatchElements succeeds.
use gomega.Base.{
  ℕ, suc, ◌≡◌, ◌⊎◌, ◌↔◌, inl, inr, refl, sym, ap, ◌∙◌, Bool, true, false, not, ◌&&◌, ◌||◌, Option,
  none, some, List, [], ◌∷◌, ◌++◌, if◌then◌else◌, arith, Bool-cases, Option-cases,
}
use gomega.Errors.{GoError}
use gomega.Gstruct.{
  KeyEquality, Options, Ran, verdict, panic, Failure, has, lookup, missing, Checked, elements_loop,
  match_elements, succeeds,
}

-- A Match that succeeds; with an error or without.
abbrev pub Matches : Ran → Type 0
Matches r = (err : Option GoError) × (r ≡ verdict true err)

pub succeeds-nil : {K : Type 0} {fs : List (Failure K)} → succeeds fs ≡ true → fs ≡ []
unfolding succeeds
succeeds-nil {fs = []} h = refl
succeeds-nil {fs = f ∷ fs} h = absurd (cc)

succeeds-first :
    {K : Type 0} (p : Bool) (fs gs : List (Failure K))
    → succeeds (if p then fs else fs ++ gs) ≡ true
    → fs ≡ []
unfolding succeeds
succeeds-first p [] gs h = refl
succeeds-first true (f ∷ fs) gs h = absurd (cc)
succeeds-first false (f ∷ fs) gs h = absurd (cc)

pub Ran-cases :
    (r : Ran) → (r ≡ panic) ⊎ ((b : Bool) × (err : Option GoError) × (r ≡ verdict b err))
Ran-cases panic = inl refl
Ran-cases (verdict b err) = inr (b, err, refl)

module _ {K : Type 0} (keys : KeyEquality K) where
  -- No key occurs again, or is in `seen`.
  abbrev pub AreDistinct : List K → List K → Type 0
  AreDistinct seen [] = Unit {0}
  AreDistinct seen (k ∷ ks) = (has keys seen k ≡ false) × AreDistinct (k ∷ seen) ks

  -- Every expected key is one of the keys.
  abbrev pub AllPresent : {M : Type 0} → List (K × M) → List K → Type 0
  AllPresent [] ks = Unit {0}
  AllPresent ((k, m) ∷ ms) ks = (has keys ks k ≡ true) × AllPresent ms ks

  abbrev pub pushed : List K → List K → List K
  pushed [] seen = seen
  pushed (k ∷ ks) seen = pushed ks (k ∷ seen)

  has-pushed :
      (ks seen : List K) (k : K) → has keys (pushed ks seen) k ≡ (has keys ks k || has keys seen k)
  unfolding has
  has-pushed [] seen k = refl
  has-pushed (j ∷ ks) seen k = has-pushed ks (j ∷ seen) k ∙ ground arith

  pub missing-AllPresent :
      {M : Type 0} (o : Options) (expected : List (K × M)) (ks seen : List K)
      → ((k : K) → has keys seen k ≡ has keys ks k)
      → (missing keys o expected seen ≡ []) ↔ ((o.ignore_missing ≡ true) ⊎ AllPresent expected ks)
  unfolding missing
  missing-AllPresent o [] ks seen h = (λ _. inr tt, λ _. refl)
  missing-AllPresent o ((k, m) ∷ ms) ks seen h =
      let (to, from) = missing-AllPresent o ms ks seen h in
      elim (Bool-cases o.ignore_missing) [
        | inl ignored ↦ (λ _. inl ignored, λ _. ground (arith, ignored, from (inl ignored)))
        | inr strict ↦ elim (Bool-cases (has keys ks k)) [
          | inl present ↦ (
            λ e. elim (to (ground (arith, h k, present, e))) [
              | inl ignored ↦ inl ignored
              | inr rest ↦ inr (present, rest)
            ],
            λ p. elim p [
              | inl ignored ↦ ground (arith, h k, present, from (inl ignored))
              | inr (_, rest) ↦ ground (arith, h k, present, from (inr rest))
            ],
          )
          | inr absent ↦ (
            λ e. absurd (ground (arith, h k, absent, strict, e)),
            λ p. elim p [
              | inl ignored ↦ absurd (ground (arith, strict, ignored))
              | inr (present, _) ↦ absurd (ground (arith, absent, present))
            ],
          )
        ]
      ]

module _ {K V : Type 0} (keys : KeyEquality K) (o : Options) (identify : ℕ → V → Option K)
    (expected : List (K × (V → Ran))) where
  -- A value that its key's matcher matches, or an extra one that is ignored.
  abbrev pub Fits : K → V → Type 0
  Fits k v =
      ((m : V → Ran) × (lookup keys expected k ≡ some m) × Matches (m v))
      ⊎ ((lookup keys expected k ≡ none) × (o.ignore_extras ≡ true))

  -- The keys of the elements from index i on, all of which fit.
  abbrev pub Named : ℕ → List V → List K → Type 0
  Named i [] [] = Unit {0}
  Named i [] (k ∷ ks) = ⊥
  Named i (v ∷ vs) [] = ⊥
  Named i (v ∷ vs) (k ∷ ks) = (identify i v ≡ some k) × Fits k v × Named (suc i) vs ks

  abbrev Lawful : List K → List K → Type 0
  Lawful seen ks = (o.allow_duplicates ≡ true) ⊎ AreDistinct keys seen ks

  abbrev clean : List K → Checked K
  clean seen = record { seen = seen; errors = []; has_panicked = false }

  -- One element that fits goes on with the loop.
  elements_loop-next :
      (i : ℕ) (seen : List K) (v : V) (vs : List V) (k : K)
      → identify i v ≡ some k
      → Fits k v
      → (o.allow_duplicates ≡ true) ⊎ (has keys seen k ≡ false)
      → elements_loop keys o identify expected i seen (v ∷ vs)
        ≡ elements_loop keys o identify expected (suc i) (k ∷ seen) vs
  unfolding elements_loop
  elements_loop-next i seen v vs k named (inl (m, found, (err, ran))) lawful =
      ground (arith, named, found, ran, lawful)
  elements_loop-next i seen v vs k named (inr (absent, ignored)) lawful =
      ground (arith, named, absent, ignored, lawful)

  elements_loop-clean :
      (i : ℕ) (seen : List K) (vs : List V) (ks : List K)
      → Named i vs ks
      → Lawful seen ks
      → elements_loop keys o identify expected i seen vs ≡ clean (pushed keys ks seen)
  unfolding elements_loop
  elements_loop-clean i seen [] [] named lawful = refl
  elements_loop-clean i seen [] (k ∷ ks) named lawful = absurd named
  elements_loop-clean i seen (v ∷ vs) [] named lawful = absurd named
  elements_loop-clean i seen (v ∷ vs) (k ∷ ks) (named, fits, rest) (inl allowed) =
      elements_loop-next i seen v vs k named fits (inl allowed)
      ∙ elements_loop-clean (suc i) (k ∷ seen) vs ks rest (inl allowed)
  elements_loop-clean i seen (v ∷ vs) (k ∷ ks) (named, fits, rest) (inr (fresh, distinct)) =
      elements_loop-next i seen v vs k named fits (inr fresh)
      ∙ elements_loop-clean (suc i) (k ∷ seen) vs ks rest (inr distinct)

  -- One element with which the loop does not fail fits.
  elements_loop-Fits :
      (i : ℕ) (seen : List K) (v : V) (vs : List V)
      → (elements_loop keys o identify expected i seen (v ∷ vs)).errors ≡ []
      → (k : K) × (identify i v ≡ some k)
        × Fits k v
        × ((o.allow_duplicates ≡ true) ⊎ (has keys seen k ≡ false))
  unfolding elements_loop
  elements_loop-Fits i seen v vs h = elim (Option-cases (identify i v)) [
    | inl lost ↦ absurd (ground (arith, h, lost))
    | inr (k, named) ↦ elim (Bool-cases (has keys seen k && not o.allow_duplicates)) [
      | inl again ↦ absurd (ground (arith, h, named, again))
      | inr lawful ↦ elim (Option-cases (lookup keys expected k)) [
        | inl absent ↦ (
          k,
          named,
          inr (absent, ground (arith, h, named, lawful, absent)),
          may_be (has keys seen k) lawful,
        )
        | inr (m, found) ↦ elim (Ran-cases (m v)) [
          | inl ran ↦ absurd (ground (arith, h, named, lawful, found, ran))
          | inr (true, err, ran) ↦
              (k, named, inl (m, found, (err, ran)), may_be (has keys seen k) lawful)
          | inr (false, err, ran) ↦ absurd (ground (arith, h, named, lawful, found, ran))
        ]
      ]
    ]
  ]
    where
      may_be :
          (b : Bool)
          → (b && not o.allow_duplicates) ≡ false
          → (o.allow_duplicates ≡ true) ⊎ (b ≡ false)
      may_be b e = elim (Bool-cases o.allow_duplicates) [
        | inl allowed ↦ inl allowed
        | inr strict ↦ inr (ground (arith, e, strict))
      ]

  elements_loop-Named :
      (i : ℕ) (seen : List K) (vs : List V)
      → (elements_loop keys o identify expected i seen vs).errors ≡ []
      → (ks : List K) × Named i vs ks × Lawful seen ks
  elements_loop-Named i seen [] h = ([], tt, inr tt)
  elements_loop-Named i seen (v ∷ vs) h =
      let (k, named, fits, lawful) = elements_loop-Fits i seen v vs h in
      let (ks, rest, distinct) =
        elements_loop-Named (suc i) (k ∷ seen) vs
          (sym (ap (λ c. c.errors) (elements_loop-next i seen v vs k named fits lawful)) ∙ h) in
      (k ∷ ks, (named, fits, rest), both ks k lawful distinct)
    where
      both :
          (ks : List K) (k : K)
          → (o.allow_duplicates ≡ true) ⊎ (has keys seen k ≡ false)
          → Lawful (k ∷ seen) ks
          → Lawful seen (k ∷ ks)
      both ks k (inl allowed) distinct = inl allowed
      both ks k (inr fresh) (inl allowed) = inl allowed
      both ks k (inr fresh) (inr distinct) = inr (fresh, distinct)

  match_elements-missing :
      (vs : List V) (ks : List K)
      → Named 0 vs ks
      → Lawful [] ks
      → match_elements keys o identify expected vs ≡ missing keys o expected (pushed keys ks [])
  unfolding match_elements
  match_elements-missing vs ks named lawful =
      ap (λ c. if c.has_panicked then c.errors else c.errors ++ missing keys o expected c.seen)
        (elements_loop-clean 0 [] vs ks named lawful)

  match_elements-errors :
      (vs : List V)
      → succeeds (match_elements keys o identify expected vs) ≡ true
      → (elements_loop keys o identify expected 0 [] vs).errors ≡ []
  unfolding match_elements
  match_elements-errors vs h =
      succeeds-first (elements_loop keys o identify expected 0 [] vs).has_panicked
        (elements_loop keys o identify expected 0 [] vs).errors
        (missing keys o expected (elements_loop keys o identify expected 0 [] vs).seen) h

  has-keys : (ks : List K) (k : K) → has keys (pushed keys ks []) k ≡ has keys ks k
  unfolding has
  has-keys ks k = has-pushed keys ks [] k ∙ ground arith

  -- MatchElements succeeds exactly when its identifier gives keys to the elements such that each
  -- element is matched by the matcher of its key, or is extra where extras are ignored; no two have one
  -- key, unless duplicates are allowed; and every expected key is among them, unless missing elements
  -- are ignored.
  pub match_elements-Named :
      (vs : List V)
      → (succeeds (match_elements keys o identify expected vs) ≡ true) ↔ (
          (ks : List K) × Named 0 vs ks
          × ((o.allow_duplicates ≡ true) ⊎ AreDistinct keys [] ks)
          × ((o.ignore_missing ≡ true) ⊎ AllPresent keys expected ks))
  unfolding match_elements succeeds
  match_elements-Named vs = (
    λ h.
        let (ks, named, lawful) = elements_loop-Named 0 [] vs (match_elements-errors vs h) in
        (
          ks,
          named,
          lawful,
          (missing-AllPresent keys o expected ks (pushed keys ks []) (has-keys ks)).0
              (succeeds-nil (sym (ap succeeds (match_elements-missing vs ks named lawful)) ∙ h)),
        ),
    λ (ks, named, lawful, present).
        ap succeeds (match_elements-missing vs ks named lawful)
        ∙ ap succeeds
            ((missing-AllPresent keys o expected ks (pushed keys ks []) (has-keys ks)).1 present),
  )
