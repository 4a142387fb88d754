-- ===== src/Gstruct/Entries.antt =====
-- When MatchFields and MatchKeys succeed.
use gomega.Base.{
  ◌≡◌, ◌⊎◌, ◌↔◌, inl, inr, refl, ap, ◌∙◌, true, none, some, List, [], ◌∷◌, ◌++◌, arith,
  Option-cases,
}
use gomega.Gstruct.{
  KeyEquality, Options, Ran, verdict, Failure, lookup, missing, check_entry, entries_loop,
  match_fields, match_keys, names, succeeds,
}
use gomega.Gstruct.Elements.{Ran-cases, AllPresent, missing-AllPresent, succeeds-nil}

module _ {K V : Type 0} (keys : KeyEquality K) (o : Options) (expected : List (K × (V → Ran))) where
  -- A field that its matcher matches without an error, or an extra one that is ignored.
  abbrev pub FieldFits : K → V → Type 0
  FieldFits k v =
      ((m : V → Ran) × (lookup keys expected k ≡ some m) × (m v ≡ verdict true none))
      ⊎ ((lookup keys expected k ≡ none) × (o.ignore_extras ≡ true))

  abbrev pub AllFit : List (K × V) → Type 0
  AllFit [] = Unit {0}
  AllFit ((k, v) ∷ vs) = FieldFits k v × AllFit vs

  check_entry-FieldFits : (k : K) (v : V) → (check_entry keys o expected k v ≡ none) ↔ FieldFits k v
  unfolding check_entry
  check_entry-FieldFits k v = elim (Option-cases (lookup keys expected k)) [
    | inl absent ↦ (
      λ h. inr (absent, ground (arith, absent, h)),
      λ f. elim f [
        | inl (m, found, ran) ↦ ground (arith, found, ran)
        | inr (_, ignored) ↦ ground (arith, absent, ignored)
      ],
    )
    | inr (m, found) ↦ (
      λ h. inl (
        m,
        found,
        elim (Ran-cases (m v)) [
          | inl ran ↦ absurd (ground (arith, found, ran, h))
          | inr (b, err, ran) ↦ ran ∙ ground (arith, found, ran, h)
        ],
      ),
      λ f. elim f [
        | inl (m', found', ran) ↦ ground (arith, found', ran)
        | inr (absent, _) ↦ absurd (ground (arith, found, absent))
      ],
    )
  ]

  entries_loop-AllFit : (vs : List (K × V)) → (entries_loop keys o expected vs ≡ []) ↔ AllFit vs
  unfolding entries_loop
  entries_loop-AllFit [] = (λ _. tt, λ _. refl)
  entries_loop-AllFit ((k, v) ∷ vs) =
      let (fits, checks) = check_entry-FieldFits k v in
      let (to, from) = entries_loop-AllFit vs in
      elim (Option-cases (check_entry keys o expected k v)) [
        | inl passed ↦ (
          λ h. (fits passed, to (ground (arith, passed, h))),
          λ h. ground (arith, passed, from h.1),
        )
        | inr (c, failed) ↦ (
          λ h. absurd (ground (arith, failed, h)),
          λ h. absurd (ground (arith, failed, checks h.0)),
        )
      ]

  both_empty : (fs gs : List (Failure K)) → (succeeds (fs ++ gs) ≡ true) ↔ ((fs ≡ []) × (gs ≡ []))
  unfolding succeeds
  both_empty [] gs = (λ h. (refl, succeeds-nil h), λ h. ap succeeds h.1)
  both_empty (f ∷ fs) gs = (λ h. absurd (cc), λ h. absurd (cc (h.0)))

  -- MatchFields succeeds exactly when each field is matched, without an error, by the matcher of its
  -- name, or is extra where extras are ignored, and every expected field is there, unless missing ones
  -- are ignored; MatchKeys does the same with the entries of a map.
  pub match_fields-AllFit :
      (fields : List (K × V))
      → ((succeeds (match_fields keys o expected fields) ≡ true)
          ↔ (AllFit fields × ((o.ignore_missing ≡ true) ⊎ AllPresent keys expected (names fields))))
        × (match_keys keys o expected fields ≡ match_fields keys o expected fields)
  unfolding match_fields match_keys
  match_fields-AllFit fields =
      let (split, join) =
        both_empty (entries_loop keys o expected fields) (missing keys o expected (names fields)) in
      let (to, from) = entries_loop-AllFit fields in
      let (present, complete) =
        missing-AllPresent keys o expected (names fields) (names fields) (λ k. refl) in
      ((λ h. (to (split h).0, present (split h).1), λ h. join (from h.0, complete h.1)), refl)
