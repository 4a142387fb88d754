-- ===== src/Gmeasure/Recording.antt =====
-- What an experiment has recorded under a name, and that its measurements are consistent.
use mathlib.Core.Path.{subst}
use text.Mathlib.TextEquality.{eq_iff}
use Prim.Native.String.{String}
use gomega.Base.{
  ℕ, ◌≡◌, ◌≢◌, inl, inr, refl, sym, ap, ◌∙◌, Bool, true, false, not, Option, none, some, List, [],
  ◌∷◌, ◌++◌, if◌then◌else◌, get_elem?, arith, Bool-cases, Option-cases, All,
}
use gomega.Gmeasure.{
  is_name, MeasurementType, Measurement, Experiment, update_at, next_index, idx_with_name,
  zero_measurement, get,
}

pub some-injective : {A : Type 0} {x y : A} → some x ≡ some y → x ≡ y
some-injective h = cc

module _ {D F : Type 0} where
  -- The first measurement with a name.
  abbrev pub named : String → List (Measurement D F) → Option (Measurement D F)
  named n [] = none
  named n (m ∷ ms) = let rest = named n ms in if is_name m.name n then some m else rest

  abbrev pub or_zero : Option (Measurement D F) → Measurement D F
  or_zero none = zero_measurement
  or_zero (some m) = m

  abbrev at_index : List (Measurement D F) → Option ℕ → Option (Measurement D F)
  at_index ms none = none
  at_index ms (some i) = get_elem? ms i

  at_index-next_index :
      (m : Measurement D F) (ms : List (Measurement D F)) (i : Option ℕ)
      → at_index (m ∷ ms) (next_index i) ≡ at_index ms i
  at_index-next_index m ms none = refl
  at_index-next_index m ms (some i) = refl

  at_index-idx_with_name :
      (n : String) (ms : List (Measurement D F)) → at_index ms (idx_with_name n ms) ≡ named n ms
  unfolding idx_with_name
  at_index-idx_with_name n [] = refl
  at_index-idx_with_name n (m ∷ ms) = elim (Bool-cases (is_name m.name n)) [
    | inl hit ↦ ground (arith, hit)
    | inr miss ↦
        ground
          (arith, miss, at_index-next_index m ms (idx_with_name n ms), at_index-idx_with_name n ms)
  ]

  pub get-named : (n : String) (e : Experiment D F) → get n e ≡ or_zero (named n e.measurements)
  unfolding get
  get-named n e = elim (Option-cases (idx_with_name n e.measurements)) [
    | inl absent ↦ ground (arith, absent, at_index-idx_with_name n e.measurements)
    | inr (i, there) ↦ elim (Option-cases (get_elem? e.measurements i)) [
      | inl beyond ↦ ground (arith, there, beyond, at_index-idx_with_name n e.measurements)
      | inr (m, found) ↦ ground (arith, there, found, at_index-idx_with_name n e.measurements)
    ]
  ]

not_name : (x n n' : String) → x ≡ n → n ≢ n' → is_name x n' ≡ false
not_name x n n' same_name other = elim (Bool-cases (is_name x n')) [
  | inl hit ↦ absurd (other (sym same_name ∙ (eq_iff x n').0 hit))
  | inr miss ↦ miss
]

module _ {D F : Type 0} (right : MeasurementType → Bool) (f : Measurement D F → Measurement D F)
    (new : Measurement D F) (n : String) where
  -- The first measurement with the name changed, if its type is right, or a new one at the end.
  abbrev pub put : List (Measurement D F) → Option (List (Measurement D F))
  put [] = some (new ∷ [])
  put (m ∷ ms) =
      let rest : Option (List (Measurement D F)) = elim (put ms) [
        | none ↦ none
        | some ms' ↦ some (m ∷ ms')
      ] in
      if is_name m.name n then (if right m.type then some (f m ∷ ms) else none) else rest

  abbrev pub recorded : List (Measurement D F) → Option ℕ → Option (List (Measurement D F))
  recorded ms none = some (ms ++ new ∷ [])
  recorded ms (some i) = elim (get_elem? ms i) [
    | none ↦ none
    | some m ↦ if not (right m.type) then none else some (update_at i f ms)
  ]

  recorded-next_index :
      (m : Measurement D F) (ms : List (Measurement D F)) (i : Option ℕ)
      → recorded (m ∷ ms) (next_index i)
        ≡ (elim (recorded ms i) as (λ _. Option (List (Measurement D F))) [
          | none ↦ none
          | some ms' ↦ some (m ∷ ms')
        ])
  recorded-next_index m ms none = refl
  recorded-next_index m ms (some i) = elim (Option-cases (get_elem? ms i)) [
    | inl beyond ↦ ground (arith, beyond)
    | inr (x, found) ↦ elim (Bool-cases (right x.type)) [
      | inl good ↦ ground (arith, found, good)
      | inr bad ↦ ground (arith, found, bad)
    ]
  ]

  pub recorded-put : (ms : List (Measurement D F)) → recorded ms (idx_with_name n ms) ≡ put ms
  unfolding idx_with_name
  recorded-put [] = refl
  recorded-put (m ∷ ms) = elim (Bool-cases (is_name m.name n)) [
    | inl hit ↦ elim (Bool-cases (right m.type)) [
      | inl good ↦ ground (arith, hit, good)
      | inr bad ↦ ground (arith, hit, bad)
    ]
    | inr miss ↦
        ground (arith, miss, recorded-next_index m ms (idx_with_name n ms), recorded-put ms)
  ]

  put_hit :
      (m : Measurement D F) (ms : List (Measurement D F))
      → is_name m.name n ≡ true
      → right m.type ≡ true
      → put (m ∷ ms) ≡ some (f m ∷ ms)
  put_hit m ms hit good = ground (arith, hit, good)

  put_miss :
      (m : Measurement D F) (ms rest : List (Measurement D F))
      → is_name m.name n ≡ false
      → put ms ≡ some rest
      → put (m ∷ ms) ≡ some (m ∷ rest)
  put_miss m ms rest miss good = ground (arith, miss, good)

  abbrev pub changed : Option (Measurement D F) → Measurement D F
  changed none = new
  changed (some m) = f m

  module _ (keeps : (m : Measurement D F) → (f m).name ≡ m.name) (called : new.name ≡ n) where
    pub put-named :
        (ms ms' : List (Measurement D F))
        → put ms ≡ some ms'
        → named n ms' ≡ some (changed (named n ms))
    put-named [] ms' h =
        sym (ap (named n) (some-injective h)) ∙ ground (arith, eq_iff new.name n, called)
    put-named (m ∷ ms) ms' h = elim (Bool-cases (is_name m.name n)) [
      | inl hit ↦ elim (Bool-cases (right m.type)) [
        | inl good ↦
            sym (ap (named n) (some-injective (sym (put_hit m ms hit good) ∙ h)))
            ∙ ground (arith, hit, ap (λ x. is_name x n) (keeps m))
        | inr bad ↦ absurd (ground (arith, hit, bad, h))
      ]
      | inr miss ↦ elim (Option-cases (put ms)) [
        | inl refused ↦ absurd (ground (arith, miss, refused, h))
        | inr (rest, good) ↦
            sym (ap (named n) (some-injective (sym (put_miss m ms rest miss good) ∙ h)))
            ∙ ground (arith, miss, put-named ms rest good)
      ]
    ]

    pub put-named_other :
        (n' : String) (ms ms' : List (Measurement D F))
        → n ≢ n'
        → put ms ≡ some ms'
        → named n' ms' ≡ named n' ms
    put-named_other n' [] ms' other h =
        sym (ap (named n') (some-injective h)) ∙ ground (arith, not_name new.name n n' called other)
    put-named_other n' (m ∷ ms) ms' other h = elim (Bool-cases (is_name m.name n)) [
      | inl hit ↦
          let different = not_name m.name n n' ((eq_iff m.name n).0 hit) other in
          elim (Bool-cases (right m.type)) [
            | inl good ↦
                sym (ap (named n') (some-injective (sym (put_hit m ms hit good) ∙ h)))
                ∙ ground (arith, different, ap (λ x. is_name x n') (keeps m))
            | inr bad ↦ absurd (ground (arith, hit, bad, h))
          ]
      | inr miss ↦ elim (Option-cases (put ms)) [
        | inl refused ↦ absurd (ground (arith, miss, refused, h))
        | inr (rest, good) ↦
            sym (ap (named n') (some-injective (sym (put_miss m ms rest miss good) ∙ h)))
            ∙ ground (arith, miss, put-named_other n' ms rest other good)
      ]
    ]

  pub put-All :
      (P : Measurement D F → Type 0)
      → P new
      → ((m : Measurement D F) → right m.type ≡ true → P m → P (f m))
      → (ms ms' : List (Measurement D F)) → put ms ≡ some ms'
      → All P ms
      → All P ms'
  put-All P fresh keep [] ms' h all = subst (All P) (some-injective h) (fresh, tt)
  put-All P fresh keep (m ∷ ms) ms' h all = elim (Bool-cases (is_name m.name n)) [
    | inl hit ↦ elim (Bool-cases (right m.type)) [
      | inl good ↦
          subst (All P) (some-injective (sym (put_hit m ms hit good) ∙ h))
            (keep m good all.0, all.1)
      | inr bad ↦ absurd (ground (arith, hit, bad, h))
    ]
    | inr miss ↦ elim (Option-cases (put ms)) [
      | inl refused ↦ absurd (ground (arith, miss, refused, h))
      | inr (rest, good) ↦
          subst (All P) (some-injective (sym (put_miss m ms rest miss good) ∙ h))
            (all.0, put-All P fresh keep ms rest good all.1)
    ]
  ]
