-- ===== src/Gmeasure/Sorting.antt =====
-- What sort.Slice is relied on for, as its documentation has it.
pub mod Insertion
use mathlib.Core.Path.{subst}
use gomega.Base.{
  ℕ, zero, suc, ◌+◌, ◌-◌, ◌≡◌, ◌≤◌, ◌<◌, ◌⊎◌, inl, inr, refl, sym, ap, ◌∙◌, Bool, true, false,
  Option, none, some, List, [], ◌∷◌, if◌then◌else◌, ltb, length, get_elem?, arith, Bool-cases, All,
}

-- A strict weak order, as sort.Slice asks for one.
abbrev pub IsWeakOrder : {A : Type 0} → (A → A → Bool) → Type 0
IsWeakOrder {A = A} less =
    ((x : A) → less x x ≡ false)
    × ((x y z : A) → less x y ≡ true → less y z ≡ true → less x z ≡ true)
    × ((x y z : A) → less x z ≡ true → (less x y ≡ true) ⊎ (less y z ≡ true))

abbrev pub Among : {A : Type 0} → A → List A → Type 0
Among x [] = ⊥
Among x (y ∷ ys) = (x ≡ y) ⊎ Among x ys

-- No element is before one that stands earlier.
abbrev pub Ascends : {A : Type 0} → (A → A → Bool) → List A → Type 0
Ascends less [] = Unit {0}
Ascends {A = A} less (x ∷ xs) = All (λ (y : A). less y x ≡ false) xs × Ascends less xs

-- What sort.Slice does: with a strict weak order it sorts, and it keeps the elements.
abbrev pub Sorts : {A : Type 0} → ((A → A → Bool) → List A → List A) → Type 0
Sorts {A = A} sort =
    (less : A → A → Bool) (xs : List A)
    → IsWeakOrder less
    → Ascends less (sort less xs) × ((x : A) → Among x xs → Among x (sort less xs))

pub All-Among : {A : Type 0} (P : A → Type 0) (x : A) (xs : List A) → All P xs → Among x xs → P x
All-Among P x [] all there = absurd there
All-Among P x (y ∷ ys) (p, all) (inl same) = subst P (sym same) p
All-Among P x (y ∷ ys) (p, all) (inr there) = All-Among P x ys all there

-- With any order, it keeps the number of elements, and adds none.
abbrev pub Permutes : {A : Type 0} → ((A → A → Bool) → List A → List A) → Type 0
Permutes {A = A} sort =
    (less : A → A → Bool) (xs : List A)
    → (length (sort less xs) ≡ length xs) × ((x : A) → Among x (sort less xs) → Among x xs)

module _ {A : Type 0} where
  pub Among-get_elem? : (x : A) (xs : List A) → Among x xs → (k : ℕ) × (get_elem? xs k ≡ some x)
  Among-get_elem? x [] there = absurd there
  Among-get_elem? x (y ∷ ys) (inl one) = (0, ap some (sym one))
  Among-get_elem? x (y ∷ ys) (inr there) =
      let (k, found) = Among-get_elem? x ys there in (suc k, found)

  pub get_elem?-Among : (x : A) (xs : List A) (k : ℕ) → get_elem? xs k ≡ some x → Among x xs
  get_elem?-Among x [] k found = absurd (cc)
  get_elem?-Among x (y ∷ ys) zero found = inl (cc)
  get_elem?-Among x (y ∷ ys) (suc k) found = inr (get_elem?-Among x ys k found)

  pub Ascends-get_elem? :
      (less : A → A → Bool) (xs : List A) (p q : ℕ) (x y : A)
      → Ascends less xs
      → p < q
      → get_elem? xs p ≡ some x
      → get_elem? xs q ≡ some y
      → less y x ≡ false
  Ascends-get_elem? less [] p q x y sorted before here there = absurd (cc)
  Ascends-get_elem? less (z ∷ zs) p zero x y sorted before here there =
      absurd (omega (arith, before))
  Ascends-get_elem? less (z ∷ zs) zero (suc q) x y (first, sorted) before here there =
      let one : z ≡ x = cc in
      subst (λ w. less y w ≡ false) one
        (All-Among (λ w. less w z ≡ false) y zs first (get_elem?-Among y zs q there))
  Ascends-get_elem? less (z ∷ zs) (suc p) (suc q) x y (first, sorted) before here there =
      Ascends-get_elem? less zs p q x y sorted (omega (arith, before)) here there
