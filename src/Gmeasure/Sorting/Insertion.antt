-- ===== src/Gmeasure/Sorting/Insertion.antt =====
-- Sorting by insertion, which is as sort.Slice is relied on to be.
use mathlib.Core.Path.{subst}
use gomega.Base.{
  suc, ◌≡◌, inl, inr, refl, sym, ap, ◌∙◌, Bool, true, false, List, [], ◌∷◌, if◌then◌else◌, ltb,
  length, arith, Bool-cases, All,
}
use gomega.Gmeasure.Sorting.{IsWeakOrder, Among, Ascends, Sorts, Permutes}

module _ {A : Type 0} where
  abbrev insert : (A → A → Bool) → A → List A → List A
  insert less x [] = x ∷ []
  insert less x (y ∷ ys) =
      let rest = insert less x ys in if less x y then x ∷ (y ∷ ys) else y ∷ rest

  abbrev pub insertions : (A → A → Bool) → List A → List A
  insertions less [] = []
  insertions less (x ∷ xs) = insert less x (insertions less xs)

  insert-All :
      (P : A → Type 0) (less : A → A → Bool) (x : A) (ys : List A)
      → P x
      → All P ys
      → All P (insert less x ys)
  insert-All P less x [] p all = (p, tt)
  insert-All P less x (y ∷ ys) p (q, all) = elim (Bool-cases (less x y)) [
    | inl before ↦ rw before (p, (q, all))
    | inr after ↦ rw after (q, insert-All P less x ys p all)
  ]

  insert-here : (less : A → A → Bool) (x : A) (ys : List A) → Among x (insert less x ys)
  insert-here less x [] = inl refl
  insert-here less x (y ∷ ys) = elim (Bool-cases (less x y)) [
    | inl before ↦ rw before (inl refl)
    | inr after ↦ rw after (inr (insert-here less x ys))
  ]

  insert-there :
      (less : A → A → Bool) (x z : A) (ys : List A) → Among z ys → Among z (insert less x ys)
  insert-there less x z [] there = absurd there
  insert-there less x z (y ∷ ys) there = elim (Bool-cases (less x y)) [
    | inl before ↦ rw before (inr there)
    | inr after ↦
        rw after
          (elim there [ inl same ↦ inl same | inr later ↦ inr (insert-there less x z ys later) ])
  ]

  asymmetric :
      (less : A → A → Bool) (x y z : A)
      → IsWeakOrder less
      → less x y ≡ true
      → less z y ≡ false
      → less z x ≡ false
  asymmetric less x y z (_, transitive, _) before after = elim (Bool-cases (less z x)) [
    | inl hit ↦
        let bad : less z y ≡ true = transitive z x y hit before in
        absurd (ground (arith, bad, after))
    | inr miss ↦ miss
  ]

  asymmetric-All :
      (less : A → A → Bool) (x y : A) (zs : List A)
      → IsWeakOrder less
      → less x y ≡ true
      → All (λ z. less z y ≡ false) zs
      → All (λ z. less z x ≡ false) zs
  asymmetric-All less x y [] order before all = tt
  asymmetric-All less x y (z ∷ zs) order before (p, all) =
      (asymmetric less x y z order before p, asymmetric-All less x y zs order before all)

  insert-Ascends :
      (less : A → A → Bool) (x : A) (ys : List A)
      → IsWeakOrder less
      → Ascends less ys
      → Ascends less (insert less x ys)
  insert-Ascends less x [] order sorted = (tt, tt)
  insert-Ascends less x (y ∷ ys) order (first, sorted) = elim (Bool-cases (less x y)) [
    | inl before ↦
        rw before
          (asymmetric-All less x y (y ∷ ys) order before (order.0 y, first), (first, sorted))
    | inr after ↦ rw after (
      insert-All (λ z. less z y ≡ false) less x ys after first,
      insert-Ascends less x ys order sorted,
    )
  ]

  pub insertions-Sorts : Sorts {A = A} insertions
  insertions-Sorts less [] order = (tt, λ x there. there)
  insertions-Sorts less (y ∷ ys) order =
      let (sorted, kept) = insertions-Sorts less ys order in
      (
        insert-Ascends less y (insertions less ys) order sorted,
        λ x there. elim there [
          | inl same ↦ here x same
          | inr later ↦ insert-there less y x (insertions less ys) (kept x later)
        ],
      )
    where
      here : (x : A) → x ≡ y → Among x (insert less y (insertions less ys))
      here x same =
          subst (λ w. Among w (insert less y (insertions less ys))) (sym same)
            (insert-here less y (insertions less ys))

  insert-length :
      (less : A → A → Bool) (x : A) (ys : List A) → length (insert less x ys) ≡ suc (length ys)
  insert-length less x [] = refl
  insert-length less x (y ∷ ys) = elim (Bool-cases (less x y)) [
    | inl before ↦ rw before refl
    | inr after ↦ rw after (ap suc (insert-length less x ys))
  ]

  insert-back :
      (less : A → A → Bool) (x z : A) (ys : List A) → Among z (insert less x ys) → Among z (x ∷ ys)
  insert-back less x z [] there = there
  insert-back less x z (y ∷ ys) there = elim (Bool-cases (less x y)) [
    | inl before ↦ rw before at there
    | inr after ↦ elim (rw after at there) [
      | inl one ↦ inr (inl one)
      | inr later ↦ elim (insert-back less x z ys later) [
        | inl one ↦ inl one
        | inr further ↦ inr (inr further)
      ]
    ]
  ]

  pub insertions-Permutes : Permutes {A = A} insertions
  insertions-Permutes less [] = (refl, λ x there. there)
  insertions-Permutes less (y ∷ ys) =
      let (count, back) = insertions-Permutes less ys in
      (
        insert-length less y (insertions less ys) ∙ ap suc count,
        λ x there. elim (insert-back less y x (insertions less ys) there) [
          | inl one ↦ inl one
          | inr later ↦ inr (back x later)
        ],
      )

pub ltb-IsWeakOrder : IsWeakOrder ltb
ltb-IsWeakOrder = (
  λ x. ground arith,
  λ x y z h k. ground (arith, h, k),
  λ x y z h. elim (Bool-cases (ltb x y)) [
    | inl hit ↦ inl hit
    | inr miss ↦ inr (ground (arith, h, miss))
  ],
)
