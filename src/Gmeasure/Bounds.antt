-- ===== src/Gmeasure/Bounds.antt =====
-- That the smallest and the largest data point of Stats are that.
use Prim.Native.String.{String}
use Prim.Native.Nat.{◌/◌}
use gomega.Base.{
  true, Option, none, ◌+◌, ◌⊎◌, ℕ, zero, suc, ◌-◌, ◌%◌, ◌≡◌, ◌≤◌, ◌<◌, refl, sym, ap, ◌∙◌, inl, inr,
  Bool, false, ◌==◌, ==_iff, some, List, [], ◌∷◌, get_elem?, length, arith, Bool-cases,
}
use gomega.Gmeasure.Sorting.{
  IsWeakOrder, Sorts, Permutes, Among-get_elem?, get_elem?-Among, Ascends-get_elem?,
}
use gomega.Gmeasure.Stats.{
  upto, less_options, Numbers, Summary, at_index, less_at, sum, indices, median_of, summarize,
}

-- A sorted list of the numbers below n: it has these numbers, each of them, and none before a lesser one.
record IsSort (less : ℕ → ℕ → Bool) (n : ℕ) (is : List ℕ) : Type 0 where
  pub has_length : length is ≡ n
  pub below : (k i : ℕ) → get_elem? is k ≡ some i → i < n
  pub covers : (i : ℕ) → i < n → (k : ℕ) × (get_elem? is k ≡ some i)
  pub ordered :
      (p q i j : ℕ) → p < q → get_elem? is p ≡ some i → get_elem? is q ≡ some j → less j i ≡ false

get_elem?-below :
    {A : Type 0} (xs : List A) (k : ℕ) → k < length xs → (x : A) × (get_elem? xs k ≡ some x)
get_elem?-below [] k below = absurd (omega (arith, below))
get_elem?-below (x ∷ xs) zero below = (x, refl)
get_elem?-below (x ∷ xs) (suc k) below = get_elem?-below xs k (omega (arith, below))

get_elem?-length :
    {A : Type 0} (xs : List A) (k : ℕ) (x : A) → get_elem? xs k ≡ some x → k < length xs
get_elem?-length [] k x there = absurd (cc)
get_elem?-length (y ∷ xs) zero x there = omega arith
get_elem?-length (y ∷ xs) (suc k) x there = omega (arith, get_elem?-length xs k x there)

at_index_of :
    {A : Type 0} (xs : List A) (is : List ℕ) (k i : ℕ) (x : A)
    → get_elem? is k ≡ some i
    → get_elem? xs i ≡ some x
    → at_index xs is k ≡ some x
at_index_of xs is k i x index value = ground (arith, index, value)

get_elem?-upto : (a n k : ℕ) → k < n → get_elem? (upto a n) k ≡ some (a + k)
get_elem?-upto a zero k below = absurd (omega (arith, below))
get_elem?-upto a (suc n) zero below = ap some (omega arith)
get_elem?-upto a (suc n) (suc k) below =
    let index : a + 1 + k ≡ a + suc k = omega arith in
    get_elem?-upto (a + 1) n k (omega (arith, below)) ∙ ap some index

upto-below : (a n k i : ℕ) → get_elem? (upto a n) k ≡ some i → i < a + n
upto-below a zero k i found = absurd (cc)
upto-below a (suc n) zero i found = let one : a ≡ i = cc in omega (arith, one)
upto-below a (suc n) (suc k) i found = omega (arith, upto-below (a + 1) n k i found)

length-upto : (a n : ℕ) → length (upto a n) ≡ n
length-upto a zero = refl
length-upto a (suc n) = ap suc (length-upto (a + 1) n)

less_options-IsWeakOrder :
    {V : Type 0} (num : Numbers V) → IsWeakOrder num.less → IsWeakOrder (less_options num)
less_options-IsWeakOrder num (irreflexive, transitive, between) =
    (irreflexive', transitive', between')
  where
    irreflexive' : (x : Option _) → less_options num x x ≡ false
    irreflexive' none = refl
    irreflexive' (some x) = irreflexive x

    transitive' :
        (x y z : Option _)
        → less_options num x y ≡ true
        → less_options num y z ≡ true
        → less_options num x z ≡ true
    transitive' none y z h k = absurd (cc)
    transitive' (some x) none z h k = absurd (cc)
    transitive' (some x) (some y) none h k = refl
    transitive' (some x) (some y) (some z) h k = transitive x y z h k

    between' :
        (x y z : Option _)
        → less_options num x z ≡ true
        → (less_options num x y ≡ true) ⊎ (less_options num y z ≡ true)
    between' none y z h = absurd (cc)
    between' (some x) none z h = inl refl
    between' (some x) (some y) none h = inr refl
    between' (some x) (some y) (some z) h = between x y z h

-- sort.Slice sorts the indices of the data points.
indices-IsSort :
    {V : Type 0} (num : Numbers V) (vs : List V)
    → Sorts num.sort
    → Permutes num.sort
    → IsWeakOrder num.less
    → IsSort (less_at num vs) (length vs) (indices num vs)
indices-IsSort num vs sorts permutes (irreflexive, transitive, between) =
    let (irreflexive', transitive', between') =
      less_options-IsWeakOrder num (irreflexive, transitive, between) in
    let order : IsWeakOrder (less_at num vs) = (
      λ i. irreflexive' (get_elem? vs i),
      λ i j k. transitive' (get_elem? vs i) (get_elem? vs j) (get_elem? vs k),
      λ i j k. between' (get_elem? vs i) (get_elem? vs j) (get_elem? vs k),
    ) in
    let all = upto 0 (length vs) in
    let (sorted, kept) = sorts (less_at num vs) all order in
    let (count, back) = permutes (less_at num vs) all in
    record {
      has_length = count ∙ length-upto 0 (length vs);
      below = λ k i found.
          let (j, there) =
            Among-get_elem? i all (back i (get_elem?-Among i (indices num vs) k found)) in
          omega (arith, upto-below 0 (length vs) j i there);
      covers = λ i within.
          let index : 0 + i ≡ i = omega arith in
          Among-get_elem? i (indices num vs) (
            kept i
              (get_elem?-Among i all i (get_elem?-upto 0 (length vs) i within ∙ ap some index)));
      ordered = λ p q i j before here there.
          Ascends-get_elem? (less_at num vs) (indices num vs) p q i j sorted before here there;
    }

-- A data point with its annotation.
abbrev pub Recorded : {V : Type 0} → List V → List String → V → String → Type 0
Recorded vs annotations v a =
    (i : ℕ) × (get_elem? vs i ≡ some v) × (get_elem? annotations i ≡ some a)

module _ {V : Type 0} (num : Numbers V) (vs : List V) (annotations : List String)
    (sorted : IsSort (less_at num vs) (length vs) (indices num vs))
    (annotated : length annotations ≡ length vs) where
  point_at :
      (k : ℕ)
      → k < length vs
      → (i : ℕ) × (v : V) × (a : String) × (get_elem? (indices num vs) k ≡ some i)
        × (get_elem? vs i ≡ some v)
        × (get_elem? annotations i ≡ some a)
  point_at k within =
      let (i, index) =
        get_elem?-below (indices num vs) k (omega (arith, sorted.has_length, within)) in
      let bound = sorted.below k i index in
      let (v, value) = get_elem?-below vs i bound in
      let (a, annotation) = get_elem?-below annotations i (omega (arith, bound, annotated)) in
      (i, v, a, index, value, annotation)

  median_of-some :
      0 < length vs → (m : V) × (median_of num vs (indices num vs) (length vs) ≡ some m)
  median_of-some positive = elim (Bool-cases (length vs % 2 == 0)) [
    | inl even ↦
        let (i, a, _, index, value, _) = point_at (length vs / 2) (ground (arith, positive)) in
        let (j, b, _, index', value', _) =
          point_at (length vs / 2 - 1) (ground (arith, positive)) in
        (
          num.over (num.add a b) 2,
          ground (
            arith,
            even,
            at_index_of vs (indices num vs) (length vs / 2) i a index value,
            at_index_of vs (indices num vs) (length vs / 2 - 1) j b index' value',
          ),
        )
    | inr odd ↦
        let (i, a, _, index, value, _) =
          point_at ((length vs - 1) / 2) (ground (arith, positive)) in
        (
          a,
          ground
              (arith, odd, at_index_of vs (indices num vs) ((length vs - 1) / 2) i a index value),
        )
  ]

  not_less :
      ((x : V) → num.less x x ≡ false)
      → (p q i j : ℕ) (x y : V) → p ≤ q
      → get_elem? (indices num vs) p ≡ some i
      → get_elem? vs i ≡ some x
      → get_elem? (indices num vs) q ≡ some j
      → get_elem? vs j ≡ some y
      → num.less y x ≡ false
  not_less strict p q i j x y upward index value index' value' = elim (Bool-cases (p == q)) [
    | inl hit ↦
        let one : p ≡ q = (==_iff p q).0 hit in
        let alike : some i ≡ some j = sym index ∙ (ap (get_elem? (indices num vs)) one ∙ index') in
        let equal : y ≡ x = cc in ap (λ z. num.less z x) equal ∙ strict x
    | inr miss ↦
        let kept = sorted.ordered p q i j (ground (arith, upward, miss)) index index' in
        ground (arith, kept, value, value')
  ]

  summarize-Recorded_sorted :
      ((x : V) → num.less x x ≡ false)
      → 0 < length vs
      → (s : Summary V) × (summarize num vs annotations ≡ some s)
        × Recorded vs annotations s.min s.min_annotation
        × Recorded vs annotations s.max s.max_annotation
        × ((k : ℕ) (v : V)
            → get_elem? vs k ≡ some v
            → (num.less v s.min ≡ false) × (num.less s.max v ≡ false))
  unfolding summarize
  summarize-Recorded_sorted strict positive =
      let is = indices num vs in
      let last = length vs - 1 in
      let (i, low, a, index, value, annotation) = point_at 0 positive in
      let (j, high, b, index', value', annotation') = point_at last (omega (arith, positive)) in
      let (m, middle) = median_of-some positive in
      let s : Summary V = record {
        n = length vs;
        min = low;
        max = high;
        mean = num.over (sum num vs num.nought) (length vs);
        median = m;
        std_dev = num.deviation vs (num.over (sum num vs num.nought) (length vs));
        min_annotation = a;
        max_annotation = b;
      } in
      (
        s,
        ground (
          arith,
          middle,
          at_index_of vs is 0 i low index value,
          at_index_of vs is last j high index' value',
          at_index_of annotations is 0 i a index annotation,
          at_index_of annotations is last j b index' annotation',
        ),
        (i, value, annotation),
        (j, value', annotation'),
        λ k v there.
            let (q, place) = sorted.covers k (get_elem?-length vs k v there) in
            let within = get_elem?-length is q k place in
            (
              not_less strict 0 q i k low v (omega arith) index value place there,
              not_less strict q last k j v high (omega (arith, within, sorted.has_length)) place
                  there index' value',
            ),
      )

-- Where sort.Slice sorts by a strict weak order and keeps the elements, the data points are in such an
-- order, and each has an annotation, as recordings in an experiment have, Stats of at least one data point
-- does not panic; its minimum and maximum are data points with their own annotations, and no data point is
-- less than the one or greater than the other.
pub summarize-Recorded :
    {V : Type 0} (num : Numbers V) (vs : List V) (annotations : List String)
    → Sorts num.sort
    → Permutes num.sort
    → IsWeakOrder num.less
    → length annotations ≡ length vs
    → 0 < length vs
    → (s : Summary V) × (summarize num vs annotations ≡ some s)
      × Recorded vs annotations s.min s.min_annotation
      × Recorded vs annotations s.max s.max_annotation
      × ((k : ℕ) (v : V)
          → get_elem? vs k ≡ some v
          → (num.less v s.min ≡ false) × (num.less s.max v ≡ false))
summarize-Recorded num vs annotations sorts permutes order annotated positive =
    summarize-Recorded_sorted num vs annotations (indices-IsSort num vs sorts permutes order)
      annotated order.0 positive
