-- ===== src/Gmeasure/Stats.antt =====
-- Stats of gmeasure/measurement.go on the durations or the values of a measurement, with sort.Slice and
-- the arithmetic of durations and floats given.
use gomega.Base.{
  ℕ, zero, suc, ◌+◌, ◌-◌, ◌%◌, Bool, true, false, ◌==◌, Option, none, some, List, [], ◌∷◌,
  if◌then◌else◌, get_elem?, length,
}
use Prim.Native.Nat.{◌/◌}
use Prim.Native.String.{String}

-- sort.Slice, by the less function on elements, and the arithmetic of the data points: their order, their sum, the
-- quotient by a number, and the deviation from a mean.
pub record Numbers (V : Type 0) : Type 0 where
  pub sort : (ℕ → ℕ → Bool) → List ℕ → List ℕ
  pub less : V → V → Bool
  pub nought : V
  pub add : V → V → V
  pub over : V → ℕ → V
  pub deviation : List V → V → V

pub record Summary (V : Type 0) : Type 0 where
  pub n : ℕ
  pub min : V
  pub max : V
  pub mean : V
  pub median : V
  pub std_dev : V
  pub min_annotation : String
  pub max_annotation : String

abbrev pub upto : ℕ → ℕ → List ℕ
upto i zero = []
upto i (suc k) = i ∷ upto (i + 1) k

-- `xs[is[k]]`; `none` is a panic.
abbrev pub at_index : {A : Type 0} → List A → List ℕ → ℕ → Option A
at_index xs is k = elim (get_elem? is k) [ none ↦ none | some i ↦ get_elem? xs i ]

infixl 10 ◌>>=◌
abbrev pub ◌>>=◌ : {A B : Type 0} → Option A → (A → Option B) → Option B
none >>= f = none
some a >>= f = f a

module _ {V : Type 0} (num : Numbers V) where
  -- An index out of range, which would be a panic, is last.
  abbrev pub less_options : Option V → Option V → Bool
  less_options none y = false
  less_options (some x) none = true
  less_options (some x) (some y) = num.less x y

  abbrev pub less_at : List V → ℕ → ℕ → Bool
  less_at vs i j = less_options (get_elem? vs i) (get_elem? vs j)

  abbrev pub sum : List V → V → V
  sum [] total = total
  sum (v ∷ vs) total = sum vs (num.add total v)

  abbrev pub indices : List V → List ℕ
  indices vs = num.sort (less_at vs) (upto 0 (length vs))

  abbrev pub median_of : List V → List ℕ → ℕ → Option V
  median_of vs is n =
      if n % 2 == 0
      then (do
        a ← at_index vs is (n / 2)
        b ← at_index vs is (n / 2 - 1)
        some (num.over (num.add a b) 2))
      else at_index vs is ((n - 1) / 2)

  -- The case of at least one data point.
  unfoldable pub summarize : List V → List String → Option (Summary V)
  summarize vs annotations = do
    low ← at_index vs (indices vs) 0
    high ← at_index vs (indices vs) (length vs - 1)
    low_annotation ← at_index annotations (indices vs) 0
    high_annotation ← at_index annotations (indices vs) (length vs - 1)
    middle ← median_of vs (indices vs) (length vs)
    some (record {
      n = length vs;
      min = low;
      max = high;
      mean = num.over (sum vs num.nought) (length vs);
      median = middle;
      std_dev = num.deviation vs (num.over (sum vs num.nought) (length vs));
      min_annotation = low_annotation;
      max_annotation = high_annotation;
    })
