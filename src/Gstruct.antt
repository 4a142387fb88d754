-- ===== src/Gstruct.antt =====
-- gstruct: elements.go, fields.go, keys.go, ignore.go, pointer.go and types.go. A Go map is the list of
-- its entries, whose keys differ, in the order in which `range` comes to them.
pub mod Elements
pub mod Entries
mod Examples
use Prim.Native.Nat.{◌/◌}
use gomega.Base.{
  ℕ, suc, ◌%◌, ◌==◌, Bool, true, false, not, ◌&&◌, ◌||◌, Option, none, some, List, [], ◌∷◌, ◌++◌,
  if◌then◌else◌, is_some,
}
use gomega.Errors.{GoError}

-- Equality of the keys of a Go map.
pub record KeyEquality (K : Type 0) : Type 0 where
  pub same_key : K → K → Bool

-- Options; MatchAllElements and the like have none of them.
pub record Options : Type 0 where
  pub ignore_extras : Bool
  pub ignore_missing : Bool
  pub allow_duplicates : Bool

-- The bits of `options`.
unfoldable pub of_bits : ℕ → Options
of_bits o = record {
  ignore_extras = o % 2 == 1;
  ignore_missing = (o / 2) % 2 == 1;
  allow_duplicates = (o / 4) % 2 == 1;
}

-- What a Match does: it returns, or it panics.
pub data Ran : Type 0 where
  verdict : Bool → Option GoError → Ran
  panic : Ran

pub data Cause : Type 0 where
  matcher_error : GoError → Cause
  mismatched not_expected recovered : Cause

-- The errors that a Match collects.
pub data Failure (K : Type 0) : Type 0 where
  found_duplicate unexpected missing_expected : K → Failure K
  nested : K → Cause → Failure K
  panicked : Failure K

abbrev pub cause_of : Option GoError → Cause
cause_of (some e) = matcher_error e
cause_of none = mismatched

module _ {K : Type 0} (keys : KeyEquality K) where
  -- `elements[id]` of a map to bools.
  unfoldable pub has : List K → K → Bool
  has [] k = false
  has (j ∷ js) k = let rest = has js k in if keys.same_key j k then true else rest

  unfoldable pub lookup : {M : Type 0} → List (K × M) → K → Option M
  lookup [] k = none
  lookup ((j, m) ∷ ms) k = let rest = lookup ms k in if keys.same_key j k then some m else rest

  -- The second loop.
  unfoldable pub missing : {M : Type 0} → Options → List (K × M) → List K → List (Failure K)
  unfolding has
  missing o [] seen = []
  missing o ((k, m) ∷ ms) seen =
      let rest = missing o ms seen in
      if not (has seen k) && not o.ignore_missing then missing_expected k ∷ rest else rest

-- The keys seen, the errors so far, and whether the loop panicked.
pub record Checked (K : Type 0) : Type 0 where
  pub seen : List K
  pub errors : List (Failure K)
  pub has_panicked : Bool

abbrev pub add : {K : Type 0} → Failure K → Checked K → Checked K
add f c = record c { errors = f ∷ c.errors }

abbrev pub names : {K V : Type 0} → List (K × V) → List K
names [] = []
names ((k, v) ∷ vs) = k ∷ names vs

module _ {K V : Type 0} (keys : KeyEquality K) (o : Options) where
  -- The first loop of matchElements from index i on; `identify` gives `none` where it panics.
  unfoldable pub elements_loop :
      (ℕ → V → Option K) → List (K × (V → Ran)) → ℕ → List K → List V → Checked K
  unfolding has lookup
  elements_loop identify expected i seen [] = record {
    seen = seen;
    errors = [];
    has_panicked = false;
  }
  elements_loop identify expected i seen (v ∷ vs) = elim (identify i v) [
    | none ↦ record { seen = seen; errors = panicked ∷ []; has_panicked = true }
    | some id ↦
        if has keys seen id && not o.allow_duplicates
        then add (found_duplicate id) (elements_loop identify expected (suc i) seen vs)
        else elim (lookup keys expected id) [
          | none ↦
              if o.ignore_extras
              then elements_loop identify expected (suc i) (id ∷ seen) vs
              else add (unexpected id) (elements_loop identify expected (suc i) (id ∷ seen) vs)
          | some m ↦ elim (m v) [
            | panic ↦ record { seen = id ∷ seen; errors = panicked ∷ []; has_panicked = true }
            | verdict matched err ↦
                if matched
                then elements_loop identify expected (suc i) (id ∷ seen) vs
                else add (nested id (cause_of err))
                    (elements_loop identify expected (suc i) (id ∷ seen) vs)
          ]
        ]
  ]

  unfoldable pub match_elements :
      (ℕ → V → Option K) → List (K × (V → Ran)) → List V → List (Failure K)
  unfolding elements_loop missing
  match_elements identify expected vs =
      let c = elements_loop identify expected 0 [] vs in
      if c.has_panicked then c.errors else c.errors ++ missing keys o expected c.seen

  -- The function literal of matchFields and matchKeys on a field or an entry.
  unfoldable pub check_entry : List (K × (V → Ran)) → K → V → Option Cause
  unfolding lookup
  check_entry expected k v = elim (lookup keys expected k) [
    | none ↦ if o.ignore_extras then none else some not_expected
    | some m ↦ elim (m v) [
      | panic ↦ some recovered
      | verdict matched err ↦
          if is_some err then some (cause_of err) else if matched then none else some mismatched
    ]
  ]

  -- The loop over the fields of a struct, or over the entries of a map.
  unfoldable pub entries_loop : List (K × (V → Ran)) → List (K × V) → List (Failure K)
  unfolding check_entry
  entries_loop expected [] = []
  entries_loop expected ((k, v) ∷ vs) =
      let rest = entries_loop expected vs in
      elim (check_entry expected k v) [ none ↦ rest | some c ↦ nested k c ∷ rest ]

  unfoldable pub match_fields : List (K × (V → Ran)) → List (K × V) → List (Failure K)
  unfolding entries_loop missing
  match_fields expected fields =
      entries_loop expected fields ++ missing keys o expected (names fields)

  unfoldable pub match_keys : List (K × (V → Ran)) → List (K × V) → List (Failure K)
  unfolding entries_loop missing
  match_keys expected entries =
      entries_loop expected entries ++ missing keys o expected (names entries)

-- `len(m.failures) > 0`, and Match of the three matchers on a value of their kind.
unfoldable pub succeeds : {K : Type 0} → List (Failure K) → Bool
succeeds [] = true
succeeds (f ∷ fs) = false

-- Ignore and Reject.
unfoldable pub ignore : {V : Type 0} → Bool → V → Ran
ignore succeed v = verdict succeed none

-- What PointTo is given: no pointer, a nil pointer or a pointer to a value.
pub data Pointer (V : Type 0) : Type 0 where
  no_pointer : GoError → Pointer V
  nil_pointer : Pointer V
  pointer : V → Pointer V

unfoldable pub point_to : {V : Type 0} → (V → Ran) → Pointer V → Ran
point_to m (no_pointer e) = verdict false (some e)
point_to m nil_pointer = verdict false none
point_to m (pointer v) = m v
