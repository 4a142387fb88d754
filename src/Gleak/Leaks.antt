-- ===== src/Gleak/Leaks.antt =====
-- gleak/have_leaked_matcher.go and the matchers of goroutines in gleak: HaveLeaked with its filters. The
-- built-in filters are given, as is the id of the goroutine that calls.
pub mod Laws
use mathlib.Core.Path.{subst}
use gomega.Base.{
  ℕ, zero, suc, ◌+◌, ◌-◌, ◌≡◌, ◌≢◌, ◌↔◌, ◌⊎◌, inl, inr, refl, sym, ap, ◌∙◌, Bool, true, false, not,
  ◌&&◌, ◌||◌, ◌==◌, ==_iff, Option, none, some, List, [], ◌∷◌, ◌++◌, if◌then◌else◌, All, length,
  take, drop, arith, Bool-cases, Option-cases,
}
use gomega.Errors.{GoError}
use gomega.Gleak.{Goroutine}
use gomega.Gleak.Strings.{
  Bytes, same_bytes, has_prefix, has_suffix, index, contains_bytes, trim_left, trim_right,
}

-- A matcher of goroutines: those of gleak, and any other.
pub data Filter : Type 0 where
  top_function : Bytes → Bytes → Bool → Filter
  in_backtrace : Bytes → Filter
  goroutines : List ℕ → Filter
  creator : Bytes → Bool → Filter
  other : (Goroutine → Bool × Option GoError) → Filter

-- An argument of HaveLeaked.
pub data Argument : Type 0 where
  name : Bytes → Argument
  snapshot : List Goroutine → Argument
  matcher : Filter → Argument
  unexpected : Argument

-- "...", whose first dot is kept.
abbrev dots : Bytes
dots = 46 ∷ 46 ∷ 46 ∷ []

abbrev without_dots : Bytes → Bytes
without_dots s = take (length s - 3 + 1) s

-- Trim.
abbrev trim : (ℕ → Bool) → Bytes → Bytes
trim t s = trim_right t (trim_left t s)

unfoldable pub ignoring_top_function : Bytes → Filter
ignoring_top_function s = elim (index (91 ∷ []) s) [
  | some i ↦
      top_function (trim (λ c. c == 32) (take i s)) (trim (λ c. (c == 91) || (c == 93)) (drop i s))
        false
  | none ↦
      if has_suffix dots s then top_function (without_dots s) [] true else top_function s [] false
]

unfoldable pub ignoring_creator : Bytes → Filter
ignoring_creator s = if has_suffix dots s then creator (without_dots s) true else creator s false

abbrev ids : List Goroutine → List ℕ
ids [] = []
ids (g ∷ gs) = g.id ∷ ids gs

unfoldable pub ignoring_goroutines : List Goroutine → Filter
ignoring_goroutines gs = goroutines (ids gs)

abbrev has_id : List ℕ → ℕ → Bool
has_id [] n = false
has_id (m ∷ ms) n = (m == n) || has_id ms n

-- HaveLeaked; `none` is its panic.
unfoldable pub have_leaked : List Filter → List Argument → Option (List Filter)
unfolding ignoring_top_function ignoring_goroutines
have_leaked filters [] = some filters
have_leaked filters (name s ∷ args) = have_leaked (filters ++ ignoring_top_function s ∷ []) args
have_leaked filters (snapshot gs ∷ args) = have_leaked (filters ++ ignoring_goroutines gs ∷ []) args
have_leaked filters (matcher f ∷ args) = have_leaked (filters ++ f ∷ []) args
have_leaked filters (unexpected ∷ args) = none

-- The Match methods of the filters.
unfoldable pub match_filter : Filter → Goroutine → Bool × Option GoError
match_filter (top_function top state true) g = (has_prefix top g.top_function, none)
match_filter (top_function top [] false) g = (same_bytes g.top_function top, none)
match_filter (top_function top (c ∷ state) false) g =
    (same_bytes g.top_function top && has_prefix (c ∷ state) g.state, none)
match_filter (in_backtrace s) g = (contains_bytes s g.backtrace, none)
match_filter (goroutines ns) g = (has_id ns g.id, none)
match_filter (creator s true) g = (has_prefix s g.creator_function, none)
match_filter (creator s false) g = (same_bytes g.creator_function s, none)
match_filter (other m) g = m g

-- What the inner loop of filter comes to.
pub data Scan : Type 0 where
  expected leaked : Scan
  scan_error : GoError → Scan

abbrev pub after_match : Bool × Option GoError → Scan → Scan
after_match (matches, some e) rest = scan_error e
after_match (true, none) rest = expected
after_match (false, none) rest = rest

unfoldable pub scan : List Filter → Goroutine → Scan
scan [] g = leaked
scan (f ∷ fs) g = after_match (match_filter f g) (scan fs g)

pub data Filtered : Type 0 where
  failed : GoError → Filtered
  remaining : List Goroutine → Filtered

abbrev pub keep : Goroutine → Filtered → Filtered
keep g (failed e) = failed e
keep g (remaining gs) = remaining (g ∷ gs)

abbrev pub after_scan : Goroutine → Scan → Filtered → Filtered
after_scan g expected rest = rest
after_scan g leaked rest = keep g rest
after_scan g (scan_error e) rest = failed e

unfoldable pub filter : ℕ → List Filter → List Goroutine → Filtered
unfolding scan
filter my_id fs [] = remaining []
filter my_id fs (g ∷ gs) =
    let rest = filter my_id fs gs in if g.id == my_id then rest else after_scan g (scan fs g) rest

-- Match of HaveLeakedMatcher: what it leaves in `leaked`, and what it returns.
unfoldable pub match_leaked :
    ℕ → List Filter → List Goroutine → List Goroutine × Bool × Option GoError
unfolding filter
match_leaked my_id fs gs = elim (filter my_id fs gs) [
  | failed e ↦ ([], false, some e)
  | remaining [] ↦ ([], false, none)
  | remaining (g ∷ gs') ↦ (g ∷ gs', true, none)
]
