-- ===== src/Gleak/Examples.antt =====
-- Instances of the theorems on stack dumps and on HaveLeaked.
use gomega.Base.{◌&&◌, ap, ◌≡◌, ◌≢◌, ◌⊎◌, refl, false, none, some, List, [], ◌∷◌, ◌++◌, map}
use gomega.Errors.{GoError}
use gomega.Gleak.{Goroutine, created_by, find_creator, parse_stack, parsed, unfinished}
use gomega.Gleak.Strings.{same_bytes, has_prefix}
use gomega.Gleak.Stacks.{parse_stack-finishes}
use gomega.Gleak.Dumps.{Entry, print, goroutine_of}
use gomega.Gleak.Printed.{parse_stack-print}
use gomega.Gleak.Leaks.{
  Filter, name, snapshot, have_leaked, match_leaked, ignoring_top_function, ignoring_goroutines,
  match_filter,
}
use gomega.Gleak.Leaks.Laws.{Among, Fails, AreLeaks, is_nonempty, match_leaked-AreLeaks}

-- "goroutine 1 [running]:", "main.main()", "\t/main.go:5 +0x1".
abbrev main_entry : Entry
main_entry = record {
  first_digit = 1;
  digits = [];
  state = 114 ∷ 117 ∷ 110 ∷ 110 ∷ 105 ∷ 110 ∷ 103 ∷ [];
  top = 109 ∷ 97 ∷ 105 ∷ 110 ∷ 46 ∷ 109 ∷ 97 ∷ 105 ∷ 110 ∷ [];
  arguments = [];
  others =
      (9 ∷ 47 ∷ 109 ∷ 97 ∷ 105 ∷ 110 ∷ 46 ∷ 103 ∷ 111 ∷ 58 ∷ 53 ∷ 32 ∷ 43 ∷ 48 ∷ 120 ∷ 49 ∷ [])
      ∷ [];
}

-- "goroutine 34 [select]:", "a.b(0x1)", "created by a.c", "\t/a.go:2 +0x7".
abbrev other_entry : Entry
other_entry = record {
  first_digit = 3;
  digits = 4 ∷ [];
  state = 115 ∷ 101 ∷ 108 ∷ 101 ∷ 99 ∷ 116 ∷ [];
  top = 97 ∷ 46 ∷ 98 ∷ [];
  arguments = 48 ∷ 120 ∷ 49 ∷ [];
  others =
      (created_by ++ 97 ∷ 46 ∷ 99 ∷ [])
      ∷ (9 ∷ 47 ∷ 97 ∷ 46 ∷ 103 ∷ 111 ∷ 58 ∷ 50 ∷ 32 ∷ 43 ∷ 48 ∷ 120 ∷ 55 ∷ [])
      ∷ [];
}

abbrev dump : List Entry
dump = main_entry ∷ other_entry ∷ []

parse_stack-print_example : parse_stack (print dump) ≡ parsed (map goroutine_of dump)
parse_stack-print_example = parse_stack-print dump refl

parse_stack-finishes_example : parse_stack (print dump) ≢ unfinished
parse_stack-finishes_example = parse_stack-finishes (print dump)

other_is_read : (goroutine_of other_entry).creator_function ≡ 97 ∷ 46 ∷ 99 ∷ []
unfolding find_creator
other_is_read = refl

-- Ignoring "a.b [sel]" and a snapshot of the first goroutine.
abbrev filters : List Filter
filters =
    ignoring_top_function (97 ∷ 46 ∷ 98 ∷ 32 ∷ 91 ∷ 115 ∷ 101 ∷ 108 ∷ 93 ∷ [])
    ∷ ignoring_goroutines (goroutine_of main_entry ∷ [])
    ∷ []

match_leaked-AreLeaks_example :
    ((e : GoError) × (match_leaked 7 filters (map goroutine_of dump) ≡ ([], false, some e))
      × (g : Goroutine) × Among g (map goroutine_of dump)
      × Fails filters g e)
    ⊎ ((leaks : List Goroutine) × (match_leaked 7 filters (map goroutine_of dump)
          ≡ (leaks, is_nonempty leaks, none))
        × AreLeaks 7 filters (map goroutine_of dump) leaks)
match_leaked-AreLeaks_example = match_leaked-AreLeaks 7 filters (map goroutine_of dump)

both_are_expected :
    have_leaked [] (name (97 ∷ 46 ∷ 98 ∷ []) ∷ snapshot (goroutine_of main_entry ∷ []) ∷ [])
    ≡ some (
        ignoring_top_function (97 ∷ 46 ∷ 98 ∷ [])
        ∷ ignoring_goroutines (goroutine_of main_entry ∷ [])
        ∷ [])
unfolding have_leaked
both_are_expected = refl

none_leaked : match_leaked 7 filters (map goroutine_of dump) ≡ ([], false, none)
unfolding match_leaked match_filter ignoring_top_function ignoring_goroutines
none_leaked = refl

-- The name of a generic function, "f[...]", is taken for a function and a state.
generic_is_not_ignored :
    (g : Goroutine)
    → g.top_function ≡ 102 ∷ 91 ∷ 46 ∷ 46 ∷ 46 ∷ 93 ∷ []
    → match_filter (ignoring_top_function (102 ∷ 91 ∷ 46 ∷ 46 ∷ 46 ∷ 93 ∷ [])) g ≡ (false, none)
unfolding match_filter ignoring_top_function
generic_is_not_ignored g named =
    ap (λ t. (same_bytes t (102 ∷ []) && has_prefix (46 ∷ 46 ∷ 46 ∷ []) g.state, none)) named
