-- ===== src/Gleak.antt =====
-- gleak/goroutine/goroutine.go: the parsing of a stack dump. `none` and `panicked` are panics. A
-- bufio.Reader on the dump is the lines that it has yet to read, each with its newline, and what follows
-- the last newline: ReadString gives one of these at a time, and Peek(10) of a header, which has no
-- newline, is its test on the first.
pub mod Strings
pub mod Trims
pub mod Stacks
pub mod Dumps
pub mod Printed
pub mod Creators
pub mod Leaks
mod Examples
use gomega.Base.{
  ℕ, zero, suc, ◌+◌, ◌-◌, Bool, true, false, not, ◌&&◌, ◌==◌, Option, none, some, List, [], ◌∷◌,
  ◌++◌, if◌then◌else◌, length, take, drop,
}
use gomega.Gleak.Strings.{
  Bytes, has_prefix, has_suffix, trim_prefix, trim_suffix, last_index, trim_space, split_n,
  parse_uint,
}

pub record Goroutine : Type 0 where
  pub id : ℕ
  pub state : Bytes
  pub top_function : Bytes
  pub creator_function : Bytes
  pub born_at : Bytes
  pub backtrace : Bytes

-- The lines, with their newlines, and the rest.
abbrev pub split_lines : Bytes → List Bytes × Bytes
split_lines [] = ([], [])
split_lines (c ∷ s) =
    let rest = split_lines s in
    if c == 10
    then ((c ∷ []) ∷ rest.0, rest.1)
    else elim rest.0 [ [] ↦ ([], c ∷ rest.1) | l ∷ ls ↦ ((c ∷ l) ∷ ls, rest.1) ]

-- "goroutine ", "created by " and " +0x".
abbrev pub header : Bytes
header = 103 ∷ 111 ∷ 114 ∷ 111 ∷ 117 ∷ 116 ∷ 105 ∷ 110 ∷ 101 ∷ 32 ∷ []

abbrev pub created_by : Bytes
created_by = 99 ∷ 114 ∷ 101 ∷ 97 ∷ 116 ∷ 101 ∷ 100 ∷ 32 ∷ 98 ∷ 121 ∷ 32 ∷ []

abbrev pub offset : Bytes
offset = 32 ∷ 43 ∷ 48 ∷ 120 ∷ []

abbrev pub goroutine_with : Bytes → ℕ → Goroutine
goroutine_with state id = record {
  id = id;
  state = state;
  top_function = [];
  creator_function = [];
  born_at = [];
  backtrace = [];
}

abbrev pub with_id : Bytes → Option ℕ → Option Goroutine
with_id state none = none
with_id state (some n) = some (goroutine_with state n)

-- new, on the fields of the line.
abbrev pub read_fields : List Bytes → Option Goroutine
read_fields (a ∷ b ∷ c ∷ []) =
    with_id (trim_suffix (93 ∷ []) (trim_prefix (91 ∷ []) c)) (parse_uint b)
read_fields fields = none

unfoldable pub new_goroutine : Bytes → Option Goroutine
new_goroutine line = read_fields (split_n 3 32 (trim_suffix (58 ∷ 10 ∷ []) line))

-- findCreator on the lines from the creator on.
abbrev pub read_creator : List Bytes → Bytes × Bytes
read_creator (creator ∷ line ∷ more) = elim (last_index offset line) [
  | none ↦ ([], [])
  | some at ↦ (creator, trim_space (take at line))
]
read_creator details = ([], [])

-- The creator and the location.
unfoldable pub find_creator : Bytes → Bytes × Bytes
find_creator backtrace = elim (last_index created_by backtrace) [
  | none ↦ ([], [])
  | some pos ↦ read_creator (split_n 3 10 (drop (pos + length created_by) backtrace))
]

-- The top function of a line without the white space around it; `none` is the panic.
abbrev pub function_name : Bytes → Option Bytes
function_name line = elim (last_index (40 ∷ []) line) [
  | none ↦ none
  | some zero ↦ none
  | some (suc i) ↦ some (take (suc i) line)
]

-- The top function after a line.
unfoldable pub top_of : Bytes → Bytes → Option Bytes
top_of (c ∷ top) line = some (c ∷ top)
top_of [] line = function_name (trim_space line)

-- parseGoroutineBacktrace: the top function, the backtrace and the lines still to read.
unfoldable pub parse_backtrace :
    List Bytes → Bytes → Bytes → Bytes → Option (Bytes × Bytes × List Bytes)
unfolding top_of
parse_backtrace [] tail top backtrace =
    if has_prefix header tail
    then some (top, backtrace, [])
    else elim (top_of top tail) [ none ↦ none | some top' ↦ some (top', backtrace ++ tail, []) ]
parse_backtrace (line ∷ lines) tail top backtrace =
    if has_prefix header line then some (top, backtrace, line ∷ lines) else elim (top_of top line) [
      | none ↦ none
      | some top' ↦ parse_backtrace lines tail top' (backtrace ++ line)
    ]

pub data Parsed : Type 0 where
  panicked unfinished : Parsed
  parsed : List Goroutine → Parsed

abbrev pub put_first : Goroutine → Parsed → Parsed
put_first g panicked = panicked
put_first g unfinished = unfinished
put_first g (parsed gs) = parsed (g ∷ gs)

abbrev pub strip : Bytes → Bytes
strip b = if has_suffix (10 ∷ 10 ∷ []) b then take (length b - 1) b else b

unfoldable pub complete : Goroutine → Bytes → Bytes → Goroutine
unfolding find_creator
complete g top backtrace = record g {
  top_function = top;
  backtrace = strip backtrace;
  creator_function = (find_creator (strip backtrace)).0;
  born_at = (find_creator (strip backtrace)).1;
}

-- The loop of parseStack on fuel.
unfoldable pub parse_loop : ℕ → List Bytes → Bytes → Parsed
unfolding new_goroutine parse_backtrace complete
parse_loop zero lines tail = unfinished
parse_loop (suc fuel) [] tail = parsed []
parse_loop (suc fuel) (line ∷ lines) tail = elim (new_goroutine line) [
  | none ↦ panicked
  | some g ↦ elim (parse_backtrace lines tail [] []) [
    | none ↦ panicked
    | some r ↦
        let (top, backtrace, rest) = r in
        put_first (complete g top backtrace) (parse_loop fuel rest tail)
  ]
]

unfoldable pub parse_stack : Bytes → Parsed
unfolding parse_loop
parse_stack stacks =
    let found = split_lines stacks in parse_loop (suc (length found.0)) found.0 found.1
