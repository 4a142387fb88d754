-- ===== src/Table/Rows.antt =====
-- gmeasure/table/table.go: rows and tables. Widths, which are sums of counts, are numbers, but for the
-- total width of a table without columns, which may be negative.
use gomega.Base.{
  ℕ, zero, suc, ◌+◌, ◌-◌, Bool, true, false, not, ◌&&◌, ◌==◌, ltb, Option, none, some, List, [],
  ◌∷◌, ◌++◌, if◌then◌else◌, length, replicate, get_elem?,
}
use gomega.Base.Int.{ℤ, pos, negsuc}
use gomega.Table.{Text, Cell, TableStyle, ◌>>=◌, blanks, render_cell}

pub record Row : Type 0 where
  pub cells : List Cell
  pub divider : Text
  pub style : Text

-- An argument of R, by its type.
pub data RowArg : Type 0 where
  divider_arg style_arg : Text → RowArg
  cell_arg : Cell → RowArg
  other_arg : RowArg

abbrev take_row_args : Row → List RowArg → Row
take_row_args r [] = r
take_row_args r (divider_arg d ∷ args) = take_row_args (record r { divider = d }) args
take_row_args r (style_arg s ∷ args) = take_row_args (record r { style = s }) args
take_row_args r (cell_arg c ∷ args) = take_row_args (record r { cells = r.cells ++ c ∷ [] }) args
take_row_args r (other_arg ∷ args) = take_row_args r args

-- R.
unfoldable pub new_row : List RowArg → Row
new_row args = take_row_args (record { cells = []; divider = 45 ∷ []; style = [] }) args

unfoldable pub append_cell : Row → List Cell → Row
append_cell r cs = record r { cells = r.cells ++ cs }

-- strings.Repeat.
abbrev pub repeat_text : ℕ → Text → Text
repeat_text zero s = []
repeat_text (suc n) s = s ++ repeat_text n s

-- The cells rendered, each to the width of its column.
unfoldable pub render_cells : List Cell → List ℕ → Text → TableStyle → Option (List (List Text))
render_cells (c ∷ cs) (w ∷ ws) style ts = do
  lines ← render_cell c w style ts
  rest ← render_cells cs ws style ts
  some (lines ∷ rest)
render_cells cs ws style ts = some []

abbrev pub max_height : ℕ → List (List Text) → ℕ
max_height n [] = n
max_height n (lines ∷ rest) = max_height (if ltb n (length lines) then length lines else n) rest

-- A cell's lines with blank ones up to the height.
abbrev pub pad : ℕ → ℕ → List Text → List Text
pad height width lines = lines ++ replicate (height - length lines) (blanks width)

abbrev pub pad_all : ℕ → List ℕ → List (List Text) → List (List Text)
pad_all height (w ∷ ws) (lines ∷ rest) = pad height w lines ∷ pad_all height ws rest
pad_all height ws rest = rest

abbrev pub border_of : TableStyle → Text
border_of ts =
    if ts.vertical_borders
    then blanks ts.padding ++ (124 ∷ blanks ts.padding)
    else blanks ts.padding

-- The line of an index; `none` is an index out of range.
unfoldable pub line_at : Text → ℕ → List (List Text) → Option Text
line_at border idx [] = some []
line_at border idx (lines ∷ []) = get_elem? lines idx
line_at border idx (lines ∷ more ∷ rest) = do
  line ← get_elem? lines idx
  others ← line_at border idx (more ∷ rest)
  some (line ++ (border ++ others))

unfoldable pub lines_from : Text → ℕ → ℕ → List (List Text) → Option (List Text)
unfolding line_at
lines_from border idx zero cols = some []
lines_from border idx (suc n) cols = do
  line ← line_at border idx cols
  rest ← lines_from border (idx + 1) n cols
  some (line ∷ rest)

-- Join of no lines is an empty line.
abbrev pub joined_lines : List Text → List Text
joined_lines [] = [] ∷ []
joined_lines (l ∷ ls) = l ∷ ls

unfoldable pub render_columns : List Cell → Text → List ℕ → TableStyle → Option (List Text)
unfolding render_cells lines_from
render_columns cells style widths ts = if not (length cells == length widths) then none else do
  rendered ← render_cells cells widths style ts
  lines_from (border_of ts) 0 (max_height 0 rendered)
      (pad_all (max_height 0 rendered) widths rendered)

-- A row of one cell; where there is one, the total width is not negative.
unfoldable pub render_one : Cell → Text → ℤ → TableStyle → Option (List Text)
unfolding render_cell
render_one c style (pos total) ts = do
  lines ← render_cell c total style ts
  some (joined_lines lines)
render_one c style (negsuc n) ts = none

unfoldable pub render_body : List Cell → Text → List ℕ → ℤ → TableStyle → Option (List Text)
unfolding render_columns render_one
render_body (c ∷ []) style widths total ts = render_one c style total ts
render_body cells style widths total ts = render_columns cells style widths ts

abbrev pub divider_lines : Text → ℤ → Option (List Text)
divider_lines d (pos total) = some (repeat_text total d ∷ [])
divider_lines d (negsuc n) = none

abbrev pub is_empty_text : Text → Bool
is_empty_text [] = true
is_empty_text (c ∷ s) = false

abbrev pub has_divider : Row → TableStyle → Bool → Bool
has_divider r ts is_last = ts.horizontal_borders && not is_last && not (is_empty_text r.divider)

-- Row.Render.
unfoldable pub render_row : Row → List ℕ → ℤ → TableStyle → Bool → Option (List Text)
unfolding render_body
render_row r widths total ts is_last = do
  body ← render_body r.cells r.style widths total ts
  under ← (if has_divider r ts is_last then divider_lines r.divider total else some [])
  some (body ++ under)

pub record Table : Type 0 where
  pub rows : List Row
  pub table_style : TableStyle

unfoldable pub default_table_style : TableStyle
default_table_style = record {
  padding = 1;
  vertical_borders = true;
  horizontal_borders = true;
  max_table_width = 120;
  max_col_width = 40;
  enable_text_styling = true;
}

unfoldable pub new_table : Table
unfolding default_table_style
new_table = record { rows = []; table_style = default_table_style }

unfoldable pub append_row : Row → Table → Table
append_row r t = record t { rows = t.rows ++ r ∷ [] }
