-- ===== src/Table/Examples.antt =====
-- Tables on concrete inputs.
use gomega.Base.{◌≡◌, refl, inl, inr, true, false, some, none, [], ◌∷◌, arith}
use gomega.Table.{Text, right, new_cell, align_arg, render_cell}
use gomega.Table.Rows.{Table, new_row, cell_arg, render_row}
use gomega.Table.Widths.{render, compute_widths}
use gomega.Table.Pieces.{IsBroken, split_word-IsBroken}
use gomega.Table.Rectangle.{render-IsRectangle, IsRectangle}

-- "a bb c", "ddd" under a title of one cell, where a table may be 6 wide and a column 4.
unfoldable narrow_table : Table
unfolding new_cell new_row
narrow_table = record {
  rows =
      new_row (cell_arg (new_cell (97 ∷ 98 ∷ []) []) ∷ [])
      ∷ new_row (
          cell_arg (new_cell (97 ∷ 32 ∷ 98 ∷ 98 ∷ 32 ∷ 99 ∷ []) [])
          ∷ cell_arg (new_cell (100 ∷ 100 ∷ 100 ∷ []) (align_arg right ∷ []))
          ∷ [])
      ∷ [];
  table_style = record {
    padding = 0;
    vertical_borders = true;
    horizontal_borders = true;
    max_table_width = 7;
    max_col_width = 4;
    enable_text_styling = false;
  };
}

narrow_table_lines :
    render narrow_table
    ≡ some (
        (97 ∷ 98 ∷ 32 ∷ 32 ∷ 32 ∷ 32 ∷ 32 ∷ [])
        ∷ (45 ∷ 45 ∷ 45 ∷ 45 ∷ 45 ∷ 45 ∷ 45 ∷ [])
        ∷ (97 ∷ 32 ∷ 32 ∷ 124 ∷ 100 ∷ 100 ∷ 100 ∷ [])
        ∷ (98 ∷ 98 ∷ 32 ∷ 124 ∷ 32 ∷ 32 ∷ 32 ∷ [])
        ∷ (99 ∷ 32 ∷ 32 ∷ 124 ∷ 32 ∷ 32 ∷ 32 ∷ [])
        ∷ [])
unfolding render render_row render_cell compute_widths narrow_table new_row
narrow_table_lines = refl

render-IsRectangle_example : IsRectangle narrow_table
unfolding narrow_table new_row new_cell
render-IsRectangle_example = render-IsRectangle narrow_table refl (omega arith) (omega arith) (
  (inr refl, (omega arith, tt), omega arith),
  ((inl refl, (omega arith, (omega arith, tt)), omega arith), tt),
)

abbrev letters : Text
letters = 97 ∷ 98 ∷ 99 ∷ 100 ∷ 101 ∷ []

split_word-IsBroken_example : IsBroken 3 letters ((97 ∷ 98 ∷ 45 ∷ []) ∷ (99 ∷ 100 ∷ 45 ∷ []) ∷ [])
split_word-IsBroken_example = split_word-IsBroken 3 letters (omega arith)

-- A word of five runes is printed to a width of three without its last rune, and to a width of one a
-- word of two is not printed at all.
lost_rune :
    render_cell (new_cell letters []) 3 [] narrow_table.table_style
    ≡ some ((97 ∷ 98 ∷ 45 ∷ []) ∷ (99 ∷ 100 ∷ 45 ∷ []) ∷ [])
unfolding render_cell new_cell narrow_table
lost_rune = refl

no_width : render_cell (new_cell (97 ∷ 98 ∷ []) []) 1 [] (narrow_table.table_style) ≡ none
unfolding render_cell new_cell narrow_table
no_width = refl
