-- ===== src/Table/Rectangle.antt =====
-- A printed table is a rectangle.
use mathlib.Core.Path.{subst}
use gomega.Base.{
  ℕ, zero, suc, ◌+◌, ◌-◌, ◌*◌, ◌≡◌, ◌≤◌, ◌⊎◌, inl, inr, refl, ap, ◌∙◌, Bool, false, some, List, [],
  ◌∷◌, ◌++◌, if◌then◌else◌, length, get_elem?, arith, Bool-cases, All, All-append,
}
use gomega.Base.Int.{ℤ, pos}
use gomega.Table.{Text, Cell, TableStyle, ◌>>=◌, cell_width}
use gomega.Table.Words.{IsLong}
use gomega.Table.Cells.{IsRoomy}
use gomega.Table.Columns.{
  AreRoomy, AtMost, Bounds, choose_widths-AtMost, clamped-IsRoomy, column_width-Bounds,
  widths_from-Ordered, widths_from-AreRoomy,
}
use gomega.Table.Blocks.{render_columns-IsLong}
use gomega.Table.Spans.{NonEmpty, render_one-IsLong, IsRoomy-wider, repeat_text-IsLong}
use gomega.Table.Rows.{
  Row, Table, repeat_text, render_body, divider_lines, has_divider, is_empty_text, render_row,
}
use gomega.Table.Widths.{
  column_count, border_width, column_width, widths_from, firsts, seconds, sum, choose_widths, clamp,
  total_of, compute_widths, is_last_row, render_rows, render,
}

-- A row that has a cell for each column or just one cell, and a divider of one rune or none.
abbrev pub IsRegular : ℕ → Row → Type 0
IsRegular n r =
    ((length r.cells ≡ n) ⊎ (length r.cells ≡ 1))
    × All (λ (c : Cell). NonEmpty c.contents) r.cells
    × (length r.divider ≤ 1)

-- Cells with room in their columns, the first of which is w wide, or one cell with room in the first.
abbrev HaveRoom : ℕ → List ℕ → List Cell → Type 0
HaveRoom w ws [] = ⊥
HaveRoom w ws (c ∷ []) = IsRoomy w c
HaveRoom w ws (c ∷ d ∷ cells) = AreRoomy (c ∷ d ∷ cells) (w ∷ ws)

AreRoomy-HaveRoom :
    (w : ℕ) (ws : List ℕ) (cells : List Cell) → AreRoomy cells (w ∷ ws) → HaveRoom w ws cells
AreRoomy-HaveRoom w ws [] room = room
AreRoomy-HaveRoom w ws (c ∷ []) (here, there) = here
AreRoomy-HaveRoom w ws (c ∷ d ∷ cells) room = room

module _ (w : ℕ) (ws : List ℕ) (ts : TableStyle) (plain : ts.enable_text_styling ≡ false) where
  abbrev total_width : ℕ
  total_width = w + sum ws + border_width ts * length ws

  render_body-IsLong :
      (cells : List Cell) (style : Text)
      → HaveRoom w ws cells
      → All (λ (c : Cell). NonEmpty c.contents) cells
      → (ls : List Text) × (render_body cells style (w ∷ ws) (pos total_width) ts ≡ some ls)
        × All (IsLong total_width) ls
  unfolding render_body
  render_body-IsLong [] style room full = absurd room
  render_body-IsLong (c ∷ []) style room (full, _) =
      render_one-IsLong c style total_width ts plain full
        (IsRoomy-wider w total_width c (omega arith) room)
  render_body-IsLong (c ∷ d ∷ cells) style room full =
      render_columns-IsLong (c ∷ d ∷ cells) style w ws ts plain room

  divider_lines-IsLong :
      (r : Row) (is_last : Bool)
      → length r.divider ≤ 1
      → (ls : List Text) × ((if has_divider r ts is_last
            then divider_lines r.divider (pos total_width)
            else some [])
          ≡ some ls)
        × All (IsLong total_width) ls
  divider_lines-IsLong r is_last short = elim (Bool-cases (has_divider r ts is_last)) [
    | inl on ↦ (
      repeat_text total_width r.divider ∷ [],
      rw on refl,
      (repeat_text-IsLong total_width r.divider (one r.divider short (ground (arith, on))), tt),
    )
    | inr off ↦ ([], rw off refl, tt)
  ]
    where
      one : (d : Text) → length d ≤ 1 → is_empty_text d ≡ false → length d ≡ 1
      one [] small full = absurd (cc)
      one (c ∷ d) small full = omega (arith, small)

  render_row-IsLong :
      (r : Row) (is_last : Bool) (n : ℕ)
      → HaveRoom w ws r.cells
      → IsRegular n r
      → (ls : List Text) × (render_row r (w ∷ ws) (pos total_width) ts is_last ≡ some ls)
        × All (IsLong total_width) ls
  unfolding render_row
  render_row-IsLong r is_last n room (cells, full, short) =
      let (body, done, long) = render_body-IsLong r.cells r.style room full in
      let (under, done', long') = divider_lines-IsLong r is_last short in
      (
        body ++ under,
        ap
              (λ o. o >>= (λ b.
                (if has_divider r ts is_last
                  then divider_lines r.divider (pos total_width)
                  else some [])
                >>= (λ u. some (b ++ u))))
              done
            ∙ ap (λ o. o >>= (λ u. some (body ++ u))) done',
        All-append (IsLong total_width) body under long long',
      )

  render_rows-IsLong :
      (n : ℕ) (rows : List Row)
      → All (λ (r : Row). HaveRoom w ws r.cells) rows
      → All (IsRegular n) rows
      → (ls : List Text) × (render_rows rows (w ∷ ws) (pos total_width) ts ≡ some ls)
        × All (IsLong total_width) ls
  unfolding render_rows
  render_rows-IsLong n [] rooms regular = ([], refl, tt)
  render_rows-IsLong n (r ∷ rows) (room, rooms) (here, there) =
      let (ls, done, long) = render_row-IsLong r (is_last_row rows) n room here in
      let (rest, done', long') = render_rows-IsLong n rows rooms there in
      (ls ++ rest, ground (arith, done, done'), All-append (IsLong total_width) ls rest long long')

HaveRoom-row :
    (rows : List Row) (col w : ℕ) (ws : List ℕ) (n : ℕ) (r : Row)
    → 2 ≤ col
    → AtMost (clamp col (seconds (widths_from 0 (suc n) rows))) (w ∷ ws)
    → ((k : ℕ) (c : Cell)
        → get_elem? r.cells k ≡ some c
        → (cell_width c).1 ≤ (column_width k (0, 0) rows).1)
    → IsRegular (suc n) r
    → HaveRoom w ws r.cells
HaveRoom-row rows col w ws n r wide above least (inl even, full, short) =
    AreRoomy-HaveRoom w ws r.cells (
      widths_from-AreRoomy rows col wide 0 (suc n) r.cells (w ∷ ws) even
        (λ k c found.
          let same : k ≡ 0 + k = omega arith in
          subst (λ j. (cell_width c).1 ≤ (column_width j (0, 0) rows).1) same (least k c found))
        above)
HaveRoom-row rows col w ws n r wide (above, _) least (inr one, full, short) =
    single r.cells one (λ c found. least 0 c found)
  where
    single :
        (cells : List Cell)
        → length cells ≡ 1
        → ((c : Cell)
            → get_elem? cells 0 ≡ some c
            → (cell_width c).1 ≤ (column_width 0 (0, 0) rows).1)
        → HaveRoom w ws cells
    single [] one least = absurd (omega (arith, one))
    single (c ∷ []) one least =
        clamped-IsRoomy col (column_width 0 (0, 0) rows).1 w c wide (least c refl) above
    single (c ∷ d ∷ cells) one least = absurd (omega (arith, one))

HaveRoom-rows :
    (rows : List Row) (col w : ℕ) (ws : List ℕ) (n : ℕ) (rs : List Row)
    → 2 ≤ col
    → AtMost (clamp col (seconds (widths_from 0 (suc n) rows))) (w ∷ ws)
    → ((k : ℕ) → Bounds k (column_width k (0, 0) rows).1 rs)
    → All (IsRegular (suc n)) rs
    → All (λ (r : Row). HaveRoom w ws r.cells) rs
HaveRoom-rows rows col w ws n [] wide above least regular = tt
HaveRoom-rows rows col w ws n (r ∷ rs) wide above least (here, there) = (
  HaveRoom-row rows col w ws n r wide above (λ k c found. (least k).0 c found) here,
  HaveRoom-rows rows col w ws n rs wide above (λ k. (least k).1) there,
)

AtMost-length :
    (rows : List Row) (col i n : ℕ) (ws : List ℕ)
    → AtMost (clamp col (seconds (widths_from i n rows))) ws
    → length ws ≡ n
AtMost-length rows col i zero [] above = refl
AtMost-length rows col i zero (w ∷ ws) above = absurd above
AtMost-length rows col i (suc n) [] above = absurd above
AtMost-length rows col i (suc n) (w ∷ ws) (here, above) =
    ap suc (AtMost-length rows col (i + 1) n ws above)

-- The columns of a table are chosen, and its rows printed, each line of the total width.
abbrev pub IsRectangle : Table → Type 0
IsRectangle t =
    (total : ℕ) × (lines : List Text) × ((compute_widths t).0 ≡ pos total)
    × (render t ≡ some lines)
    × All (IsLong total) lines

chosen-IsRectangle :
    (t : Table) (n w : ℕ) (ws : List ℕ)
    → t.table_style.enable_text_styling ≡ false
    → 2 ≤ t.table_style.max_col_width
    → All (IsRegular (suc n)) t.rows
    → compute_widths t ≡ (total_of (border_width t.table_style) (suc n) (sum (w ∷ ws)), w ∷ ws)
    → AtMost (clamp t.table_style.max_col_width (seconds (widths_from 0 (suc n) t.rows))) (w ∷ ws)
    → IsRectangle t
unfolding render
chosen-IsRectangle t n w ws plain wide regular chosen above =
    let rooms =
      HaveRoom-rows t.rows t.table_style.max_col_width w ws n t.rows wide above
        (λ k. column_width-Bounds k (0, 0) t.rows) regular in
    let (lines, done, long) =
      render_rows-IsLong w ws t.table_style plain (suc n) t.rows rooms regular in
    let count : n ≡ length ws =
      omega (arith, AtMost-length t.rows t.table_style.max_col_width 0 (suc n) (w ∷ ws) above) in
    let total : (compute_widths t).0 ≡ pos (total_width w ws t.table_style plain) =
      ap (λ (p : ℤ × List ℕ). p.0) chosen
      ∙ ap (λ k. pos (w + sum ws + border_width t.table_style * k)) count in
    (
      total_width w ws t.table_style plain,
      lines,
      total,
      ap (λ z. render_rows t.rows (compute_widths t).1 z t.table_style) total
          ∙ (ap
                (λ (p : ℤ × List ℕ).
                  render_rows t.rows p.1 (pos (total_width w ws t.table_style plain)) t.table_style)
                chosen
              ∙ done),
      long,
    )

-- A table with a column, in which each row has as many cells as there are columns or just one, each cell
-- at least a line (which may be empty), and each divider one rune or none, and which allows columns of
-- two runes and does not style its text, is printed without a panic, and all its lines, also those under
-- the rows, are as long as the total width that was computed.
pub render-IsRectangle :
    (t : Table)
    → t.table_style.enable_text_styling ≡ false
    → 2 ≤ t.table_style.max_col_width
    → 1 ≤ column_count 0 t.rows
    → All (IsRegular (column_count 0 t.rows)) t.rows
    → IsRectangle t
unfolding compute_widths
render-IsRectangle t plain wide some_column regular =
    columns (column_count 0 t.rows) some_column regular refl
  where
    chosen_widths : ℕ → List ℕ
    chosen_widths n =
        choose_widths t.table_style.max_table_width t.table_style.max_col_width
          (border_width t.table_style * (n - 1)) (firsts (widths_from 0 n t.rows))
          (seconds (widths_from 0 n t.rows))

    columns : (n : ℕ) → 1 ≤ n → All (IsRegular n) t.rows → column_count 0 t.rows ≡ n → IsRectangle t
    columns zero full regular count = absurd (omega (arith, full))
    columns (suc n) full regular count = widths (chosen_widths (suc n)) refl (
        choose_widths-AtMost t.table_style.max_table_width t.table_style.max_col_width
          (border_width t.table_style * (suc n - 1)) (widths_from 0 (suc n) t.rows)
          (widths_from-Ordered 0 (suc n) t.rows))
      where
        widths :
            (ws : List ℕ)
            → chosen_widths (suc n) ≡ ws
            → AtMost (clamp t.table_style.max_col_width (seconds (widths_from 0 (suc n) t.rows))) ws
            → IsRectangle t
        widths [] shape above = absurd above
        widths (w ∷ ws) shape above =
            chosen-IsRectangle t n w ws plain wide regular
              (ap
                  (λ k. (
                    total_of (border_width t.table_style) k (sum (chosen_widths k)),
                    chosen_widths k,
                  ))
                  count
                ∙ ap (λ v. (total_of (border_width t.table_style) (suc n) (sum v), v)) shape)
              above
