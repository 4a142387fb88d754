-- ===== src/Table/Widths.antt =====
-- gmeasure/table/table.go: computeWidths and Render of a table.
use gomega.Base.{
  ℕ, zero, suc, ◌+◌, ◌-◌, ◌*◌, Bool, true, false, ◌==◌, ltb, leb, Option, none, some, List, [], ◌∷◌,
  ◌++◌, if◌then◌else◌, length, get_elem?,
}
use gomega.Base.Int.{ℤ, pos, negsuc}
use Prim.Native.Nat.{◌/◌}
use gomega.Table.{Text, Cell, TableStyle, ◌>>=◌, cell_width}
use gomega.Table.Rows.{Row, Table, render_row}

abbrev pub column_count : ℕ → List Row → ℕ
column_count n [] = n
column_count n (r ∷ rs) = column_count (if ltb n (length r.cells) then length r.cells else n) rs

abbrev pub border_width : TableStyle → ℕ
border_width ts = if ts.vertical_borders then ts.padding + (1 + ts.padding) else ts.padding

abbrev pub wider : ℕ × ℕ → ℕ × ℕ → ℕ × ℕ
wider (w, m) (w', m') = (if ltb w w' then w' else w, if ltb m m' then m' else m)

-- A row with fewer columns is passed over.
abbrev pub widened : ℕ × ℕ → Option Cell → ℕ × ℕ
widened wm none = wm
widened wm (some c) = wider wm (cell_width c)

-- The width of a column and its least width.
abbrev pub column_width : ℕ → ℕ × ℕ → List Row → ℕ × ℕ
column_width i wm [] = wm
column_width i wm (r ∷ rs) = column_width i (widened wm (get_elem? r.cells i)) rs

abbrev pub widths_from : ℕ → ℕ → List Row → List (ℕ × ℕ)
widths_from i zero rows = []
widths_from i (suc n) rows = column_width i (0, 0) rows ∷ widths_from (i + 1) n rows

abbrev pub firsts : List (ℕ × ℕ) → List ℕ
firsts [] = []
firsts ((w, m) ∷ ps) = w ∷ firsts ps

abbrev pub seconds : List (ℕ × ℕ) → List ℕ
seconds [] = []
seconds ((w, m) ∷ ps) = m ∷ seconds ps

abbrev pub sum : List ℕ → ℕ
sum [] = 0
sum (w ∷ ws) = w + sum ws

abbrev pub min : ℕ → ℕ → ℕ
min a b = if ltb a b then a else b

abbrev pub max : ℕ → ℕ → ℕ
max a b = if ltb b a then a else b

abbrev pub clamp : ℕ → List ℕ → List ℕ
clamp m [] = []
clamp m (w ∷ ws) = min w m ∷ clamp m ws

-- A round of the last loop, in which the baseline is above 0, as the columns are wider than the limit.
abbrev pub scale : ℕ → ℕ → List ℕ → List ℕ → List ℕ
scale budget baseline (w ∷ ws) (m ∷ ms) =
    max (w * budget / baseline) m ∷ scale budget baseline ws ms
scale budget baseline ws ms = ws

-- The last loop, which breaks after 101 rounds.
abbrev pub scale_down : ℕ → ℕ → ℕ → List ℕ → List ℕ → List ℕ
scale_down zero limit border widths mins = widths
scale_down (suc n) limit border widths mins =
    let rest = scale_down n limit border (scale (limit - border) (sum widths) widths mins) mins in
    if ltb limit (sum widths + border) then rest else widths

abbrev pub choose_widths : ℕ → ℕ → ℕ → List ℕ → List ℕ → List ℕ
choose_widths limit col border widths mins =
    if leb (sum widths + border) limit
    then widths
    else if leb (sum (clamp col widths) + border) limit
    then clamp col widths
    else if leb limit (sum (clamp col mins) + border)
    then clamp col mins
    else scale_down 101 limit border (clamp col widths) (clamp col mins)

-- The total width of no columns is the negative of a border's.
abbrev pub total_of : ℕ → ℕ → ℕ → ℤ
total_of border zero n = if border == 0 then pos n else negsuc (border - 1)
total_of border (suc k) n = pos (n + border * k)

-- computeWidths: the total width, and those of the columns.
unfoldable pub compute_widths : Table → ℤ × List ℕ
unfolding cell_width
compute_widths t =
    let n = column_count 0 t.rows in
    let ps = widths_from 0 n t.rows in
    let border = border_width t.table_style in
    let ws =
      choose_widths t.table_style.max_table_width t.table_style.max_col_width (border * (n - 1))
        (firsts ps) (seconds ps) in
    (total_of border n (sum ws), ws)

abbrev pub is_last_row : List Row → Bool
is_last_row [] = true
is_last_row (r ∷ rs) = false

unfoldable pub render_rows : List Row → List ℕ → ℤ → TableStyle → Option (List Text)
unfolding render_row
render_rows [] widths total ts = some []
render_rows (r ∷ rs) widths total ts = do
  lines ← render_row r widths total ts (is_last_row rs)
  rest ← render_rows rs widths total ts
  some (lines ++ rest)

-- Table.Render.
unfoldable pub render : Table → Option (List Text)
unfolding render_rows compute_widths
render t = let found = compute_widths t in render_rows t.rows found.1 found.0 t.table_style
