-- ===== src/Table/Columns.antt =====
-- How wide computeWidths makes the columns.
use mathlib.Core.Path.{subst}
use gomega.Base.{
  ℕ, zero, suc, ◌+◌, ◌-◌, ◌≡◌, ◌≤◌, inl, inr, refl, sym, ◌==◌, ltb, leb, Option, none, some, List,
  [], ◌∷◌, if◌then◌else◌, length, get_elem?, arith, Bool-cases, All, All-weaken,
}
use gomega.Table.{Text, Cell, split, add_first, longest, longest_word, cell_width}
use gomega.Table.Words.{Fits}
use gomega.Table.Cells.{IsRoomy}
use gomega.Table.Rows.{Row}
use gomega.Table.Widths.{
  wider, widened, column_width, widths_from, firsts, seconds, sum, min, clamp, scale, scale_down,
  choose_widths,
}

-- One list of numbers is at most another, place by place.
abbrev pub AtMost : List ℕ → List ℕ → Type 0
AtMost [] [] = Unit {0}
AtMost [] (w ∷ ws) = ⊥
AtMost (m ∷ ms) [] = ⊥
AtMost (m ∷ ms) (w ∷ ws) = (m ≤ w) × AtMost ms ws

AtMost-refl : (ms : List ℕ) → AtMost ms ms
AtMost-refl [] = tt
AtMost-refl (m ∷ ms) = (omega arith, AtMost-refl ms)

-- Each least width is at most the width.
abbrev Ordered : List (ℕ × ℕ) → Type 0
Ordered ps = All (λ (p : ℕ × ℕ). p.1 ≤ p.0) ps

clamp-firsts :
    (col : ℕ) (ps : List (ℕ × ℕ)) → Ordered ps → AtMost (clamp col (seconds ps)) (firsts ps)
clamp-firsts col [] h = tt
clamp-firsts col ((w, m) ∷ ps) (p, h) = (ground (arith, p), clamp-firsts col ps h)

clamp-clamp :
    (col : ℕ) (ps : List (ℕ × ℕ))
    → Ordered ps
    → AtMost (clamp col (seconds ps)) (clamp col (firsts ps))
clamp-clamp col [] h = tt
clamp-clamp col ((w, m) ∷ ps) (p, h) = (ground (arith, p), clamp-clamp col ps h)

scale-AtMost :
    (budget baseline : ℕ) (ms ws : List ℕ) → AtMost ms ws → AtMost ms (scale budget baseline ws ms)
scale-AtMost budget baseline [] [] h = tt
scale-AtMost budget baseline [] (w ∷ ws) h = h
scale-AtMost budget baseline (m ∷ ms) [] h = h
scale-AtMost budget baseline (m ∷ ms) (w ∷ ws) (p, h) =
    (ground arith, scale-AtMost budget baseline ms ws h)

scale_down-AtMost :
    (n limit border : ℕ) (ms ws : List ℕ)
    → AtMost ms ws
    → AtMost ms (scale_down n limit border ws ms)
scale_down-AtMost zero limit border ms ws h = h
scale_down-AtMost (suc n) limit border ms ws h = elim (Bool-cases (ltb limit (sum ws + border))) [
  | inl more ↦ rw more (
      scale_down-AtMost n limit border ms (scale (limit - border) (sum ws) ws ms)
        (scale-AtMost (limit - border) (sum ws) ms ws h))
  | inr done ↦ rw done h
]

pub choose_widths-AtMost :
    (limit col border : ℕ) (ps : List (ℕ × ℕ))
    → Ordered ps
    → AtMost (clamp col (seconds ps)) (choose_widths limit col border (firsts ps) (seconds ps))
choose_widths-AtMost limit col border ps h =
    elim (Bool-cases (leb (sum (firsts ps) + border) limit)) [
      | inl fits ↦ rw fits (clamp-firsts col ps h)
      | inr wide ↦ elim (Bool-cases (leb (sum (clamp col (firsts ps)) + border) limit)) [
        | inl fits' ↦ rw (wide, fits') (clamp-clamp col ps h)
        | inr wide' ↦ elim (Bool-cases (leb limit (sum (clamp col (seconds ps)) + border))) [
          | inl exceeds ↦ rw (wide, wide', exceeds) (AtMost-refl (clamp col (seconds ps)))
          | inr scales ↦
              rw (wide, wide', scales)
                (scale_down-AtMost 101 limit border (clamp col (seconds ps)) (clamp col (firsts ps))
                  (clamp-clamp col ps h))
        ]
      ]
    ]

add_first-Fits : (c n : ℕ) (ws : List Text) → All (Fits n) ws → All (Fits (suc n)) (add_first c ws)
add_first-Fits c n [] fits = (omega arith, tt)
add_first-Fits c n (w ∷ ws) (fit, fits) =
    (omega (arith, fit), All-weaken (Fits n) (Fits (suc n)) ws (λ x h. omega (arith, h)) fits)

split-Fits : (sep : ℕ) (s : Text) → All (Fits (length s)) (split sep s)
split-Fits sep [] = (omega arith, tt)
split-Fits sep (c ∷ s) = elim (Bool-cases (c == sep)) [
  | inl hit ↦ rw hit (
    omega arith,
    All-weaken (Fits (length s)) (Fits (suc (length s))) (split sep s) (λ x h. omega (arith, h))
        (split-Fits sep s),
  )
  | inr miss ↦ rw miss (add_first-Fits c (length s) (split sep s) (split-Fits sep s))
]

longest-bound : (n m : ℕ) (ws : List Text) → n ≤ m → All (Fits m) ws → longest n ws ≤ m
longest-bound n m [] small fits = small
longest-bound n m (w ∷ ws) small (fit, fits) =
    longest-bound (if ltb n (length w) then length w else n) m ws (ground (arith, small, fit)) fits

longest_word-longest : (n m : ℕ) (ls : List Text) → n ≤ m → longest_word n ls ≤ longest m ls
longest_word-longest n m [] small = small
longest_word-longest n m (l ∷ ls) small =
    let m' = if ltb m (length l) then length l else m in
    let above : m ≤ m' = ground arith in
    let above' : length l ≤ m' = ground arith in
    longest_word-longest (longest n (split 32 l)) m' ls (
      longest-bound n m' (split 32 l) (omega (arith, small, above)) (
        All-weaken (Fits (length l)) (Fits m') (split 32 l) (λ x h. omega (arith, h, above'))
          (split-Fits 32 l)))

cell_width-Ordered : (c : Cell) → (cell_width c).1 ≤ (cell_width c).0
unfolding cell_width
cell_width-Ordered c = longest_word-longest 0 0 c.contents (omega arith)

-- Every cell of a column has a least width of at most m.
abbrev pub Bounds : ℕ → ℕ → List Row → Type 0
Bounds i m rows =
    All (λ (r : Row). (c : Cell) → get_elem? r.cells i ≡ some c → (cell_width c).1 ≤ m) rows

wider-grows :
    (wm xy : ℕ × ℕ)
    → (wm.1 ≤ (wider wm xy).1)
      × (xy.1 ≤ (wider wm xy).1)
      × (wm.1 ≤ wm.0 → xy.1 ≤ xy.0 → (wider wm xy).1 ≤ (wider wm xy).0)
wider-grows (w, m) (x, y) = (ground arith, ground arith, λ h k. ground (arith, h, k))

widened-grows : (wm : ℕ × ℕ) (o : Option Cell) → wm.1 ≤ (widened wm o).1
widened-grows wm none = omega arith
widened-grows wm (some c) = (wider-grows wm (cell_width c)).0

widened-ordered : (wm : ℕ × ℕ) (o : Option Cell) → wm.1 ≤ wm.0 → (widened wm o).1 ≤ (widened wm o).0
widened-ordered wm none h = h
widened-ordered wm (some c) h = (wider-grows wm (cell_width c)).2 h (cell_width-Ordered c)

column_width-grows : (i : ℕ) (wm : ℕ × ℕ) (rows : List Row) → wm.1 ≤ (column_width i wm rows).1
column_width-grows i wm [] = omega arith
column_width-grows i wm (r ∷ rows) =
    let o = get_elem? r.cells i in
    omega (arith, widened-grows wm o, column_width-grows i (widened wm o) rows)

column_width-Ordered :
    (i : ℕ) (wm : ℕ × ℕ) (rows : List Row)
    → wm.1 ≤ wm.0
    → (column_width i wm rows).1 ≤ (column_width i wm rows).0
column_width-Ordered i wm [] h = h
column_width-Ordered i wm (r ∷ rows) h =
    column_width-Ordered i (widened wm (get_elem? r.cells i)) rows
      (widened-ordered wm (get_elem? r.cells i) h)

pub column_width-Bounds :
    (i : ℕ) (wm : ℕ × ℕ) (rows : List Row) → Bounds i (column_width i wm rows).1 rows
column_width-Bounds i wm [] = tt
column_width-Bounds i wm (r ∷ rows) =
    let next = widened wm (get_elem? r.cells i) in
    (
      λ c there.
          let here =
            subst (λ o. (cell_width c).1 ≤ (widened wm o).1) (sym there)
              (wider-grows wm (cell_width c)).1 in
          omega (arith, here, column_width-grows i next rows),
      column_width-Bounds i next rows,
    )

pub widths_from-Ordered : (i n : ℕ) (rows : List Row) → Ordered (widths_from i n rows)
widths_from-Ordered i zero rows = tt
widths_from-Ordered i (suc n) rows =
    (column_width-Ordered i (0, 0) rows (omega arith), widths_from-Ordered (i + 1) n rows)

-- Cells side by side, each with room in its column.
abbrev pub AreRoomy : List Cell → List ℕ → Type 0
AreRoomy [] [] = Unit {0}
AreRoomy [] (w ∷ ws) = ⊥
AreRoomy (c ∷ cs) [] = ⊥
AreRoomy (c ∷ cs) (w ∷ ws) = IsRoomy w c × AreRoomy cs ws

pub clamped-IsRoomy :
    (col m w : ℕ) (c : Cell) → 2 ≤ col → (cell_width c).1 ≤ m → min m col ≤ w → IsRoomy w c
clamped-IsRoomy col m w c wide least above = elim (Bool-cases (leb 2 w)) [
  | inl enough ↦ inl (ground (arith, enough))
  | inr narrow ↦ inr (ground (arith, narrow, wide, least, above))
]

pub widths_from-AreRoomy :
    (rows : List Row) (col : ℕ)
    → 2 ≤ col
    → (i n : ℕ) (cells : List Cell) (ws : List ℕ) → length cells ≡ n
    → ((k : ℕ) (c : Cell)
        → get_elem? cells k ≡ some c
        → (cell_width c).1 ≤ (column_width (i + k) (0, 0) rows).1)
    → AtMost (clamp col (seconds (widths_from i n rows))) ws
    → AreRoomy cells ws
widths_from-AreRoomy rows col wide i zero [] [] same least above = tt
widths_from-AreRoomy rows col wide i zero [] (w ∷ ws) same least above = above
widths_from-AreRoomy rows col wide i zero (c ∷ cells) ws same least above =
    absurd (omega (arith, same))
widths_from-AreRoomy rows col wide i (suc n) [] ws same least above = absurd (omega (arith, same))
widths_from-AreRoomy rows col wide i (suc n) (c ∷ cells) [] same least above = above
widths_from-AreRoomy rows col wide i (suc n) (c ∷ cells) (w ∷ ws) same least (here, there) = (
  clamped-IsRoomy col (column_width i (0, 0) rows).1 w c wide
      (subst (λ k. (cell_width c).1 ≤ (column_width k (0, 0) rows).1) (omega arith)
        (least 0 c refl))
      here,
  widths_from-AreRoomy rows col wide (i + 1) n cells ws (omega (arith, same))
      (λ k d found.
        subst (λ j. (cell_width d).1 ≤ (column_width j (0, 0) rows).1) (omega arith)
          (least (suc k) d found))
      there,
)
