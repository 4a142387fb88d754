-- ===== src/Table/Blocks.antt =====
-- How long the lines of a row are that is printed column by column.
use mathlib.Core.Path.{subst}
use gomega.Base.{
  ℕ, zero, suc, ◌+◌, ◌-◌, ◌*◌, ◌≡◌, ◌≤◌, ◌<◌, inl, inr, refl, ap, ◌∙◌, true, false, ◌==◌, ltb, some,
  List, [], ◌∷◌, ◌++◌, if◌then◌else◌, length, length-append, replicate, get_elem?, arith,
  Bool-cases, ==_iff, All, All-append,
}
use gomega.Table.{Text, Cell, TableStyle, blanks}
use gomega.Table.Words.{IsLong}
use gomega.Table.Cells.{length-blanks, render_cell-IsLong}
use gomega.Table.Columns.{AreRoomy}
use gomega.Table.Rows.{
  render_cells, max_height, pad_all, border_of, line_at, lines_from, render_columns,
}
use gomega.Table.Widths.{sum, border_width}

-- The lines of each cell have the width of its column.
abbrev AreLong : List ℕ → List (List Text) → Type 0
AreLong [] [] = Unit {0}
AreLong [] (b ∷ bs) = ⊥
AreLong (w ∷ ws) [] = ⊥
AreLong (w ∷ ws) (b ∷ bs) = All (IsLong w) b × AreLong ws bs

-- They have, and each cell has the same number of lines.
abbrev AreBlocks : ℕ → List ℕ → List (List Text) → Type 0
AreBlocks h [] [] = Unit {0}
AreBlocks h [] (b ∷ bs) = ⊥
AreBlocks h (w ∷ ws) [] = ⊥
AreBlocks h (w ∷ ws) (b ∷ bs) = All (IsLong w) b × (length b ≡ h) × AreBlocks h ws bs

render_cells-AreLong :
    (cells : List Cell) (ws : List ℕ) (style : Text) (ts : TableStyle)
    → ts.enable_text_styling ≡ false
    → AreRoomy cells ws
    → (bs : List (List Text)) × (render_cells cells ws style ts ≡ some bs) × AreLong ws bs
unfolding render_cells
render_cells-AreLong [] [] style ts plain room = ([], refl, tt)
render_cells-AreLong [] (w ∷ ws) style ts plain room = absurd room
render_cells-AreLong (c ∷ cells) [] style ts plain room = absurd room
render_cells-AreLong (c ∷ cells) (w ∷ ws) style ts plain (here, there) =
    let (b, done, long) = render_cell-IsLong c w style ts plain here in
    let (bs, done', longs) = render_cells-AreLong cells ws style ts plain there in
    (b ∷ bs, ground (arith, done, done'), (long, longs))

max_height-grows : (n : ℕ) (bs : List (List Text)) → n ≤ max_height n bs
max_height-grows n [] = omega arith
max_height-grows n (b ∷ bs) =
    let m = if ltb n (length b) then length b else n in
    let larger : n ≤ m = ground arith in omega (arith, larger, max_height-grows m bs)

max_height-bounds :
    (n : ℕ) (bs : List (List Text)) → All (λ (b : List Text). length b ≤ max_height n bs) bs
max_height-bounds n [] = tt
max_height-bounds n (b ∷ bs) =
    let m = if ltb n (length b) then length b else n in
    let larger : length b ≤ m = ground arith in
    (omega (arith, larger, max_height-grows m bs), max_height-bounds m bs)

length-replicate : (n : ℕ) (l : Text) → length (replicate n l) ≡ n
length-replicate zero l = refl
length-replicate (suc n) l = ap suc (length-replicate n l)

replicate-IsLong : (n w : ℕ) → All (IsLong w) (replicate n (blanks w))
replicate-IsLong zero w = tt
replicate-IsLong (suc n) w = (length-blanks w, replicate-IsLong n w)

pad_all-AreBlocks :
    (h : ℕ) (ws : List ℕ) (bs : List (List Text))
    → AreLong ws bs
    → All (λ (b : List Text). length b ≤ h) bs
    → AreBlocks h ws (pad_all h ws bs)
pad_all-AreBlocks h [] [] long small = tt
pad_all-AreBlocks h [] (b ∷ bs) long small = absurd long
pad_all-AreBlocks h (w ∷ ws) [] long small = absurd long
pad_all-AreBlocks h (w ∷ ws) (b ∷ bs) (long, longs) (small, smalls) =
    let more = replicate (h - length b) (blanks w) in
    (
      All-append (IsLong w) b more long (replicate-IsLong (h - length b) w),
      length-append b more ∙ omega (arith, small, length-replicate (h - length b) (blanks w)),
      pad_all-AreBlocks h ws bs longs smalls,
    )

get_elem?-All :
    {A : Type 0} (P : A → Type 0) (xs : List A) (i : ℕ)
    → i < length xs
    → All P xs
    → (x : A) × (get_elem? xs i ≡ some x) × P x
get_elem?-All P [] i below all = absurd (omega (arith, below))
get_elem?-All P (x ∷ xs) zero below (p, all) = (x, refl, p)
get_elem?-All P (x ∷ xs) (suc i) below (p, all) = get_elem?-All P xs i (omega (arith, below)) all

line_at-IsLong :
    (border : Text) (h i w : ℕ) (ws : List ℕ) (bs : List (List Text))
    → i < h
    → AreBlocks h (w ∷ ws) bs
    → (l : Text) × (line_at border i bs ≡ some l)
      × IsLong (w + sum ws + length border * length ws) l
unfolding line_at
line_at-IsLong border h i w ws [] below all = absurd all
line_at-IsLong border h i w [] (b ∷ []) below (long, height, all) =
    let (l, found, same) = get_elem?-All (IsLong w) b i (omega (arith, below, height)) long in
    (l, found, same ∙ grind arith)
line_at-IsLong border h i w [] (b ∷ b' ∷ bs) below (long, height, all) = absurd all
line_at-IsLong border h i w (v ∷ ws) (b ∷ []) below (long, height, all) = absurd all
line_at-IsLong border h i w (v ∷ ws) (b ∷ b' ∷ bs) below (long, height, all) =
    let (l, found, same) = get_elem?-All (IsLong w) b i (omega (arith, below, height)) long in
    let (rest, found', same') = line_at-IsLong border h i v ws (b' ∷ bs) below all in
    (
      l ++ (border ++ rest),
      ground (arith, found, found'),
      length-append l (border ++ rest)
          ∙ (ap (λ k. length l + k) (length-append border rest) ∙ grind (arith, same, same')),
    )

lines_from-IsLong :
    (border : Text) (h w : ℕ) (ws : List ℕ) (bs : List (List Text))
    → AreBlocks h (w ∷ ws) bs
    → (i n : ℕ) → i + n ≤ h
    → (ls : List Text) × (lines_from border i n bs ≡ some ls)
      × All (IsLong (w + sum ws + length border * length ws)) ls
unfolding lines_from
lines_from-IsLong border h w ws bs all i zero below = ([], refl, tt)
lines_from-IsLong border h w ws bs all i (suc n) below =
    let (l, found, same) = line_at-IsLong border h i w ws bs (omega (arith, below)) all in
    let (ls, done, long) =
      lines_from-IsLong border h w ws bs all (i + 1) n (omega (arith, below)) in
    (l ∷ ls, ground (arith, found, done), (same, long))

border_of-IsLong : (ts : TableStyle) → IsLong (border_width ts) (border_of ts)
border_of-IsLong ts = elim (Bool-cases ts.vertical_borders) [
  | inl on ↦ rw on (
      length-append (blanks ts.padding) (124 ∷ blanks ts.padding)
      ∙ omega (arith, length-blanks ts.padding))
  | inr off ↦ rw off (length-blanks ts.padding)
]

AreRoomy-length : (cells : List Cell) (ws : List ℕ) → AreRoomy cells ws → length cells ≡ length ws
AreRoomy-length [] [] room = refl
AreRoomy-length [] (w ∷ ws) room = absurd room
AreRoomy-length (c ∷ cells) [] room = absurd room
AreRoomy-length (c ∷ cells) (w ∷ ws) (here, there) = ap suc (AreRoomy-length cells ws there)

-- A row whose cells have room in their columns is printed, and its lines are as long as the columns and
-- the borders between them.
pub render_columns-IsLong :
    (cells : List Cell) (style : Text) (w : ℕ) (ws : List ℕ) (ts : TableStyle)
    → ts.enable_text_styling ≡ false
    → AreRoomy cells (w ∷ ws)
    → (ls : List Text) × (render_columns cells style (w ∷ ws) ts ≡ some ls)
      × All (IsLong (w + sum ws + border_width ts * length ws)) ls
unfolding render_columns
render_columns-IsLong cells style w ws ts plain room =
    let (bs, done, long) = render_cells-AreLong cells (w ∷ ws) style ts plain room in
    let h = max_height 0 bs in
    let blocks = pad_all-AreBlocks h (w ∷ ws) bs long (max_height-bounds 0 bs) in
    let (ls, done', all) =
      lines_from-IsLong (border_of ts) h w ws (pad_all h (w ∷ ws) bs) blocks 0 h (omega arith) in
    let even : length cells == suc (length ws) ≡ true =
      (==_iff (length cells) (suc (length ws))).1 (AreRoomy-length cells (w ∷ ws) room) in
    (
      ls,
      rw (even, done) done',
      subst (λ k. All (IsLong (w + sum ws + k * length ws)) ls) (border_of-IsLong ts) all,
    )
