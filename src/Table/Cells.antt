-- ===== src/Table/Cells.antt =====
-- How long the lines of a rendered cell are.
use gomega.Base.{
  ℕ, zero, suc, ◌+◌, ◌-◌, ◌≡◌, ◌≤◌, ◌⊎◌, inl, inr, refl, ap, ◌∙◌, true, false, ◌==◌, ltb, some,
  List, [], ◌∷◌, ◌++◌, if◌then◌else◌, length, length-append, arith, Bool-cases, All, All-weaken,
}
use Prim.Native.Nat.{◌/◌}
use gomega.Table.{
  Text, Cell, AlignType, left, center, right, TableStyle, split, longest, longest_word, cell_width,
  blanks, filled, align_line, align_all, render_cell,
}
use gomega.Table.Words.{IsLong, Fits, HasRoom, split_all-Fits}

pub longest-grows : (n : ℕ) (ws : List Text) → n ≤ longest n ws
longest-grows n [] = omega arith
longest-grows n (w ∷ ws) =
    let m = if ltb n (length w) then length w else n in
    let larger : n ≤ m = ground arith in omega (arith, larger, longest-grows m ws)

longest_word-grows : (n : ℕ) (ls : List Text) → n ≤ longest_word n ls
longest_word-grows n [] = omega arith
longest_word-grows n (l ∷ ls) =
    omega (arith, longest-grows n (split 32 l), longest_word-grows (longest n (split 32 l)) ls)

longest-Fits : (n : ℕ) (ws : List Text) → All (Fits (longest n ws)) ws
longest-Fits n [] = tt
longest-Fits n (w ∷ ws) =
    let m = if ltb n (length w) then length w else n in
    let larger : length w ≤ m = ground arith in
    (omega (arith, larger, longest-grows m ws), longest-Fits m ws)

longest_word-Fits :
    (n : ℕ) (ls : List Text) → All (λ l. All (Fits (longest_word n ls)) (split 32 l)) ls
longest_word-Fits n [] = tt
longest_word-Fits n (l ∷ ls) =
    let m = longest n (split 32 l) in
    let above = longest_word-grows m ls in
    (
      All-weaken (Fits m) (Fits (longest_word m ls)) (split 32 l)
          (λ w fits. omega (arith, fits, above)) (longest-Fits n (split 32 l)),
      longest_word-Fits m ls,
    )

-- A cell of which the width takes the words, or can take their parts.
abbrev pub IsRoomy : ℕ → Cell → Type 0
IsRoomy width c = (2 ≤ width) ⊎ ((cell_width c).1 ≤ width)

IsRoomy-HasRoom :
    (width : ℕ) (c : Cell)
    → IsRoomy width c
    → All (λ l. All (HasRoom width) (split 32 l)) c.contents
unfolding cell_width
IsRoomy-HasRoom width c room =
    let least = longest_word 0 c.contents in
    All-weaken (λ l. All (Fits least) (split 32 l)) (λ l. All (HasRoom width) (split 32 l))
      c.contents
      (λ l all.
        All-weaken (Fits least) (HasRoom width) (split 32 l)
          (λ w fits. elim room [
            | inl wide ↦ inl wide
            | inr small ↦ inr (omega (arith, fits, small))
          ])
          all)
      (longest_word-Fits 0 c.contents)

pub length-blanks : (n : ℕ) → length (blanks n) ≡ n
length-blanks zero = refl
length-blanks (suc n) = ap suc (length-blanks n)

align_line-IsLong :
    (a : AlignType) (l : Text) (width : ℕ) → Fits width l → IsLong width (align_line a l width)
unfolding align_line
align_line-IsLong a l width fits = elim (Bool-cases (length l == width)) [
  | inl hit ↦ rw hit (ground (arith, hit))
  | inr miss ↦
      let gap : length l + (width - length l) ≡ width = omega (arith, fits) in
      let short : ltb (length l) width ≡ true = ground (arith, fits, miss) in
      rw (miss, short) (filled-IsLong a l (width - length l) ∙ gap)
]
  where
    filled-IsLong : (a : AlignType) (l : Text) (gap : ℕ) → length (filled a l gap) ≡ length l + gap
    filled-IsLong left l gap =
        length-append l (blanks gap) ∙ ap (λ k. length l + k) (length-blanks gap)
    filled-IsLong right l gap = length-append (blanks gap) l ∙ omega (arith, length-blanks gap)
    filled-IsLong center l gap =
        length-append (blanks (gap / 2)) (l ++ blanks (gap - gap / 2))
        ∙ omega (
          arith,
          length-append l (blanks (gap - gap / 2)),
          length-blanks (gap / 2),
          length-blanks (gap - gap / 2),
        )

align_all-IsLong :
    (a : AlignType) (width : ℕ) (ls : List Text)
    → All (Fits width) ls
    → All (IsLong width) (align_all a width ls)
unfolding align_all
align_all-IsLong a width [] fits = tt
align_all-IsLong a width (l ∷ ls) (fit, fits) =
    (align_line-IsLong a l width fit, align_all-IsLong a width ls fits)

-- Without styling, a cell that has room is rendered, and its lines are all of the width.
pub render_cell-IsLong :
    (c : Cell) (width : ℕ) (style : Text) (ts : TableStyle)
    → ts.enable_text_styling ≡ false
    → IsRoomy width c
    → (ls : List Text) × (render_cell c width style ts ≡ some ls) × All (IsLong width) ls
unfolding render_cell align_all
render_cell-IsLong c width style ts plain room =
    let (ls, done, fits) = split_all-Fits c.contents width (IsRoomy-HasRoom width c room) in
    (
      align_all c.align width ls,
      ground (arith, done, plain),
      align_all-IsLong c.align width ls fits,
    )
