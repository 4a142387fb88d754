-- ===== src/Table/Spans.antt =====
-- Rows of one cell, and the lines under rows.
use mathlib.Core.Path.{subst}
use gomega.Base.{
  ℕ, zero, suc, ◌≡◌, ◌≤◌, inl, inr, refl, ap, ◌∙◌, false, leb, some, List, [], ◌∷◌, ◌++◌, length,
  length-append, arith, Bool-cases, Option-cases, All,
}
use gomega.Base.Int.{pos}
use gomega.Table.{
  Text, Cell, AlignType, TableStyle, split, fill_lines, place_word, add_word, add_words,
  split_to_width, split_all, align_all, render_cell,
}
use gomega.Table.Words.{IsLong}
use gomega.Table.Cells.{IsRoomy, render_cell-IsLong}
use gomega.Table.Rows.{repeat_text, joined_lines, render_one}

-- A text of at least one line.
abbrev pub NonEmpty : List Text → Type 0
NonEmpty ls = 1 ≤ length ls

add_words-NonEmpty :
    (width : ℕ) (out : List Text) (n : ℕ) (words ls : List Text)
    → add_words width out n words ≡ some ls
    → NonEmpty ls
unfolding add_words
add_words-NonEmpty width out n [] ls done = ground (arith, done)
add_words-NonEmpty width out n (word ∷ words) ls done =
    elim (Option-cases (add_word width out n word)) [
      | inl stuck ↦ absurd (ground (arith, done, stuck))
      | inr (r, added) ↦ elim (Option-cases (add_words width r.1 r.2 words)) [
        | inl stuck ↦ absurd (ground (arith, done, added, stuck))
        | inr (rest, done') ↦
            let more = add_words-NonEmpty width r.1 r.2 words rest done' in
            let whole : r.0 ++ rest ≡ ls = ground (arith, done, added, done') in
            subst NonEmpty whole (omega (arith, more, length-append r.0 rest))
      ]
    ]

fill_lines-NonEmpty :
    (width : ℕ) (words ls : List Text) → fill_lines width words ≡ some ls → NonEmpty ls
fill_lines-NonEmpty width [] ls done = absurd (cc)
fill_lines-NonEmpty width (word ∷ words) ls done = elim (Option-cases (place_word width word)) [
  | inl stuck ↦ absurd (ground (arith, done, stuck))
  | inr (r, placed) ↦ elim (Option-cases (add_words width (r.1 ∷ []) (length r.1) words)) [
    | inl stuck ↦ absurd (ground (arith, done, placed, stuck))
    | inr (rest, done') ↦
        let more = add_words-NonEmpty width (r.1 ∷ []) (length r.1) words rest done' in
        let whole : r.0 ++ rest ≡ ls = ground (arith, done, placed, done') in
        subst NonEmpty whole (omega (arith, more, length-append r.0 rest))
  ]
]

split_to_width-NonEmpty :
    (line : Text) (width : ℕ) (ls : List Text) → split_to_width line width ≡ some ls → NonEmpty ls
unfolding split_to_width
split_to_width-NonEmpty line width ls done = elim (Bool-cases (leb (length line) width)) [
  | inl short ↦ ground (arith, done, short)
  | inr long ↦ fill_lines-NonEmpty width (split 32 line) ls (ground (arith, done, long))
]

split_all-NonEmpty :
    (lines : List Text) (width : ℕ) (ls : List Text)
    → NonEmpty lines
    → split_all lines width ≡ some ls
    → NonEmpty ls
unfolding split_all
split_all-NonEmpty [] width ls full done = absurd (omega (arith, full))
split_all-NonEmpty (l ∷ lines) width ls full done = elim (Option-cases (split_to_width l width)) [
  | inl stuck ↦ absurd (ground (arith, done, stuck))
  | inr (r, done') ↦ elim (Option-cases (split_all lines width)) [
    | inl stuck ↦ absurd (ground (arith, done, done', stuck))
    | inr (rest, done'') ↦
        let more = split_to_width-NonEmpty l width r done' in
        let whole : r ++ rest ≡ ls = ground (arith, done, done', done'') in
        subst NonEmpty whole (omega (arith, more, length-append r rest))
  ]
]

align_all-length :
    (a : AlignType) (width : ℕ) (ls : List Text) → length (align_all a width ls) ≡ length ls
unfolding align_all
align_all-length a width [] = refl
align_all-length a width (l ∷ ls) = ap suc (align_all-length a width ls)

render_cell-NonEmpty :
    (c : Cell) (width : ℕ) (style : Text) (ts : TableStyle) (ls : List Text)
    → ts.enable_text_styling ≡ false
    → NonEmpty c.contents
    → render_cell c width style ts ≡ some ls
    → NonEmpty ls
unfolding render_cell
render_cell-NonEmpty c width style ts ls plain full done =
    elim (Option-cases (split_all c.contents width)) [
      | inl stuck ↦ absurd (ground (arith, done, stuck))
      | inr (r, done') ↦
          let more = split_all-NonEmpty c.contents width r full done' in
          let whole : align_all c.align width r ≡ ls = ground (arith, done, done', plain) in
          subst NonEmpty whole (omega (arith, more, align_all-length c.align width r))
    ]

-- A row of one cell is printed over all columns.
pub render_one-IsLong :
    (c : Cell) (style : Text) (total : ℕ) (ts : TableStyle)
    → ts.enable_text_styling ≡ false
    → NonEmpty c.contents
    → IsRoomy total c
    → (ls : List Text) × (render_one c style (pos total) ts ≡ some ls) × All (IsLong total) ls
unfolding render_one
render_one-IsLong c style total ts plain full room =
    let (ls, done, long) = render_cell-IsLong c total style ts plain room in
    let more = render_cell-NonEmpty c total style ts ls plain full done in
    (ls, ground (arith, done) ∙ ap some (joined ls more), long)
  where
    joined : (ls : List Text) → NonEmpty ls → joined_lines ls ≡ ls
    joined [] more = absurd (omega (arith, more))
    joined (l ∷ ls) more = refl

pub IsRoomy-wider : (w total : ℕ) (c : Cell) → w ≤ total → IsRoomy w c → IsRoomy total c
IsRoomy-wider w total c below (inl wide) = inl (omega (arith, below, wide))
IsRoomy-wider w total c below (inr small) = inr (omega (arith, below, small))

pub repeat_text-IsLong : (n : ℕ) (d : Text) → length d ≡ 1 → IsLong n (repeat_text n d)
repeat_text-IsLong zero d one = refl
repeat_text-IsLong (suc n) d one =
    length-append d (repeat_text n d) ∙ omega (arith, one, repeat_text-IsLong n d one)
