-- ===== src/Table.antt =====
-- gmeasure/table/table.go: cells. A text is the list of its runes; where a text is printed line by line
-- it is the list of its lines, each of which has a newline after it. `none` is a panic.
pub mod Rows
pub mod Widths
pub mod Words
pub mod Cells
pub mod Columns
pub mod Blocks
pub mod Spans
pub mod Pieces
pub mod Rectangle
mod Examples
use gomega.Base.{
  ℕ, zero, suc, ◌+◌, ◌-◌, Bool, true, false, ◌==◌, ltb, leb, Option, none, some, List, [], ◌∷◌,
  ◌++◌, if◌then◌else◌, length, replicate,
}
use Prim.Native.Nat.{◌/◌}

abbrev pub Text : Type 0
Text = List ℕ

pub data AlignType : Type 0 where
  left center right : AlignType

pub record Cell : Type 0 where
  pub contents : List Text
  pub style : Text
  pub align : AlignType

pub record TableStyle : Type 0 where
  pub padding : ℕ
  pub vertical_borders : Bool
  pub horizontal_borders : Bool
  pub max_table_width : ℕ
  pub max_col_width : ℕ
  pub enable_text_styling : Bool

infixl 10 ◌>>=◌
abbrev pub ◌>>=◌ : {A B : Type 0} → Option A → (A → Option B) → Option B
none >>= f = none
some a >>= f = f a

abbrev pub add_first : ℕ → List Text → List Text
add_first c [] = (c ∷ []) ∷ []
add_first c (w ∷ ws) = (c ∷ w) ∷ ws

-- Split.
abbrev pub split : ℕ → Text → List Text
split sep [] = [] ∷ []
split sep (c ∷ s) = let rest = split sep s in if c == sep then [] ∷ rest else add_first c rest

-- Join with blanks.
abbrev pub join : List Text → Text
join [] = []
join (w ∷ []) = w
join (w ∷ v ∷ ws) = w ++ (32 ∷ join (v ∷ ws))

-- An argument of C, by its type.
pub data CellArg : Type 0 where
  style_arg : Text → CellArg
  align_arg : AlignType → CellArg
  other_arg : CellArg

abbrev take_cell_args : Cell → List CellArg → Cell
take_cell_args c [] = c
take_cell_args c (style_arg s ∷ args) = take_cell_args (record c { style = s }) args
take_cell_args c (align_arg a ∷ args) = take_cell_args (record c { align = a }) args
take_cell_args c (other_arg ∷ args) = take_cell_args c args

-- C.
unfoldable pub new_cell : Text → List CellArg → Cell
new_cell contents args =
    take_cell_args (record { contents = split 10 contents; style = []; align = left }) args

-- The longest of some texts and a length.
abbrev pub longest : ℕ → List Text → ℕ
longest n [] = n
longest n (w ∷ ws) = longest (if ltb n (length w) then length w else n) ws

abbrev pub longest_word : ℕ → List Text → ℕ
longest_word n [] = n
longest_word n (l ∷ ls) = longest_word (longest n (split 32 l)) ls

-- Width.
unfoldable pub cell_width : Cell → ℕ × ℕ
cell_width c = (longest 0 c.contents, longest_word 0 c.contents)

abbrev pub blanks : ℕ → Text
blanks n = replicate n 32

abbrev filled : AlignType → Text → ℕ → Text
filled left line gap = line ++ blanks gap
filled right line gap = blanks gap ++ line
filled center line gap = blanks (gap / 2) ++ (line ++ blanks (gap - gap / 2))

unfoldable pub align_line : AlignType → Text → ℕ → Text
align_line a line width =
    if length line == width
    then line
    else if ltb (length line) width
    then filled a line (width - length line)
    else line

-- splitWordToWidth from a rune on.
abbrev pub split_word : ℕ → ℕ → Text → Text → List Text
split_word width n sub [] = []
split_word width n sub (c ∷ s) =
    let cut = suc n == width - 1 in
    let rest = split_word width (if cut then 0 else suc n) (if cut then [] else sub ++ c ∷ []) s in
    if cut then ((sub ++ c ∷ []) ++ 45 ∷ []) ∷ rest else rest

-- All but the last of some texts, and the last.
abbrev pub split_last : List Text → Option (List Text × Text)
split_last [] = none
split_last (w ∷ ws) = elim (split_last ws) [ none ↦ some ([], w) | some r ↦ some (w ∷ r.0, r.1) ]

-- The whole lines that a word at the start of a line gives, and what the next line starts with.
unfoldable pub place_word : ℕ → Text → Option (List Text × Text)
place_word width word =
    if ltb width (length word) then split_last (split_word width 0 [] word) else some ([], word)

-- The lines that a further word ends, and the words and the length of the line after it.
unfoldable pub add_word : ℕ → List Text → ℕ → Text → Option (List Text × List Text × ℕ)
unfolding place_word
add_word width out n word =
    if leb (n + length word + 1) width
    then some ([], out ++ word ∷ [], n + (length word + 1))
    else do
      placed ← place_word width word
      some (join out ∷ placed.0, placed.1 ∷ [], length placed.1)

unfoldable pub add_words : ℕ → List Text → ℕ → List Text → Option (List Text)
unfolding add_word
add_words width out n [] = some (join out ∷ [])
add_words width out n (word ∷ words) = do
  r ← add_word width out n word
  rest ← add_words width r.1 r.2 words
  some (r.0 ++ rest)

abbrev fill_lines : ℕ → List Text → Option (List Text)
fill_lines width [] = none
fill_lines width (word ∷ words) = do
  placed ← place_word width word
  rest ← add_words width (placed.1 ∷ []) (length placed.1) words
  some (placed.0 ++ rest)

-- splitToWidth.
unfoldable pub split_to_width : Text → ℕ → Option (List Text)
unfolding add_words place_word
split_to_width line width =
    if leb (length line) width then some (line ∷ []) else fill_lines width (split 32 line)

unfoldable pub split_all : List Text → ℕ → Option (List Text)
unfolding split_to_width
split_all [] width = some []
split_all (l ∷ ls) width = do
  lines ← split_to_width l width
  rest ← split_all ls width
  some (lines ++ rest)

unfoldable pub align_all : AlignType → ℕ → List Text → List Text
unfolding align_line
align_all a width [] = []
align_all a width (l ∷ ls) = align_line a l width ∷ align_all a width ls

-- "{{/}}".
abbrev style_all : Text → List Text → List Text
style_all style [] = []
style_all style (l ∷ ls) = (style ++ (l ++ 123 ∷ 123 ∷ 47 ∷ 125 ∷ 125 ∷ [])) ∷ style_all style ls

abbrev pub styled : Bool → Text → List Text → List Text
styled false style lines = lines
styled true [] lines = lines
styled true (c ∷ style) lines = style_all (c ∷ style) lines

-- Cell.render.
unfoldable pub render_cell : Cell → ℕ → Text → TableStyle → Option (List Text)
unfolding split_all align_all
render_cell c width style ts = do
  lines ← split_all c.contents width
  some (styled ts.enable_text_styling (style ++ c.style) (align_all c.align width lines))
