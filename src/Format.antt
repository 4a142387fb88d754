-- ===== src/Format.antt =====
-- format/format.go: the diff of texts and the custom formatters. A string is the list of its bytes; `none`
-- is a panic. What fmt and the object printer make of a text is an argument, as is strings.Split at "".
pub mod Equality
pub mod Mismatch
pub mod Windows
pub mod Diffs
pub mod Formatters
pub mod Lifetimes
pub mod Texts
pub mod Cuts
pub mod Values
pub mod Depth
mod Examples
use gomega.Base.{
  ℕ, zero, suc, ◌+◌, ◌-◌, ◌≡◌, ◌≤◌, Bool, true, false, ◌&&◌, ◌==◌, ltb, leb, Option, none, some,
  List, [], ◌∷◌, ◌++◌, if◌then◌else◌, length, take, drop, replicate,
}

abbrev pub Text : Type 0
Text = List ℕ

abbrev pub equal_text : Text → Text → Bool
equal_text [] [] = true
equal_text [] (c ∷ t) = false
equal_text (b ∷ s) [] = false
equal_text (b ∷ s) (c ∷ t) = b == c && equal_text s t

-- The loop of findFirstMismatch; `at_end` is what is returned after it.
unfoldable pub mismatch_from : ℕ → List Text → List Text → ℕ → ℕ
mismatch_from i [] ys at_end = at_end
mismatch_from i (a ∷ xs) [] at_end = i
mismatch_from i (a ∷ xs) (b ∷ ys) at_end =
    let rest = mismatch_from (suc i) xs ys at_end in if equal_text a b then rest else i

-- findFirstMismatch, by the pieces that strings.Split at "" gives.
unfoldable pub find_first_mismatch : (Text → List Text) → Text → Text → ℕ
unfolding mismatch_from
find_first_mismatch explode a b =
    mismatch_from 0 (explode a) (explode b) (if ltb (length a) (length b) then length a + 1 else 0)

-- A slice of the bytes, none when the indices are out of order.
abbrev pub slice : Text → ℕ → ℕ → Option Text
slice s start end = if leb start end then some (take (end - start) (drop start s)) else none

abbrev pub ellipsis : Text
ellipsis = 46 ∷ 46 ∷ 46 ∷ []

abbrev pub window_start : ℕ → ℕ → ℕ
window_start around index = index - around

abbrev pub window_end : ℕ → ℕ → ℕ → ℕ
window_end around index len = let end = index + around + 1 in if ltb len end then len else end

abbrev pub left_padding : ℕ → ℕ → Text
left_padding around index = if ltb index around then [] else ellipsis

abbrev pub right_padding : ℕ → ℕ → ℕ → Text
right_padding around index len = if ltb len (index + around + 1) then [] else ellipsis

abbrev pub quoted : Text → Text
quoted s = 34 ∷ (s ++ 34 ∷ [])

abbrev pub windowed : Text → Text → Option Text → Option Text
windowed left right none = none
windowed left right (some s) = some (quoted (left ++ (s ++ right)))

-- truncateAndFormat.
unfoldable pub truncate_and_format : ℕ → Text → ℕ → Option Text
truncate_and_format around str index =
    windowed (left_padding around index) (right_padding around index (length str))
      (slice str (window_start around index) (window_end around index (length str)))

-- The variables of the package that a diff reads.
pub record DiffConfig : Type 0 where
  pub truncated_diff : Bool
  pub truncate_threshold : ℕ
  pub characters_around : ℕ

-- What Message is called with.
pub record Message : Type 0 where
  pub actual : Text
  pub message : Text
  pub expected : Text

-- The message, with a bar under the mismatch if there is room for it: the printed texts have 14 bytes
-- before them.
unfoldable pub with_padding : (Text → List Text) → Text → Text → Text → Message
with_padding explode formatted_actual message formatted_expected =
    let column = 14 + find_first_mismatch explode formatted_actual formatted_expected in
    if ltb column (length message)
    then record { actual = formatted_actual; message = message; expected = formatted_expected }
    else record {
      actual = formatted_actual;
      message = message ++ (replicate (column - length message) 32 ++ 124 ∷ []);
      expected = formatted_expected;
    }

abbrev pub both_formatted : (Text → List Text) → Text → Option Text → Option Text → Option Message
both_formatted explode message (some a) (some e) = some (with_padding explode a message e)
both_formatted explode message (some a) none = none
both_formatted explode message none e = none

-- MessageWithDiff, with strings.Split at "" and escapedWithGoSyntax.
unfoldable pub message_with_diff :
    DiffConfig → (Text → List Text) → (Text → Text) → Text → Text → Text → Option Message
unfolding find_first_mismatch truncate_and_format with_padding
message_with_diff c explode escape actual message expected =
    if c.truncated_diff
      && leb c.truncate_threshold (length actual)
      && leb c.truncate_threshold (length expected)
    then (let diff_point = find_first_mismatch explode actual expected in
        both_formatted explode message (truncate_and_format c.characters_around actual diff_point)
          (truncate_and_format c.characters_around expected diff_point))
    else some (record { actual = escape actual; message = message; expected = escape expected })
