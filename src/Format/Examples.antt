-- ===== src/Format/Examples.antt =====
-- Diffs, formatters and values on concrete inputs.
use gomega.Base.{
  ℕ, ◌≡◌, refl, ◌≤◌, ◌<◌, true, false, ltb, Option, some, none, List, [], ◌∷◌, ◌++◌, arith, length,
}
use gomega.Format.{
  Text, DiffConfig, Message, ellipsis, mismatch_from, find_first_mismatch, truncate_and_format,
  message_with_diff,
}
use gomega.Format.Mismatch.{singles, length-singles}
use gomega.Format.Diffs.{message_with_diff-shown, message_with_diff-some}
use gomega.Format.Formatters.{no_formatters, register, unregister, registers, unregisters, calls}
use gomega.Format.Lifetimes.{formatter_of, formatter_of-calls}
use gomega.Format.Texts.{Rune, truncate_help_text, truncate_long_strings}
use gomega.Format.Cuts.{truncate_long_strings-cut}
use gomega.Format.Values.{
  Settings, Value, value, scalar, slice_value, pointer, no_values, one_value, format_value,
}
use gomega.Format.Depth.{cut, format_value-cut}

abbrev narrow : ℕ → DiffConfig
narrow around = record { truncated_diff = true; truncate_threshold = 3; characters_around = around }

-- "abcd" against "abxd" with a byte on each side.
message_with_diff-shown_example :
    message_with_diff
      (narrow 1)
      singles
      (λ s. s)
      (97 ∷ 98 ∷ 99 ∷ 100 ∷ [])
      (116 ∷ 111 ∷ [])
      (97 ∷ 98 ∷ 120 ∷ 100 ∷ [])
    ≡ some (record {
      actual = 34 ∷ 46 ∷ 46 ∷ 46 ∷ 98 ∷ 99 ∷ 100 ∷ 46 ∷ 46 ∷ 46 ∷ 34 ∷ [];
      message =
          116 ∷ 111 ∷ 32 ∷ 32 ∷ 32 ∷ 32 ∷ 32 ∷ 32 ∷ 32 ∷ 32 ∷ 32 ∷ 32 ∷ 32 ∷ 32 ∷ 32 ∷ 32 ∷ 32 ∷ 32
          ∷ 32 ∷ 124 ∷ [];
      expected = 34 ∷ 46 ∷ 46 ∷ 46 ∷ 98 ∷ 120 ∷ 100 ∷ 46 ∷ 46 ∷ 46 ∷ 34 ∷ [];
    })
message_with_diff-shown_example =
    message_with_diff-shown singles (λ s ascii. refl) (97 ∷ 98 ∷ []) 99 120 (100 ∷ []) (100 ∷ [])
      (omega arith, (omega arith, (omega arith, (omega arith, tt))))
      (omega arith, (omega arith, (omega arith, (omega arith, tt)))) (λ same. omega (arith, same))
      (narrow 1) (λ s. s) (116 ∷ 111 ∷ []) refl (omega arith) (omega arith) (omega arith)

message_with_diff-some_example :
    (m : Message) × (message_with_diff
        (narrow 1)
        singles
        (λ s. s)
        (97 ∷ 98 ∷ 99 ∷ [])
        []
        (97 ∷ 98 ∷ 99 ∷ 100 ∷ [])
      ≡ some m)
message_with_diff-some_example =
    message_with_diff-some (narrow 1) singles (λ s. s) (97 ∷ 98 ∷ 99 ∷ []) []
      (97 ∷ 98 ∷ 99 ∷ 100 ∷ []) length-singles (omega arith)

-- With no bytes around it, a text that another one begins with has a slice out of range.
slice_out_of_range :
    message_with_diff (narrow 0) singles (λ s. s) (97 ∷ 98 ∷ 99 ∷ []) [] (97 ∷ 98 ∷ 99 ∷ 100 ∷ [])
    ≡ none
unfolding message_with_diff find_first_mismatch mismatch_from truncate_and_format
slice_out_of_range = refl

abbrev formatter : ℕ → Option Text
formatter n = some (n ∷ [])

formatter_of-calls_example :
    (formatter_of
        (register formatter no_formatters).0
        (calls
          (registers formatter ∷ unregisters 7 ∷ [])
          (register formatter no_formatters).1).formatters
      ≡ some formatter)
    × (formatter_of
          (register formatter no_formatters).0
          (calls (registers formatter ∷ []) (
            unregister (register formatter no_formatters).0 (
              calls
                (registers formatter ∷ unregisters 7 ∷ [])
                (register formatter no_formatters).1))).formatters
        ≡ none)
unfolding register
formatter_of-calls_example =
    formatter_of-calls formatter [] (registers formatter ∷ unregisters 7 ∷ [])
      (registers formatter ∷ []) (tt, ((λ same. omega (arith, same)), tt))

abbrev ascii : Text → List Rune
ascii [] = []
ascii (b ∷ s) = record { code = b; size = 1; written = b ∷ [] } ∷ ascii s

truncate_long_strings-cut_example :
    (kept rest : Text) × ((97 ∷ 98 ∷ 99 ∷ []) ≡ kept ++ rest)
    × (truncate_long_strings 2 ascii (97 ∷ 98 ∷ 99 ∷ [])
        ≡ kept ++ (ellipsis ++ (10 ∷ truncate_help_text)))
    × (2 ≤ length kept)
    × (length kept < 6)
truncate_long_strings-cut_example =
    truncate_long_strings-cut 2 ascii (97 ∷ 98 ∷ 99 ∷ []) refl
      (
        (refl, omega arith, omega arith),
        ((refl, omega arith, omega arith), ((refl, omega arith, omega arith), tt)),
      )
      (omega arith) (omega arith)

abbrev shallow : Settings ℕ
shallow = record {
  max_depth = 1;
  max_length = 0;
  use_stringer_representation = false;
  print_context_objects = false;
  indent = 32 ∷ [];
  long_form_threshold = 20;
  custom_formatters = [];
  runes = ascii;
  quote = λ s. s;
  is_print = λ b. ltb 31 b;
}

abbrev plain : Value ℕ
plain = value none false (scalar (49 ∷ []))

-- A pointer to a slice of a slice.
abbrev nested : Value ℕ
nested = value none false (
    pointer (
      value none false (
        slice_value none
          (one_value (value none false (slice_value none (one_value plain no_values))) no_values))))

format_value-cut_example : format_value shallow nested 1 ≡ format_value shallow (cut 1 nested) 1
format_value-cut_example = format_value-cut shallow nested 1
