-- ===== src/Gleak/Creators.antt =====
-- What findCreator finds in a backtrace.
use mathlib.Core.List.{append_assoc}
use gomega.Base.{
  ◌+◌, ◌≡◌, sym, ap, ◌∙◌, true, none, some, [], ◌∷◌, ◌++◌, length, length-append, take, drop,
}
use gomega.Gleak.{created_by, offset, read_creator, find_creator}
use gomega.Gleak.Strings.{Bytes, last_index, trim_space, split_n}
use gomega.Gleak.Trims.{
  is_without, is_tight, take-length, drop-length, split_n-append, last_index-append,
  trim_space-indented,
}

-- The line of the location, and the text from the creator on.
abbrev pub location_line : Bytes → Bytes → Bytes
location_line location hex = (9 ∷ location) ++ (offset ++ hex)

abbrev pub creation : Bytes → Bytes → Bytes → Bytes → Bytes
creation creator location hex more = creator ++ 10 ∷ (location_line location hex ++ 10 ∷ more)

created_by_rest : Bytes
created_by_rest = drop 1 created_by

drop-created_by :
    (before text : Bytes)
    → drop (length before + length created_by) (before ++ (created_by ++ text)) ≡ text
drop-created_by before text =
    ap (drop (length before + length created_by)) (sym (append_assoc before created_by text))
    ∙ (ap (λ k. drop k ((before ++ created_by) ++ text)) (sym (length-append before created_by))
        ∙ drop-length (before ++ created_by) text)

read_creator-location_line :
    (creator location hex more : Bytes)
    → is_tight location ≡ true
    → last_index offset (drop 1 offset ++ hex) ≡ none
    → read_creator (creator ∷ location_line location hex ∷ more ∷ []) ≡ (creator, location)
read_creator-location_line creator location hex more tight last =
    let found : last_index offset (location_line location hex) ≡ some (length (9 ∷ location)) =
      last_index-append 32 (drop 1 offset) (9 ∷ location) hex last in
    let name = take-length (9 ∷ location) (offset ++ hex) in
    ap
      (λ o. elim o as (λ _. Bytes × Bytes) [
        | none ↦ ([], [])
        | some at ↦ (creator, trim_space (take at (location_line location hex)))
      ])
      found
    ∙ ap (λ l. (creator, l)) (ap trim_space name ∙ trim_space-indented location tight)

-- In a backtrace whose last "created by " is followed by a creator, a newline, a tab, a location, " +0x"
-- and the rest of that line, findCreator finds the creator and the location, where there is no newline in
-- either, no other " +0x" in the line's rest, and no white space around the location.
pub find_creator-creation :
    (before creator location hex more : Bytes)
    → is_without 10 creator ≡ true
    → is_without 10 (location_line location hex) ≡ true
    → is_tight location ≡ true
    → last_index created_by (drop 1 created_by ++ creation creator location hex more) ≡ none
    → last_index offset (drop 1 offset ++ hex) ≡ none
    → find_creator (before ++ (created_by ++ creation creator location hex more))
      ≡ (creator, location)
unfolding find_creator
find_creator-creation before creator location hex more one_line one_line' tight last last' =
    let text = creation creator location hex more in
    let backtrace = before ++ (created_by ++ text) in
    let found : last_index created_by backtrace ≡ some (length before) =
      last_index-append 99 (drop 1 created_by) before text last in
    let parts : split_n 3 10 text ≡ creator ∷ location_line location hex ∷ more ∷ [] =
      split_n-append 1 10 creator (location_line location hex ++ 10 ∷ more) one_line
      ∙ ap (λ ls. creator ∷ ls) (split_n-append 0 10 (location_line location hex) more one_line') in
    ap
      (λ o. elim o as (λ _. Bytes × Bytes) [
        | none ↦ ([], [])
        | some pos ↦ read_creator (split_n 3 10 (drop (pos + length created_by) backtrace))
      ])
      found
    ∙ (ap (λ t. read_creator (split_n 3 10 t)) (drop-created_by before text)
        ∙ (ap read_creator parts
            ∙ read_creator-location_line creator location hex more tight last'))
