-- ===== src/Gleak/Dumps.antt =====
-- Stack dumps as the runtime prints them, and what parseStack reads from them.
use mathlib.Core.List.{append-nil, append_assoc}
use gomega.Base.{
  ℕ, suc, ◌-◌, ◌≡◌, refl, sym, ap, ◌∙◌, Bool, true, false, not, ◌&&◌, ◌==◌, ltb, Option, none, some,
  List, [], ◌∷◌, ◌++◌, map, if◌then◌else◌, is_none, length, take, arith,
}
use gomega.Gleak.{
  goroutine_with, with_id, Goroutine, split_lines, header, new_goroutine, find_creator, read_fields,
  function_name, top_of, parse_backtrace, strip, complete,
}
use gomega.Gleak.Strings.{Bytes, has_prefix, has_suffix, trim_suffix, last_index, split_n}
use gomega.Gleak.Trims.{
  both, take-append, is_without, is_tight, decimal, are_digits, digits_text, take-length,
  has_suffix-append, trim_suffix-append, split_n-append, last_index-append, trim_space-line,
  parse_from-digits_text, digits_text-IsWithout,
}

-- A goroutine in a dump: the digits of its id, its state, its top function with the arguments between
-- parentheses, and the other lines of its backtrace.
pub record Entry : Type 0 where
  pub first_digit : ℕ
  pub digits : List ℕ
  pub state : Bytes
  pub top : Bytes
  pub arguments : Bytes
  pub others : List Bytes

-- "goroutine".
abbrev pub title : Bytes
title = 103 ∷ 111 ∷ 114 ∷ 111 ∷ 117 ∷ 116 ∷ 105 ∷ 110 ∷ 101 ∷ []

abbrev pub head_text : Entry → Bytes
head_text e =
    title ++ (32 ∷ (digits_text (e.first_digit ∷ e.digits) ++ 32 ∷ (91 ∷ (e.state ++ 93 ∷ []))))

abbrev pub head_line : Entry → Bytes
head_line e = head_text e ++ 58 ∷ []

abbrev pub top_line : Entry → Bytes
top_line e = e.top ++ (40 ∷ (e.arguments ++ 41 ∷ []))

abbrev pub ended : Bytes → Bytes
ended l = l ++ 10 ∷ []

abbrev pub unlines : List Bytes → Bytes
unlines [] = []
unlines (l ∷ ls) = ended l ++ unlines ls

abbrev pub trace : Entry → List Bytes
trace e = top_line e ∷ e.others

-- The entries with an empty line between them.
abbrev pub dump_lines : List Entry → List Bytes
dump_lines [] = []
dump_lines (e ∷ []) = head_line e ∷ trace e
dump_lines (e ∷ f ∷ es) = (head_line e ∷ trace e) ++ [] ∷ dump_lines (f ∷ es)

abbrev pub print : List Entry → Bytes
print es = unlines (dump_lines es)

abbrev is_line : Bytes → Bool
is_line l = is_without 10 l && not (has_prefix header l)

abbrev pub is_full : Bytes → Bool
is_full [] = false
is_full (c ∷ s) = is_line (c ∷ s)

abbrev pub are_full : List Bytes → Bool
are_full [] = true
are_full (l ∷ ls) = is_full l && are_full ls

abbrev pub is_entry : Entry → Bool
is_entry e =
    are_digits (e.first_digit ∷ e.digits)
    && ltb (decimal 0 (e.first_digit ∷ e.digits)) 18446744073709551616
    && is_without 10 e.state
    && is_tight (top_line e)
    && is_tight e.top
    && is_none (last_index (40 ∷ []) (e.arguments ++ 41 ∷ []))
    && are_full (trace e)

abbrev pub Parts : Entry → Type 0
Parts e =
    (are_digits (e.first_digit ∷ e.digits) ≡ true)
    × (ltb (decimal 0 (e.first_digit ∷ e.digits)) 18446744073709551616 ≡ true)
    × (is_without 10 e.state ≡ true)
    × (is_tight (top_line e) ≡ true)
    × (is_tight e.top ≡ true)
    × (is_none (last_index (40 ∷ []) (e.arguments ++ 41 ∷ [])) ≡ true)
    × (are_full (trace e) ≡ true)

pub is_entry-Parts : (e : Entry) → is_entry e ≡ true → Parts e
is_entry-Parts e valid =
    let (v5, full) = both _ _ valid in
    let (v4, last) = both _ _ v5 in
    let (v3, top) = both _ _ v4 in
    let (v2, line) = both _ _ v3 in
    let (v1, state) = both _ _ v2 in
    let (digits, small) = both _ _ v1 in (digits, small, state, line, top, last, full)

abbrev pub are_entries : List Entry → Bool
are_entries [] = true
are_entries (e ∷ es) = is_entry e && are_entries es

abbrev pub goroutine_of : Entry → Goroutine
goroutine_of e = record {
  id = decimal 0 (e.first_digit ∷ e.digits);
  state = e.state;
  top_function = e.top;
  creator_function = (find_creator (unlines (trace e))).0;
  born_at = (find_creator (unlines (trace e))).1;
  backtrace = unlines (trace e);
}

pub split_lines-ended :
    (l s : Bytes)
    → is_without 10 l ≡ true
    → split_lines (ended l ++ s) ≡ (ended l ∷ (split_lines s).0, (split_lines s).1)
split_lines-ended [] s without = refl
split_lines-ended (c ∷ l) s without =
    let rest = split_lines-ended l s (ground (arith, without)) in ground (arith, rest, without)

is_none-none : {A : Type 0} (o : Option A) → is_none o ≡ true → o ≡ none
is_none-none none h = refl
is_none-none (some a) h = absurd (cc)

function_name-append :
    (top s : Bytes)
    → is_tight top ≡ true
    → is_none (last_index (40 ∷ []) s) ≡ true
    → function_name (top ++ 40 ∷ s) ≡ some top
function_name-append [] s tight last = absurd (cc)
function_name-append (c ∷ top) s tight last =
    let found : last_index (40 ∷ []) ((c ∷ top) ++ 40 ∷ s) ≡ some (suc (length top)) =
      last_index-append 40 [] (c ∷ top) s (is_none-none (last_index (40 ∷ []) s) last) in
    ground (arith, found, take-length top (40 ∷ s))

-- The header.
pub new_goroutine-head_line :
    (e : Entry)
    → is_entry e ≡ true
    → new_goroutine (ended (head_line e))
      ≡ some (goroutine_with e.state (decimal 0 (e.first_digit ∷ e.digits)))
unfolding new_goroutine
new_goroutine-head_line e valid =
    let text = digits_text (e.first_digit ∷ e.digits) in
    let last : Bytes = 91 ∷ e.state ++ 93 ∷ [] in
    let parts : split_n 3 32 (head_text e) ≡ title ∷ text ∷ last ∷ [] =
      split_n-append 1 32 title (text ++ 32 ∷ last) refl
      ∙ ap (λ fs. title ∷ fs)
          (split_n-append 0 32 text last (digits_text-IsWithout (e.first_digit ∷ e.digits))) in
    let number =
      parse_from-digits_text 0 (e.first_digit ∷ e.digits) (ground (arith, valid))
        (ground (arith, valid)) in
    ap (λ l. read_fields (split_n 3 32 (trim_suffix (58 ∷ 10 ∷ []) l)))
      (append_assoc (head_text e) (58 ∷ []) (10 ∷ []))
    ∙ (ap (λ l. read_fields (split_n 3 32 l)) (trim_suffix-append (58 ∷ 10 ∷ []) (head_text e))
        ∙ (ap read_fields parts
            ∙ (ap (with_id (trim_suffix (93 ∷ []) (e.state ++ 93 ∷ []))) number
                ∙ ap (λ st. some (goroutine_with st (decimal 0 (e.first_digit ∷ e.digits))))
                    (trim_suffix-append (93 ∷ []) e.state))))

-- The top line.
top_of-top_line : (e : Entry) → is_entry e ≡ true → top_of [] (ended (top_line e)) ≡ some e.top
unfolding top_of
top_of-top_line e valid =
    ap function_name (trim_space-line (top_line e) (ground (arith, valid)))
    ∙ function_name-append e.top (e.arguments ++ 41 ∷ []) (ground (arith, valid))
        (ground (arith, valid))

has_prefix-ended : (p l : Bytes) → is_without 10 p ≡ true → has_prefix p (ended l) ≡ has_prefix p l
has_prefix-ended [] l without = refl
has_prefix-ended (c ∷ p) [] without = ground (arith, without)
has_prefix-ended (c ∷ p) (d ∷ l) without =
    let rest = has_prefix-ended p l (ground (arith, without)) in ap (λ b. (c == d) && b) rest

is_full-has_prefix : (l : Bytes) → is_full l ≡ true → has_prefix header (ended l) ≡ false
is_full-has_prefix [] full = absurd (cc)
is_full-has_prefix (c ∷ l) full = has_prefix-ended header (c ∷ l) refl ∙ ground (arith, full)

parse_backtrace-lines :
    (c : ℕ) (top : Bytes) (ls more : List Bytes) (backtrace : Bytes)
    → are_full ls ≡ true
    → parse_backtrace (map ended ls ++ more) [] (c ∷ top) backtrace
      ≡ parse_backtrace more [] (c ∷ top) (backtrace ++ unlines ls)
unfolding parse_backtrace top_of
parse_backtrace-lines c top [] more backtrace full =
    ap (parse_backtrace more [] (c ∷ top)) (sym (append-nil backtrace))
parse_backtrace-lines c top (l ∷ ls) more backtrace full =
    let other = is_full-has_prefix l (ground (arith, full)) in
    let rest = parse_backtrace-lines c top ls more (backtrace ++ ended l) (ground (arith, full)) in
    let joined = append_assoc backtrace (ended l) (unlines ls) in
    ground (arith, other) ∙ (rest ∙ ap (parse_backtrace more [] (c ∷ top)) joined)

parse_backtrace-step :
    (line : Bytes) (lines : List Bytes) (top t backtrace : Bytes)
    → has_prefix header line ≡ false
    → top_of top line ≡ some t
    → parse_backtrace (line ∷ lines) [] top backtrace
      ≡ parse_backtrace lines [] t (backtrace ++ line)
unfolding parse_backtrace
parse_backtrace-step line lines top t backtrace other found = ground (arith, other, found)

pub parse_backtrace-trace :
    (e : Entry) (more : List Bytes) (c : ℕ) (top : Bytes)
    → is_entry e ≡ true
    → e.top ≡ c ∷ top
    → parse_backtrace (map ended (trace e) ++ more) [] [] []
      ≡ parse_backtrace more [] (c ∷ top) (unlines (trace e))
parse_backtrace-trace e more c top valid named =
    let (_, _, _, _, _, _, full) = is_entry-Parts e valid in
    let (first, others) = both _ _ full in
    parse_backtrace-step (ended (top_line e)) (map ended e.others ++ more) [] (c ∷ top) []
      (is_full-has_prefix (top_line e) first) (top_of-top_line e valid ∙ ap some named)
    ∙ parse_backtrace-lines c top e.others more (ended (top_line e)) others

pub parse_backtrace-last :
    (c : ℕ) (top backtrace : Bytes)
    → parse_backtrace [] [] (c ∷ top) backtrace ≡ some (c ∷ top, backtrace, [])
unfolding parse_backtrace top_of
parse_backtrace-last c top backtrace = ap (λ b. some (c ∷ top, b, [])) (append-nil backtrace)

pub parse_backtrace-next :
    (c : ℕ) (top backtrace : Bytes) (f : Entry) (ls : List Bytes)
    → parse_backtrace ((10 ∷ []) ∷ ended (head_line f) ∷ ls) [] (c ∷ top) backtrace
      ≡ some (c ∷ top, backtrace ++ 10 ∷ [], ended (head_line f) ∷ ls)
unfolding parse_backtrace top_of
parse_backtrace-next c top backtrace f ls = refl

line-last :
    (c : ℕ) (l : Bytes)
    → is_without 10 (c ∷ l) ≡ true
    → (x : Bytes) × (d : ℕ) × (c ∷ l ≡ x ++ d ∷ []) × ((d == 10) ≡ false)
line-last c [] full = ([], c, refl, ground (arith, full))
line-last c (d ∷ l) full =
    let (x, e, split, other) = line-last d l (ground (arith, full)) in
    (c ∷ x, e, ap (λ y. c ∷ y) split, other)

unlines-last :
    (l : Bytes) (ls : List Bytes)
    → are_full (l ∷ ls) ≡ true
    → (x : Bytes) × (d : ℕ) × (unlines (l ∷ ls) ≡ x ++ d ∷ 10 ∷ []) × ((d == 10) ≡ false)
unlines-last [] ls full = absurd (cc)
unlines-last (c ∷ l) [] full =
    let (first, _) = both _ _ full in
    let (without, _) = both (is_without 10 (c ∷ l)) _ first in
    let (x, d, split, other) = line-last c l without in
    (x, d, append-nil (ended (c ∷ l)) ∙ (ap ended split ∙ append_assoc x (d ∷ []) (10 ∷ [])), other)
unlines-last (c ∷ l) (k ∷ ls) full =
    let (first, rest) = both (is_full (c ∷ l)) (are_full (k ∷ ls)) full in
    let (x, d, split, other) = unlines-last k ls rest in
    (
      ended (c ∷ l) ++ x,
      d,
      ap (λ y. ended (c ∷ l) ++ y) split ∙ sym (append_assoc (ended (c ∷ l)) x (d ∷ 10 ∷ [])),
      other,
    )

strip-last : (x : Bytes) (d : ℕ) → (d == 10) ≡ false → strip (x ++ d ∷ 10 ∷ []) ≡ x ++ d ∷ 10 ∷ []
strip-last x d other =
    let found = has_suffix-append (10 ∷ 10 ∷ []) x (d ∷ 10 ∷ []) refl in
    ground (arith, found, other)

strip-next : (x : Bytes) → strip ((x ++ 10 ∷ []) ++ 10 ∷ []) ≡ x ++ 10 ∷ []
strip-next x =
    let text : Bytes = (x ++ 10 ∷ []) ++ 10 ∷ [] in
    let found : has_suffix (10 ∷ 10 ∷ []) text ≡ true =
      ap (has_suffix (10 ∷ 10 ∷ [])) (append_assoc x (10 ∷ []) (10 ∷ []))
      ∙ has_suffix-append (10 ∷ 10 ∷ []) x (10 ∷ 10 ∷ []) refl in
    ap (λ b. if b then take (length text - 1) text else text) found
    ∙ take-append (x ++ 10 ∷ []) (10 ∷ [])

strip-split :
    (b x : Bytes) (d : ℕ)
    → b ≡ x ++ d ∷ 10 ∷ []
    → (d == 10) ≡ false
    → (strip b ≡ b) × (strip (b ++ 10 ∷ []) ≡ b)
strip-split b x d split other =
    let parts : b ≡ (x ++ d ∷ []) ++ 10 ∷ [] = split ∙ sym (append_assoc x (d ∷ []) (10 ∷ [])) in
    (
      ap strip split ∙ (strip-last x d other ∙ sym split),
      ap (λ y. strip (y ++ 10 ∷ [])) parts ∙ (strip-next (x ++ d ∷ []) ∙ sym parts),
    )

pub strip-unlines :
    (l : Bytes) (ls : List Bytes)
    → are_full (l ∷ ls) ≡ true
    → (strip (unlines (l ∷ ls)) ≡ unlines (l ∷ ls))
      × (strip (unlines (l ∷ ls) ++ 10 ∷ []) ≡ unlines (l ∷ ls))
strip-unlines l ls full =
    let (x, d, split, other) = unlines-last l ls full in
    strip-split (unlines (l ∷ ls)) x d split other

pub complete-goroutine_of :
    (e : Entry) (backtrace : Bytes)
    → strip backtrace ≡ unlines (trace e)
    → complete (goroutine_with e.state (decimal 0 (e.first_digit ∷ e.digits))) e.top backtrace
      ≡ goroutine_of e
unfolding complete
complete-goroutine_of e backtrace stripped =
    ap
      (λ b. record (goroutine_with e.state (decimal 0 (e.first_digit ∷ e.digits))) {
        top_function = e.top;
        backtrace = b;
        creator_function = (find_creator b).0;
        born_at = (find_creator b).1;
      })
      stripped
