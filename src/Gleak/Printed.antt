-- ===== src/Gleak/Printed.antt =====
-- That parseStack reads a dump back.
use mathlib.Core.List.{append-nil}
use gomega.Base.{
  ℕ, zero, suc, ◌≡◌, ◌<◌, refl, sym, ap, ◌∙◌, Bool, true, ◌&&◌, some, List, [], ◌∷◌, ◌++◌, map,
  length, length-append, arith,
}
use gomega.Gleak.{
  Goroutine, goroutine_with, split_lines, new_goroutine, parse_backtrace, parsed, put_first, strip,
  complete, parse_loop, parse_stack,
}
use gomega.Gleak.Strings.{Bytes}
use gomega.Gleak.Trims.{both, is_without, is_tight, decimal, digits_text}
use gomega.Gleak.Dumps.{
  Entry, title, head_text, head_line, top_line, ended, unlines, trace, dump_lines, print, is_full,
  are_full, is_entry, is_entry-Parts, are_entries, goroutine_of, split_lines-ended,
  new_goroutine-head_line, parse_backtrace-trace, parse_backtrace-last, parse_backtrace-next,
  strip-unlines, complete-goroutine_of,
}

abbrev are_without : List Bytes → Bool
are_without [] = true
are_without (l ∷ ls) = is_without 10 l && are_without ls

split_lines-unlines :
    (ls : List Bytes) → are_without ls ≡ true → split_lines (unlines ls) ≡ (map ended ls, [])
split_lines-unlines [] without = refl
split_lines-unlines (l ∷ ls) without =
    let (first, rest) = both _ _ without in
    split_lines-ended l (unlines ls) first
    ∙ ap (λ (found : List Bytes × Bytes). (ended l ∷ found.0, found.1))
        (split_lines-unlines ls rest)

are_without-append :
    (xs ys : List Bytes)
    → are_without xs ≡ true
    → are_without ys ≡ true
    → are_without (xs ++ ys) ≡ true
are_without-append [] ys h k = k
are_without-append (x ∷ xs) ys h k =
    let (first, rest) = both _ _ h in
    ap (λ b. b && are_without (xs ++ ys)) first ∙ are_without-append xs ys rest k

is_without-append :
    (c : ℕ) (x y : Bytes)
    → is_without c x ≡ true
    → is_without c y ≡ true
    → is_without c (x ++ y) ≡ true
is_without-append c [] y h k = k
is_without-append c (d ∷ x) y h k =
    let (first, rest) = both _ _ h in
    ap (λ b. b && is_without c (x ++ y)) first ∙ is_without-append c x y rest k

are_full-are_without : (ls : List Bytes) → are_full ls ≡ true → are_without ls ≡ true
are_full-are_without [] full = refl
are_full-are_without ([] ∷ ls) full = absurd (cc)
are_full-are_without ((c ∷ l) ∷ ls) full =
    let (first, rest) = both (is_full (c ∷ l)) (are_full ls) full in
    let (without, _) = both (is_without 10 (c ∷ l)) _ first in
    ap (λ b. b && are_without ls) without ∙ are_full-are_without ls rest

digits_text-is_without : (ds : List ℕ) → is_without 10 (digits_text ds) ≡ true
digits_text-is_without [] = refl
digits_text-is_without (d ∷ ds) = ground (arith, digits_text-is_without ds)

head_line-is_without : (e : Entry) → is_entry e ≡ true → is_without 10 (head_line e) ≡ true
head_line-is_without e valid =
    let (_, _, state, _, _, _, _) = is_entry-Parts e valid in
    let ds = e.first_digit ∷ e.digits in
    let closed = is_without-append 10 e.state (93 ∷ []) state refl in
    is_without-append 10 (head_text e) (58 ∷ [])
      (is_without-append 10 title (32 ∷ (digits_text ds ++ 32 ∷ (91 ∷ (e.state ++ 93 ∷ [])))) refl (
        is_without-append 10 (digits_text ds) (32 ∷ (91 ∷ (e.state ++ 93 ∷ [])))
          (digits_text-is_without ds) closed))
      refl

entry-are_without : (e : Entry) → is_entry e ≡ true → are_without (head_line e ∷ trace e) ≡ true
entry-are_without e valid =
    let (_, _, _, _, _, _, full) = is_entry-Parts e valid in
    ap (λ b. b && are_without (trace e)) (head_line-is_without e valid)
    ∙ are_full-are_without (trace e) full

dump_lines-are_without :
    (es : List Entry) → are_entries es ≡ true → are_without (dump_lines es) ≡ true
dump_lines-are_without [] valid = refl
dump_lines-are_without (e ∷ []) valid = let (first, _) = both _ _ valid in entry-are_without e first
dump_lines-are_without (e ∷ f ∷ es) valid =
    let (first, rest) = both (is_entry e) (are_entries (f ∷ es)) valid in
    are_without-append (head_line e ∷ trace e) ([] ∷ dump_lines (f ∷ es))
      (entry-are_without e first) (dump_lines-are_without (f ∷ es) rest)

top_of_entry : (e : Entry) → is_entry e ≡ true → (c : ℕ) × (top : Bytes) × (e.top ≡ c ∷ top)
top_of_entry e valid =
    let (_, _, _, _, tight, _, _) = is_entry-Parts e valid in nonempty e.top tight
  where
    nonempty : (s : Bytes) → is_tight s ≡ true → (c : ℕ) × (top : Bytes) × (s ≡ c ∷ top)
    nonempty [] tight = absurd (cc)
    nonempty (c ∷ top) tight = (c, top, refl)

parse_loop-step :
    (fuel : ℕ) (line : Bytes) (lines rest : List Bytes) (g : Goroutine) (top backtrace : Bytes)
    → new_goroutine line ≡ some g
    → parse_backtrace lines [] [] [] ≡ some (top, backtrace, rest)
    → parse_loop (suc fuel) (line ∷ lines) []
      ≡ put_first (complete g top backtrace) (parse_loop fuel rest [])
unfolding parse_loop
parse_loop-step fuel line lines rest g top backtrace head body = ground (arith, head, body)

parse_loop-entry :
    (fuel : ℕ) (e : Entry) (more rest : List Bytes) (backtrace : Bytes)
    → is_entry e ≡ true
    → ((c : ℕ) (top : Bytes)
        → parse_backtrace more [] (c ∷ top) (unlines (trace e)) ≡ some (c ∷ top, backtrace, rest))
    → strip backtrace ≡ unlines (trace e)
    → parse_loop (suc fuel) (ended (head_line e) ∷ (map ended (trace e) ++ more)) []
      ≡ put_first (goroutine_of e) (parse_loop fuel rest [])
parse_loop-entry fuel e more rest backtrace valid body stripped =
    let (c, top, named) = top_of_entry e valid in
    let read =
      parse_backtrace-trace e more c top valid named
      ∙ (body c top ∙ ap (λ t. some (t, backtrace, rest)) (sym named)) in
    parse_loop-step fuel (ended (head_line e)) (map ended (trace e) ++ more) rest
      (goroutine_with e.state (decimal 0 (e.first_digit ∷ e.digits))) e.top backtrace
      (new_goroutine-head_line e valid) read
    ∙ ap (λ g. put_first g (parse_loop fuel rest [])) (complete-goroutine_of e backtrace stripped)

map-append : (xs ys : List Bytes) → map ended (xs ++ ys) ≡ map ended xs ++ map ended ys
map-append [] ys = refl
map-append (x ∷ xs) ys = ap (λ zs. ended x ∷ zs) (map-append xs ys)

dump_lines-first :
    (f : Entry) (es : List Entry) → (ls : List Bytes) × (dump_lines (f ∷ es) ≡ head_line f ∷ ls)
dump_lines-first f [] = (trace f, refl)
dump_lines-first f (g ∷ es) = (trace f ++ [] ∷ dump_lines (g ∷ es), refl)

parse_backtrace-separator :
    (f : Entry) (es : List Entry) (backtrace : Bytes) (c : ℕ) (top : Bytes)
    → parse_backtrace ((10 ∷ []) ∷ map ended (dump_lines (f ∷ es))) [] (c ∷ top) backtrace
      ≡ some (c ∷ top, backtrace ++ 10 ∷ [], map ended (dump_lines (f ∷ es)))
parse_backtrace-separator f es backtrace c top =
    let (ls, shape) = dump_lines-first f es in
    ap (λ ms. parse_backtrace ((10 ∷ []) ∷ map ended ms) [] (c ∷ top) backtrace) shape
    ∙ (parse_backtrace-next c top backtrace f (map ended ls)
        ∙ ap (λ ms. some (c ∷ top, backtrace ++ 10 ∷ [], map ended ms)) (sym shape))

trace-strip :
    (e : Entry)
    → is_entry e ≡ true
    → (strip (unlines (trace e)) ≡ unlines (trace e))
      × (strip (unlines (trace e) ++ 10 ∷ []) ≡ unlines (trace e))
trace-strip e valid =
    let (_, _, _, _, _, _, full) = is_entry-Parts e valid in
    strip-unlines (top_line e) e.others full

parse_loop-empty : (fuel : ℕ) → 0 < fuel → parse_loop fuel [] [] ≡ parsed []
unfolding parse_loop
parse_loop-empty zero positive = absurd (omega (arith, positive))
parse_loop-empty (suc fuel) positive = refl

parse_loop-entries :
    (fuel : ℕ) (es : List Entry)
    → are_entries es ≡ true
    → length (map ended (dump_lines es)) < fuel
    → parse_loop fuel (map ended (dump_lines es)) [] ≡ parsed (map goroutine_of es)
parse_loop-entries zero es valid enough = absurd (omega (arith, enough))
parse_loop-entries (suc fuel) [] valid enough = parse_loop-empty (suc fuel) (omega arith)
parse_loop-entries (suc fuel) (e ∷ []) valid enough =
    let (first, _) = both (is_entry e) true valid in
    ap (λ ls. parse_loop (suc fuel) (ended (head_line e) ∷ ls) [])
      (sym (append-nil (map ended (trace e))))
    ∙ (parse_loop-entry fuel e [] [] (unlines (trace e)) first
          (λ c top. parse_backtrace-last c top (unlines (trace e))) (trace-strip e first).0
        ∙ ap (put_first (goroutine_of e)) (parse_loop-empty fuel (omega (arith, enough))))
parse_loop-entries (suc fuel) (e ∷ f ∷ es) valid enough =
    let (first, rest) = both (is_entry e) (are_entries (f ∷ es)) valid in
    let lines : List Bytes = map ended (dump_lines (f ∷ es)) in
    let joined = map-append (head_line e ∷ trace e) ([] ∷ dump_lines (f ∷ es)) in
    let counted = length-append (map ended (head_line e ∷ trace e)) ((10 ∷ []) ∷ lines) in
    let fewer : length lines < fuel = omega (arith, enough, ap length joined, counted) in
    ap (λ ls. parse_loop (suc fuel) ls []) joined
    ∙ (parse_loop-entry fuel e ((10 ∷ []) ∷ lines) lines (unlines (trace e) ++ 10 ∷ []) first
          (parse_backtrace-separator f es (unlines (trace e))) (trace-strip e first).1
        ∙ ap (put_first (goroutine_of e)) (parse_loop-entries fuel (f ∷ es) rest fewer))

-- parseStack reads back every goroutine of a printed dump, in order: its id, its state, its top function,
-- and its backtrace without the empty line between goroutines, with the creator that findCreator finds
-- in it. The dump's ids are below 2 ^ 64, states and lines have no newline, the line of the top function
-- and its name neither begin nor end with white space, its arguments have no opening parenthesis, and
-- lines of a backtrace are not empty and do not begin as a header does.
pub parse_stack-print :
    (es : List Entry)
    → are_entries es ≡ true
    → parse_stack (print es) ≡ parsed (map goroutine_of es)
unfolding parse_stack
parse_stack-print es valid =
    ap (λ (found : List Bytes × Bytes). parse_loop (suc (length found.0)) found.0 found.1)
      (split_lines-unlines (dump_lines es) (dump_lines-are_without es valid))
    ∙ parse_loop-entries (suc (length (map ended (dump_lines es)))) es valid (omega arith)
