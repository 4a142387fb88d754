-- ===== src/Gleak/Stacks.antt =====
-- That the loop of parseStack ends.
use gomega.Base.{
  ℕ, zero, suc, ◌≡◌, ◌≢◌, ◌≤◌, ◌<◌, refl, inl, inr, some, List, [], ◌∷◌, ◌++◌, length, arith,
  Bool-cases, Option-cases,
}
use gomega.Gleak.{
  Goroutine, split_lines, header, new_goroutine, top_of, parse_backtrace, Parsed, panicked,
  unfinished, parsed, put_first, complete, parse_loop, parse_stack,
}
use gomega.Gleak.Strings.{Bytes, has_prefix}

parse_backtrace-shorter :
    (lines : List Bytes) (tail top backtrace top' backtrace' : Bytes) (rest : List Bytes)
    → parse_backtrace lines tail top backtrace ≡ some (top', backtrace', rest)
    → length rest ≤ length lines
unfolding parse_backtrace
parse_backtrace-shorter [] tail top backtrace top' backtrace' rest h =
    elim (Bool-cases (has_prefix header tail)) [
      | inl stop ↦ ground (arith, stop, h)
      | inr go ↦ elim (Option-cases (top_of top tail)) [
        | inl bad ↦ absurd (ground (arith, go, bad, h))
        | inr (t, good) ↦ ground (arith, go, good, h)
      ]
    ]
parse_backtrace-shorter (line ∷ lines) tail top backtrace top' backtrace' rest h =
    elim (Bool-cases (has_prefix header line)) [
      | inl stop ↦ ground (arith, stop, h)
      | inr go ↦ elim (Option-cases (top_of top line)) [
        | inl bad ↦ absurd (ground (arith, go, bad, h))
        | inr (t, good) ↦
            let shorter =
              parse_backtrace-shorter lines tail t (backtrace ++ line) top' backtrace' rest
                (ground (arith, go, good, h)) in
            omega (arith, shorter)
      ]
    ]

put_first-unfinished : (g : Goroutine) (p : Parsed) → put_first g p ≡ unfinished → p ≡ unfinished
put_first-unfinished g panicked h = h
put_first-unfinished g unfinished h = refl
put_first-unfinished g (parsed gs) h = absurd (cc)

parse_loop-finishes :
    (fuel : ℕ) (lines : List Bytes) (tail : Bytes)
    → length lines < fuel
    → parse_loop fuel lines tail ≢ unfinished
unfolding parse_loop
parse_loop-finishes zero lines tail enough h = absurd (omega (arith, enough))
parse_loop-finishes (suc fuel) [] tail enough h = absurd (cc)
parse_loop-finishes (suc fuel) (line ∷ lines) tail enough h =
    elim (Option-cases (new_goroutine line)) [
      | inl bad ↦ absurd (ground (arith, bad, h))
      | inr (g, good) ↦ elim (Option-cases (parse_backtrace lines tail [] [])) [
        | inl refused ↦ absurd (ground (arith, good, refused, h))
        | inr ((top, backtrace, rest), done) ↦
            parse_loop-finishes fuel rest tail
              (omega
                (arith, enough, parse_backtrace-shorter lines tail [] [] top backtrace rest done))
              (put_first-unfinished (complete g top backtrace) (parse_loop fuel rest tail)
                (ground (arith, good, done, h)))
      ]
    ]

-- On any stack dump, of whatever bytes, parseStack returns or panics.
pub parse_stack-finishes : (stacks : Bytes) → parse_stack stacks ≢ unfinished
unfolding parse_stack
parse_stack-finishes stacks =
    let found = split_lines stacks in
    parse_loop-finishes (suc (length found.0)) found.0 found.1 (omega arith)
