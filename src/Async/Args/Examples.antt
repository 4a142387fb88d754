-- ===== src/Async/Args/Examples.antt =====
-- Instances of the theorems on the arguments of Eventually and Consistently.
use gomega.Base.Int.{pos, negsuc}
use gomega.Base.{ℕ, ◌*◌, ◌≡◌, refl, none, some, [], ◌∷◌, ◌++◌}
use gomega.Async.{eventually, DurationBundle}
use gomega.Async.Args.{
  parsed, invalid, integer, text, context, Conversions, to_duration, context_of,
  make_async_assertion,
}
use gomega.Async.Args.Contexts.{make_async_assertion-context}

abbrev whole_seconds : Conversions ℕ ℕ
whole_seconds = record { float_seconds = λ x. pos (x * 1000000000); parse_duration = λ s. none }

abbrev bundle : DurationBundle
bundle = record {
  eventually_timeout = pos 1000;
  eventually_polling_interval = pos 10;
  consistently_duration = pos 100;
  consistently_polling_interval = pos 10;
}

text_unread : to_duration whole_seconds (text 5) ≡ invalid
unfolding to_duration
text_unread = refl

make_async_assertion-context_example :
    make_async_assertion whole_seconds eventually 0 bundle
      (context 1)
      (text 5 ∷ (integer 2 ∷ []) ++ context 2 ∷ [])
    ≡ make_async_assertion whole_seconds eventually 0 bundle
        (text 5)
        ((integer 2 ∷ []) ++ context 1 ∷ context 2 ∷ [])
make_async_assertion-context_example =
    make_async_assertion-context whole_seconds eventually 0 bundle 1 (text 5) (integer 2 ∷ [])
      (context 2 ∷ []) text_unread refl (refl, tt)

-- The later context is the one that stays.
later_context : context_of {F = ℕ} {T = ℕ} (some 1) (integer 2 ∷ context 2 ∷ []) ≡ some 2
later_context = refl

-- 10000000000 seconds wrap around to less than 0.
seconds_wrap : to_duration whole_seconds (integer 10000000000) ≡ parsed (negsuc 8446744073709551615)
unfolding to_duration
seconds_wrap = refl
