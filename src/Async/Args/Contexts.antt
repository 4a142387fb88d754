-- ===== src/Async/Args/Contexts.antt =====
-- Where a context may stand among the arguments.
use gomega.Base.{ℕ, ◌≡◌, refl, sym, ap, ◌∙◌, false, Option, none, some, List, [], ◌∷◌, ◌++◌, All}
use gomega.Async.{AsyncType, DurationBundle}
use gomega.Async.Args.{
  Arg, duration, integer, float, text, context, nil, other, is_context, invalid, Conversions,
  to_duration, chosen, choose, intervals, context_of, made, made_from, make_async_assertion,
}

module _ {F T : Type 0} where
  -- No argument is a context.
  abbrev pub ArePlain : List (Arg F T) → Type 0
  ArePlain args = All (λ a. is_context a ≡ false) args

  intervals-between :
      (before after : List (Arg F T)) (k : ℕ)
      → intervals (before ++ context k ∷ after) ≡ intervals (before ++ after)
  intervals-between [] after k = refl
  intervals-between (context n ∷ before) after k = intervals-between before after k
  intervals-between (duration d ∷ before) after k =
      ap (λ is. duration d ∷ is) (intervals-between before after k)
  intervals-between (integer b ∷ before) after k =
      ap (λ is. integer b ∷ is) (intervals-between before after k)
  intervals-between (float x ∷ before) after k =
      ap (λ is. float x ∷ is) (intervals-between before after k)
  intervals-between (text s ∷ before) after k =
      ap (λ is. text s ∷ is) (intervals-between before after k)
  intervals-between (nil ∷ before) after k = ap (λ is. nil ∷ is) (intervals-between before after k)
  intervals-between (other m ∷ before) after k =
      ap (λ is. other m ∷ is) (intervals-between before after k)

  context_of-plain :
      (ctx : Option ℕ) (before after : List (Arg F T))
      → ArePlain before
      → context_of ctx (before ++ after) ≡ context_of ctx after
  context_of-plain ctx [] after plain = refl
  context_of-plain ctx (context n ∷ before) after (bad, plain) = absurd (cc)
  context_of-plain ctx (duration d ∷ before) after (_, plain) =
      context_of-plain ctx before after plain
  context_of-plain ctx (integer b ∷ before) after (_, plain) =
      context_of-plain ctx before after plain
  context_of-plain ctx (float x ∷ before) after (_, plain) = context_of-plain ctx before after plain
  context_of-plain ctx (text s ∷ before) after (_, plain) = context_of-plain ctx before after plain
  context_of-plain ctx (nil ∷ before) after (_, plain) = context_of-plain ctx before after plain
  context_of-plain ctx (other m ∷ before) after (_, plain) = context_of-plain ctx before after plain

module _ {F T : Type 0} (conv : Conversions F T) where
  choose-other :
      (a : Arg F T) (args : List (Arg F T))
      → is_context a ≡ false
      → choose conv a args ≡ some (a, none, args)
  unfolding choose
  choose-other (context n) args plain = absurd (cc)
  choose-other (duration d) args plain = refl
  choose-other (integer b) args plain = refl
  choose-other (float x) args plain = refl
  choose-other (text s) args plain = refl
  choose-other nil args plain = refl
  choose-other (other m) args plain = refl

  -- A context before the actual value is the same as that context after it, wherever it stands before any
  -- other context, where the actual value is no context and cannot be read as a duration: the assertion
  -- has the same actual value, the same context and the same intervals.
  pub make_async_assertion-context :
      (t : AsyncType) (n : ℕ) (bundle : DurationBundle) (k : ℕ) (a : Arg F T)
      (before after : List (Arg F T))
      → to_duration conv a ≡ invalid
      → is_context a ≡ false
      → ArePlain before
      → make_async_assertion conv t n bundle (context k) (a ∷ before ++ after)
        ≡ make_async_assertion conv t n bundle a (before ++ context k ∷ after)
  unfolding make_async_assertion choose
  make_async_assertion-context t n bundle k a before after unread plain none_before =
      ap (λ r. made_from conv t n bundle (chosen k r a (before ++ after))) unread
      ∙ (ap (λ is. made conv t n bundle a (context_of (some k) (before ++ after)) is)
            (sym (intervals-between before after k))
          ∙ (ap (λ ctx. made conv t n bundle a ctx (intervals (before ++ context k ∷ after)))
                (context_of-plain (some k) before after none_before
                  ∙ sym (context_of-plain none before (context k ∷ after) none_before))
              ∙ ap (made_from conv t n bundle)
                  (sym (choose-other a (before ++ context k ∷ after) plain))))
