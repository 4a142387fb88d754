-- ===== src/Async/Args.antt =====
-- internal/gomega.go and toDuration of internal/duration_bundle.go: the arguments of Eventually and
-- Consistently. The conversion of a floating point number and time.ParseDuration are given.
pub mod Contexts
mod Examples
use gomega.Base.Int.{ℤ, pos, negsuc}
use gomega.Base.{
  is_some, ℕ, zero, suc, ◌+◌, ◌-◌, ◌*◌, ◌%◌, ◌≡◌, refl, sym, ap, ◌∙◌, inl, inr, Bool, true, false,
  not, ◌||◌, ltb, Option, none, some, List, [], ◌∷◌, ◌++◌, if◌then◌else◌, arith,
}
use gomega.Async.{
  AsyncType, eventually, consistently, DurationBundle, Config, after_timeout, after_polling,
}

-- An argument, by what toDuration and the type switch make of it; an integer is its 64 bits, and a
-- context has a number.
pub data Arg (F T : Type 0) : Type 0 where
  duration : ℤ → Arg F T
  integer : ℕ → Arg F T
  float : F → Arg F T
  text : T → Arg F T
  context : ℕ → Arg F T
  nil : Arg F T
  other : ℕ → Arg F T

pub data Read : Type 0 where
  parsed : ℤ → Read
  invalid panicked : Read

-- The integer of 64 bits.
abbrev pub signed : ℕ → ℤ
signed b = if ltb b 9223372036854775808 then pos b else negsuc (18446744073709551615 - b)

abbrev read_text : Option ℤ → Read
read_text none = invalid
read_text (some d) = parsed d

abbrev pub is_context : {F T : Type 0} → Arg F T → Bool
is_context (context n) = true
is_context a = false

pub record Conversions (F T : Type 0) : Type 0 where
  pub float_seconds : F → ℤ
  pub parse_duration : T → Option ℤ

abbrev pub new_config : AsyncType → ℕ → DurationBundle → Option ℕ → ℤ → ℤ → Config
new_config t n bundle ctx timeout polling = record {
  async_type = t;
  timeout_interval = timeout;
  polling_interval = polling;
  must_pass_repeatedly = pos 1;
  has_ctx = is_some ctx;
  offset = n;
  bundle = bundle;
}

pub record Made (F T : Type 0) : Type 0 where
  pub actual : Arg F T
  pub ctx : Option ℕ
  pub config : Config
  pub failures : ℕ

module _ {F T : Type 0} where
  -- The actual value, the context before it, and the arguments that are left, where the first argument
  -- is a context.
  abbrev pub chosen :
      ℕ → Read → Arg F T → List (Arg F T) → Option (Arg F T × Option ℕ × List (Arg F T))
  chosen n (parsed d) a args = some (context n, none, a ∷ args)
  chosen n invalid a args = some (a, some n, args)
  chosen n panicked a args = none

  abbrev pub intervals : List (Arg F T) → List (Arg F T)
  intervals [] = []
  intervals (context n ∷ args) = intervals args
  intervals (a ∷ args) = a ∷ intervals args

  -- `ctx` after the loop over the arguments: a later context takes the place of an earlier one.
  abbrev pub context_of : Option ℕ → List (Arg F T) → Option ℕ
  context_of ctx [] = ctx
  context_of ctx (context n ∷ args) = context_of (some n) args
  context_of ctx (a ∷ args) = context_of ctx args

  abbrev pub rest_of : List (Arg F T) → List (Arg F T)
  rest_of [] = []
  rest_of (a ∷ args) = args

module _ {F T : Type 0} (conv : Conversions F T) where
  unfoldable pub to_duration : Arg F T → Read
  to_duration (duration d) = parsed d
  to_duration (integer b) = parsed (signed ((b * 1000000000) % 18446744073709551616))
  to_duration (float x) = parsed (conv.float_seconds x)
  to_duration (text s) = read_text (conv.parse_duration s)
  to_duration (context n) = invalid
  to_duration nil = panicked
  to_duration (other n) = invalid

  unfoldable pub choose : Arg F T → List (Arg F T) → Option (Arg F T × Option ℕ × List (Arg F T))
  unfolding to_duration
  choose (context n) (a ∷ args) = chosen n (to_duration a) a args
  choose first args = some (first, none, args)

  -- An interval, and the calls of Fail.
  abbrev pub interval_of : Read → Option (ℤ × ℕ)
  interval_of (parsed d) = some (d, 0)
  interval_of invalid = some (pos 0, 1)
  interval_of panicked = none

  abbrev pub first_interval : List (Arg F T) → Option (ℤ × ℕ)
  first_interval [] = some (negsuc 0, 0)
  first_interval (a ∷ args) = interval_of (to_duration a)

  abbrev pub made :
      AsyncType → ℕ → DurationBundle → Arg F T → Option ℕ → List (Arg F T) → Option (Made F T)
  made t n bundle actual ctx is = elim (first_interval is) [
    | none ↦ none
    | some timeout ↦ elim (first_interval (rest_of is)) [
      | none ↦ none
      | some polling ↦ some (record {
        actual = actual;
        ctx = ctx;
        config = new_config t n bundle ctx timeout.0 polling.0;
        failures = timeout.1 + polling.1;
      })
    ]
  ]

  abbrev pub made_from :
      AsyncType
      → ℕ
      → DurationBundle
      → Option (Arg F T × Option ℕ × List (Arg F T))
      → Option (Made F T)
  made_from t n bundle none = none
  made_from t n bundle (some (actual, ctx, args)) =
      made t n bundle actual (context_of ctx args) (intervals args)

  -- makeAsyncAssertion, where Fail returns; `none` is a panic of toDuration.
  unfoldable pub make_async_assertion :
      AsyncType → ℕ → DurationBundle → Arg F T → List (Arg F T) → Option (Made F T)
  unfolding choose to_duration
  make_async_assertion t n bundle first args = made_from t n bundle (choose first args)
