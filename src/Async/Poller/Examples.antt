-- ===== src/Async/Poller/Examples.antt =====
-- Theorems on the poller at concrete inputs.
use gomega.Base.Int.{pos, negsuc}
use gomega.Base.{ℕ, refl, Bool, true, false, List, [], ◌∷◌, ◌==◌}
use gomega.Errors.{GoError, plain, signal, stop_trying_error}
use gomega.Async.{Config, eventually}
use gomega.Async.Poller.{
  Any, nil, error, other, FuncType, InValue, forwarded, context_value, takes_context,
  build_actual_poller, check_call, in_values,
}
use gomega.Async.Poller.Legal.{IsLegal, build_actual_poller-IsLegal}

abbrev config : Config
config = record {
  async_type = eventually;
  timeout_interval = negsuc 0;
  polling_interval = negsuc 0;
  must_pass_repeatedly = pos 1;
  has_ctx = true;
  offset = 0;
  bundle = record {
    eventually_timeout = pos 1000;
    eventually_polling_interval = pos 10;
    consistently_duration = pos 100;
    consistently_polling_interval = pos 10;
  };
}

-- func(ctx context.Context, n int) error
abbrev with_context_and_number : FuncType
with_context_and_number = record {
  num_in = 2;
  num_out = 1;
  is_variadic = false;
  gomega_at = λ i. false;
  context_at = λ i. i == 0;
}

abbrev no_contexts : ℕ → Bool
no_contexts n = false

abbrev one_argument : List (Any ℕ)
one_argument = other 7 ∷ []

abbrev two_values : List (InValue ℕ)
two_values = context_value ∷ forwarded (other 7) ∷ []

build_actual_poller-IsLegal_example : IsLegal config with_context_and_number two_values
unfolding build_actual_poller takes_context check_call in_values
build_actual_poller-IsLegal_example =
    build_actual_poller-IsLegal no_contexts config with_context_and_number one_argument two_values
      refl

abbrev is_zero : Any ℕ → Bool
is_zero nil = false
is_zero (error e) = false
is_zero (other n) = n == 0

abbrev boom : GoError
boom = plain "boom"

abbrev stop_now : GoError
stop_now = signal (stop_trying_error "enough")
