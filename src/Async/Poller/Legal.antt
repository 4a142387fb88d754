-- ===== src/Async/Poller/Legal.antt =====
-- What buildActualPoller guarantees of the call that it lets through.
use gomega.Base.Int.{is_num, below_one}
use gomega.Base.{
  ◌+◌, ◌≤◌, ◌≡◌, refl, inl, inr, Bool, true, false, some, List, [], ◌∷◌, length, arith,
  Option-cases, ◌≢◌,
}
use gomega.Async.{consistently, Config}
use gomega.Async.Poller.{
  Any, FuncType, InValue, gomega_value, context_value, forwarded, calls, takes_gomega,
  takes_context, forward_all, in_values, check_call, build_actual_poller,
}

module _ {A : Type 0} where
  abbrev pub holds_context : List (InValue A) → Bool
  holds_context [] = false
  holds_context (gomega_value ∷ vs) = holds_context vs
  holds_context (context_value ∷ vs) = true
  holds_context (forwarded a ∷ vs) = holds_context vs

  holds_context-forward_all : (args : List (Any A)) → holds_context (forward_all args) ≡ false
  unfolding forward_all
  holds_context-forward_all [] = refl
  holds_context-forward_all (a ∷ args) = holds_context-forward_all args

  holds_context-in_values :
      (t : FuncType) (b : Bool) (args : List (Any A)) → holds_context (in_values t b args) ≡ b
  unfolding in_values
  holds_context-in_values t b args = ground (arith, holds_context-forward_all args)

-- The conditions under which reflection lets the call be made, and MustPassRepeatedly makes sense.
pub record IsLegal {A : Type 0} (c : Config) (t : FuncType) (vs : List (InValue A)) : Type 0 where
  pub fixed_arity : t.is_variadic ≡ false → length vs ≡ t.num_in
  pub variadic_arity : t.is_variadic ≡ true → t.num_in ≤ length vs + 1
  pub has_context : holds_context vs ≡ true → c.has_ctx ≡ true
  pub gives_something : t.num_out ≡ 0 → takes_gomega t ≡ true
  pub must_pass_positive : below_one c.must_pass_repeatedly ≡ false
  pub once_for_consistently : c.async_type ≡ consistently → is_num 1 c.must_pass_repeatedly ≡ true

module _ {A : Type 0} where
  check_call-IsLegal :
      (c : Config) (t : FuncType) (b : Bool) (vs ws : List (InValue A))
      → holds_context vs ≡ b
      → check_call c t b vs ≡ calls ws
      → IsLegal c t ws
  unfolding check_call
  check_call-IsLegal c t b vs ws h e = ground arith

  -- A call that buildActualPoller lets through has as many values as the function takes, a context
  -- only if one is configured, and a lawful MustPassRepeatedly.
  pub build_actual_poller-IsLegal :
      (is_context : A → Bool) (c : Config) (t : FuncType) (args : List (Any A))
      (vs : List (InValue A))
      → build_actual_poller is_context c (some t) args ≡ calls vs
      → IsLegal c t vs
  unfolding build_actual_poller
  build_actual_poller-IsLegal is_context c t args vs e =
      elim (Option-cases (takes_context is_context t args)) [
        | inl n ↦ ground (arith, n)
        | inr (b, p) ↦
            check_call-IsLegal c t b (in_values t b args) vs (holds_context-in_values t b args)
              (ground (arith, p))
      ]

  -- It accepts every such call.
  pub build_actual_poller-calls :
      (is_context : A → Bool) (c : Config) (t : FuncType) (args : List (Any A)) (b : Bool)
      → takes_context is_context t args ≡ some b
      → (t.num_in ≡ 0 → t.num_out ≢ 0)
      → IsLegal c t (in_values t b args)
      → build_actual_poller is_context c (some t) args ≡ calls (in_values t b args)
  unfolding build_actual_poller check_call
  build_actual_poller-calls is_context c t args b h n legal =
      ground (arith, holds_context-in_values t b args)
