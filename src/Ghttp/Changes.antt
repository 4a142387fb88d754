-- ===== src/Ghttp/Changes.antt =====
-- SetHandler and WrapHandler as changes of the list of handlers.
use gomega.Base.{
  ◌≡◌, inl, inr, refl, ap, ◌∙◌, ℕ, Option, none, some, List, Option-cases, get_elem?, arith,
}
use gomega.Ghttp.{Handler, Server, set_at, set_handler, wrap_handler, get_handler, combine_handlers}
use gomega.Ghttp.Positions.{alter, alter-none, set_at-alter, set_at-get_elem?}

module _ {W : Type 0} where
  abbrev pub with_handlers : Server W → Option (List (Handler W)) → Option (Server W)
  with_handlers s none = none
  with_handlers s (some hs) = some (record s { request_handlers = hs })

  set_handler-set_at :
      (i : ℕ) (k : Handler W) (s : Server W)
      → set_handler i k s ≡ with_handlers s (set_at i k s.request_handlers)
  unfolding set_handler
  set_handler-set_at i k s = elim (Option-cases (set_at i k s.request_handlers)) [
    | inl bad ↦ ground (arith, bad)
    | inr (hs, good) ↦ ground (arith, good)
  ]

  pub set_handler-alter :
      (i : ℕ) (k : Handler W) (s : Server W)
      → set_handler i k s ≡ with_handlers s (alter (λ old. k) i s.request_handlers)
  set_handler-alter i k s =
      set_handler-set_at i k s ∙ ap (with_handlers s) (set_at-alter i k s.request_handlers)

  -- The first handler, and then the other.
  abbrev pub then_also : Handler W → Handler W → Handler W
  then_also k old req w = k req (old req w)

  wrap_handler-some :
      (i : ℕ) (k old : Handler W) (s : Server W)
      → get_elem? s.request_handlers i ≡ some old
      → wrap_handler i k s ≡ set_handler i (then_also k old) s
  unfolding wrap_handler get_handler combine_handlers
  wrap_handler-some i k old s there = rw (wrap_handler, get_handler, there) refl

  pub wrap_handler-alter :
      (i : ℕ) (k : Handler W) (s : Server W)
      → wrap_handler i k s ≡ with_handlers s (alter (then_also k) i s.request_handlers)
  unfolding wrap_handler get_handler
  wrap_handler-alter i k s = elim (Option-cases (get_elem? s.request_handlers i)) [
    | inl bad ↦ rw (alter-none (then_also k) i s.request_handlers bad) (ground (arith, bad))
    | inr (old, there) ↦
        wrap_handler-some i k old s there
        ∙ (set_handler-set_at i (then_also k old) s
            ∙ ap (with_handlers s) (set_at-get_elem? (then_also k) i old s.request_handlers there))
  ]
