-- ===== src/Ghttp/Routes.antt =====
-- Which handler a registered route gives.
use text.Mathlib.TextEquality.{eq_iff}
use Prim.Native.String.{String}
use gomega.Base.{
  ℕ, ◌≡◌, inl, inr, refl, ap, Bool, true, false, ◌&&◌, Option, none, some, List, [], ◌∷◌,
  if◌then◌else◌, arith, Bool-cases,
}
use gomega.Ghttp.{
  Handler, Route, Request, Regexps, RoutePath, regexp, plain, same_text, same_path, path_routes,
  is_same_route, put_route, is_routed, handler_for_route,
}

-- Regular expressions that are DeepEqual match the same paths.
abbrev pub IsSound : Regexps → Type 0
IsSound re = (r r' : ℕ) (p : String) → re.deep_equal r r' ≡ true → re.matches r p ≡ re.matches r' p

same_path-routes :
    (re : Regexps) (sound : IsSound re) (a b : RoutePath) (p : String)
    → same_path re a b ≡ true
    → path_routes re a p ≡ path_routes re b p
same_path-routes re sound (regexp x) (regexp y) p h = sound x y p h
same_path-routes re sound (regexp x) (plain q) p h = absurd (cc)
same_path-routes re sound (plain q) (regexp y) p h = absurd (cc)
same_path-routes re sound (plain q) (plain q') p h = ap (λ t. same_text t p) ((eq_iff q q').0 h)

both_true : {a b : Bool} → (a && b) ≡ true → (a ≡ true) × (b ≡ true)
both_true {a = true} h = (refl, h)
both_true {a = false} h = absurd (cc)

module _ {W : Type 0} (re : Regexps) where
  -- The route that takes a request.
  abbrev pub first_route : List (Route W) → Request → Option (Route W)
  first_route [] req = none
  first_route (r ∷ rs) req =
      let rest = first_route rs req in if is_routed re r req then some r else rest

  -- The handler that a request gets once rh is registered: that of the route that took it before, which
  -- rh replaces if it is the same, or of rh if none did and rh takes it.
  abbrev pub rerouted : Route W → Option (Route W) → Request → Option (Handler W)
  rerouted rh none req = if is_routed re rh req then some rh.handler else none
  rerouted rh (some r) req = some (if is_same_route re r rh then rh.handler else r.handler)

module _ {W : Type 0} (re : Regexps) (sound : IsSound re) where
  is_same_route-routed :
      (r rh : Route W) (req : Request)
      → is_same_route re r rh ≡ true
      → is_routed re r req ≡ is_routed re rh req
  unfolding is_routed
  is_same_route-routed r rh req h =
      let (methods, paths) = both_true h in
      λ i.
        same_text ((eq_iff r.method rh.method).0 methods i) req.method
        && same_path-routes re sound r.path rh.path req.path paths i

  -- A route that does not take the request changes nothing.
  rerouted-idle :
      (rh : Route W) (rs : List (Route W)) (req : Request)
      → is_routed re rh req ≡ false
      → rerouted re rh (first_route re rs req) req ≡ handler_for_route re rs req
  unfolding handler_for_route
  rerouted-idle rh [] req h = ground (arith, h)
  rerouted-idle rh (r ∷ rs) req h = elim (Bool-cases (is_routed re r req)) [
    | inr passed ↦ ground (arith, passed, rerouted-idle rh rs req h)
    | inl taken ↦ elim (Bool-cases (is_same_route re r rh)) [
      | inl again ↦ absurd (ground (arith, taken, h, is_same_route-routed r rh req again))
      | inr other ↦ ground (arith, taken, other)
    ]
  ]

  rerouted-same :
      (rh r : Route W) (rs : List (Route W)) (req : Request)
      → is_same_route re r rh ≡ true
      → handler_for_route re (rh ∷ rs) req ≡ rerouted re rh (first_route re (r ∷ rs) req) req
  unfolding handler_for_route
  rerouted-same rh r rs req h = elim (Bool-cases (is_routed re rh req)) [
    | inl taken ↦ ground (arith, taken, h, is_same_route-routed r rh req h)
    | inr passed ↦
        ground (arith, passed, h, is_same_route-routed r rh req h, rerouted-idle rh rs req passed)
  ]

  -- After RouteToHandler a request gets the handler of the first route that took it before, which the new
  -- one replaces if its method and path are the same, or the new handler if no route took it and the
  -- new one does.
  pub put_route-rerouted :
      (rh : Route W) (rs : List (Route W)) (req : Request)
      → handler_for_route re (put_route re rh rs) req ≡ rerouted re rh (first_route re rs req) req
  unfolding put_route handler_for_route
  put_route-rerouted rh [] req = refl
  put_route-rerouted rh (r ∷ rs) req = elim (Bool-cases (is_same_route re r rh)) [
    | inl again ↦ ground (arith, again, rerouted-same rh r rs req again)
    | inr other ↦ ground (arith, other, put_route-rerouted rh rs req)
  ]
