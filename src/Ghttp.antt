-- ===== src/Ghttp.antt =====
-- ghttp/test_server.go and CombineHandlers of ghttp/handlers.go: the server's state and what becomes of
-- a request. Methods and paths are texts; whether two regular expressions are DeepEqual, and what they
-- match, is given. Each method holds the lock throughout, and ServeHTTP until it has chosen: the
-- settings for unhandled requests, which it reads after that, are here read in the same step. WrapHandler,
-- which takes the lock twice, is one step.
pub mod Positions
pub mod Changes
pub mod Order
pub mod Routes
mod Examples
use Prim.Native.String.{String}
use text.Mathlib.Text
use gomega.Base.{
  ℕ, zero, suc, Bool, true, false, not, ◌&&◌, Option, none, some, List, [], ◌∷◌, ◌++◌,
  if◌then◌else◌, ltb, length, get_elem?,
}

abbrev pub same_text : String → String → Bool
same_text a b = Text.◌==◌ a b

-- The regular expressions, by number.
pub record Regexps : Type 0 where
  pub deep_equal : ℕ → ℕ → Bool
  pub matches : ℕ → String → Bool

pub data RoutePath : Type 0 where
  regexp : ℕ → RoutePath
  plain : String → RoutePath

pub record Request : Type 0 where
  pub method : String
  pub path : String

-- A handler, on the request and the response and all else that it can reach.
abbrev pub Handler : Type 0 → Type 0
Handler W = Request → W → W

pub record Route (W : Type 0) : Type 0 where
  pub method : String
  pub path : RoutePath
  pub handler : Handler W

pub record Server (W : Type 0) : Type 0 where
  pub allow_unhandled_requests : Bool
  pub unhandled_request_status_code : ℕ
  pub received_requests : List Request
  pub request_handlers : List (Handler W)
  pub routed_handlers : List (Route W)
  pub calls : ℕ

-- What ServeHTTP does with a request: a handler gets it, or it is answered with a status, or the
-- assertion on an unhandled request fails.
pub data Served (W : Type 0) : Type 0 where
  handled : Handler W → Served W
  answered : ℕ → Served W
  unhandled : Served W

-- `handlers[i] = h`; `none` is the panic of an index out of range.
unfoldable pub set_at : {A : Type 0} → ℕ → A → List A → Option (List A)
set_at i a [] = none
set_at zero a (x ∷ xs) = some (a ∷ xs)
set_at (suc i) a (x ∷ xs) = elim (set_at i a xs) [ none ↦ none | some ys ↦ some (x ∷ ys) ]

module _ {W : Type 0} where
  -- new.
  unfoldable pub new_server : Server W
  new_server = record {
    allow_unhandled_requests = false;
    unhandled_request_status_code = 500;
    received_requests = [];
    request_handlers = [];
    routed_handlers = [];
    calls = 0;
  }

  unfoldable pub combine_handlers : List (Handler W) → Handler W
  combine_handlers [] req w = w
  combine_handlers (h ∷ hs) req w = combine_handlers hs req (h req w)

  unfoldable pub append_handlers : List (Handler W) → Server W → Server W
  append_handlers hs s = record s { request_handlers = s.request_handlers ++ hs }

  unfoldable pub set_handler : ℕ → Handler W → Server W → Option (Server W)
  unfolding set_at
  set_handler i h s = elim (set_at i h s.request_handlers) [
    | none ↦ none
    | some hs ↦ some (record s { request_handlers = hs })
  ]

  unfoldable pub get_handler : ℕ → Server W → Option (Handler W)
  get_handler i s = get_elem? s.request_handlers i

  unfoldable pub wrap_handler : ℕ → Handler W → Server W → Option (Server W)
  unfolding set_handler get_handler combine_handlers
  wrap_handler i h s = elim (get_handler i s) [
    | none ↦ none
    | some existing ↦ set_handler i (combine_handlers (existing ∷ h ∷ [])) s
  ]

  unfoldable pub set_allow_unhandled_requests : Bool → Server W → Server W
  set_allow_unhandled_requests allow s = record s { allow_unhandled_requests = allow }

  unfoldable pub set_unhandled_request_status_code : ℕ → Server W → Server W
  set_unhandled_request_status_code code s = record s { unhandled_request_status_code = code }

  unfoldable pub reset : Server W → Server W
  reset s = record s {
    calls = 0;
    received_requests = [];
    request_handlers = [];
    routed_handlers = [];
  }

abbrev pub same_path : Regexps → RoutePath → RoutePath → Bool
same_path re (regexp r) (regexp r') = re.deep_equal r r'
same_path re (regexp r) (plain p) = false
same_path re (plain p) (regexp r) = false
same_path re (plain p) (plain p') = same_text p p'

abbrev pub path_routes : Regexps → RoutePath → String → Bool
path_routes re (regexp x) p = re.matches x p
path_routes re (plain q) p = same_text q p

module _ {W : Type 0} (re : Regexps) where
  abbrev pub is_same_route : Route W → Route W → Bool
  is_same_route r r' = same_text r.method r'.method && same_path re r.path r'.path

  -- The loop of RouteToHandler, and the append after it.
  unfoldable pub put_route : Route W → List (Route W) → List (Route W)
  put_route rh [] = rh ∷ []
  put_route rh (r ∷ rs) =
      let rest = put_route rh rs in if is_same_route r rh then rh ∷ rs else r ∷ rest

  unfoldable pub route_to_handler : Route W → Server W → Server W
  unfolding put_route
  route_to_handler rh s = record s { routed_handlers = put_route rh s.routed_handlers }

  unfoldable pub is_routed : Route W → Request → Bool
  is_routed r req = same_text r.method req.method && path_routes re r.path req.path

  unfoldable pub handler_for_route : List (Route W) → Request → Option (Handler W)
  unfolding is_routed
  handler_for_route [] req = none
  handler_for_route (r ∷ rs) req =
      let rest = handler_for_route rs req in if is_routed r req then some r.handler else rest

  -- ServeHTTP up to the call of a handler.
  unfoldable pub serve_http : Request → Server W → Server W × Served W
  unfolding handler_for_route
  serve_http req s =
      let s' : Server W = record s { received_requests = s.received_requests ++ req ∷ [] } in
      elim (handler_for_route s.routed_handlers req) [
        | some h ↦ (s', handled h)
        | none ↦ elim (get_elem? s.request_handlers s.calls) [
          | some h ↦ (record s' { calls = suc s.calls }, handled h)
          | none ↦ (
            s',
            if s.allow_unhandled_requests
                then answered s.unhandled_request_status_code
                else unhandled,
          )
        ]
      ]

-- How a handler ends, and the deferred function of ServeHTTP: whether it writes the status 500, and
-- whether its assertion fails.
pub data Ended : Type 0 where
  returned : Ended
  panicked : Bool → Ended

unfoldable pub recover_handler : Ended → Bool × Bool
recover_handler returned = (false, false)
recover_handler (panicked wants_ginkgo_recover) = (true, not wants_ginkgo_recover)
