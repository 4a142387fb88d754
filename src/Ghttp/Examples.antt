-- ===== src/Ghttp/Examples.antt =====
-- Instances of the theorems on servers.
use Prim.Native.String.{String}
use gomega.Base.{ℕ, ◌≡◌, true, List, [], ◌∷◌, arith}
use gomega.Ghttp.{Regexps, Request, Handler, Route, plain, regexp, new_server}
use gomega.Ghttp.Order.{
  Call, request, append, route, replace, wrap, allow_unhandled, answer_unhandled, calls,
  queue_calls, queue_of, calls-queue_of,
}

-- One regular expression, which matches everything.
abbrev all_paths : Regexps
all_paths = record { deep_equal = λ r r'. true; matches = λ r p. true }

abbrev add_to : ℕ → Handler ℕ
add_to n req w = n

abbrev get : String → Request
get p = record { method = "GET"; path = p }

abbrev home : Route ℕ
home = record { method = "GET"; path = plain "/home"; handler = add_to 1 }

abbrev catch_all : Route ℕ
catch_all = record { method = "GET"; path = regexp 0; handler = add_to 2 }

abbrev session : List (Call ℕ)
session =
    append (add_to 5 ∷ add_to 6 ∷ [])
    ∷ request (get "/a")
    ∷ wrap 1 (add_to 7)
    ∷ replace 0 (add_to 8)
    ∷ replace 2 (add_to 9)
    ∷ allow_unhandled true
    ∷ answer_unhandled 404
    ∷ route home
    ∷ request (get "/home")
    ∷ request (get "/b")
    ∷ request (get "/c")
    ∷ []

calls-queue_of_example :
    queue_calls all_paths session (queue_of new_server)
    ≡ (queue_of (calls all_paths session new_server).0, (calls all_paths session new_server).1)
unfolding new_server
calls-queue_of_example = calls-queue_of all_paths session new_server (omega arith)
