-- ===== src/Ghttp/Order.antt =====
-- The appended handlers as a queue.
use gomega.Base.{
  Bool, Option, ltb, ◌-◌, ℕ, suc, ◌≤◌, ◌≡◌, inl, inr, refl, sym, ap, ◌∙◌, none, some, List, [], ◌∷◌,
  ◌++◌, if◌then◌else◌, arith, Option-cases, length, drop, get_elem?, length-append,
}
use gomega.Ghttp.Positions.{drop-none, drop-some, get_elem?-lt, drop-append, alter, alter-drop}
use gomega.Ghttp.Changes.{with_handlers, then_also, set_handler-alter, wrap_handler-alter}
use gomega.Ghttp.{
  set_handler, wrap_handler, set_allow_unhandled_requests, set_unhandled_request_status_code,
  Handler, Route, Request, Regexps, Server, Served, handled, answered, unhandled, append_handlers,
  reset, route_to_handler, put_route, handler_for_route, serve_http,
}

-- What happens to a server.
pub data Call (W : Type 0) : Type 0 where
  request : Request → Call W
  append : List (Handler W) → Call W
  route : Route W → Call W
  replace wrap : ℕ → Handler W → Call W
  allow_unhandled : Bool → Call W
  answer_unhandled : ℕ → Call W
  restart : Call W

-- What a call gives: what becomes of a request, or the panic of an index out of range.
pub data Answer (W : Type 0) : Type 0 where
  served : Served W → Answer W
  out_of_range : Answer W

-- A server that keeps the handlers that still wait, how many were taken before them, and what it
-- answers without one.
pub record Queue (W : Type 0) : Type 0 where
  pub routes : List (Route W)
  pub waiting : List (Handler W)
  pub taken : ℕ
  pub allows : Bool
  pub status : ℕ
  pub received : List Request

module _ {W : Type 0} where
  -- A panic leaves the server as it was.
  abbrev changed : Server W → Option (Server W) → Server W × List (Answer W)
  changed s none = (s, out_of_range ∷ [])
  changed s (some s') = (s', [])

  abbrev pub changed_queue : Queue W → Option (List (Handler W)) → Queue W × List (Answer W)
  changed_queue q none = (q, out_of_range ∷ [])
  changed_queue q (some hs) = (record q { waiting = hs }, [])

  -- The change of the handler with an index: one that was taken already is not to be seen again, any
  -- other is changed where it waits.
  unfoldable pub change_waiting : (Handler W → Handler W) → ℕ → Queue W → Queue W × List (Answer W)
  change_waiting f i q =
      let waits = changed_queue q (alter f (i - q.taken) q.waiting) in
      if ltb i q.taken then (q, []) else waits

module _ {W : Type 0} (re : Regexps) where
  unfoldable pub call : Call W → Server W → Server W × List (Answer W)
  unfolding serve_http append_handlers route_to_handler reset set_handler wrap_handler
      set_allow_unhandled_requests set_unhandled_request_status_code
  call (request req) s = let (s', o) = serve_http re req s in (s', served o ∷ [])
  call (append hs) s = (append_handlers hs s, [])
  call (route r) s = (route_to_handler re r s, [])
  call (replace i h) s = changed s (set_handler i h s)
  call (wrap i h) s = changed s (wrap_handler i h s)
  call (allow_unhandled allow) s = (set_allow_unhandled_requests allow s, [])
  call (answer_unhandled code) s = (set_unhandled_request_status_code code s, [])
  call restart s = (reset s, [])

  abbrev pub take_next : Request → Queue W → List (Handler W) → Queue W × List (Answer W)
  take_next req q [] = (
    record q { received = q.received ++ req ∷ [] },
    served (if q.allows then answered q.status else unhandled) ∷ [],
  )
  take_next req q (h ∷ hs) = (
    record q { received = q.received ++ req ∷ []; waiting = hs; taken = suc q.taken },
    served (handled h) ∷ [],
  )

  -- A routed request takes no handler from the queue, any other the first one.
  unfoldable pub queue_call : Call W → Queue W → Queue W × List (Answer W)
  queue_call (request req) q = elim (handler_for_route re q.routes req) [
    | some h ↦ (record q { received = q.received ++ req ∷ [] }, served (handled h) ∷ [])
    | none ↦ take_next req q q.waiting
  ]
  queue_call (append hs) q = (record q { waiting = q.waiting ++ hs }, [])
  queue_call (route r) q = (record q { routes = put_route re r q.routes }, [])
  queue_call (replace i h) q = change_waiting (λ old. h) i q
  queue_call (wrap i h) q = change_waiting (then_also h) i q
  queue_call (allow_unhandled allow) q = (record q { allows = allow }, [])
  queue_call (answer_unhandled code) q = (record q { status = code }, [])
  queue_call restart q = (record q { routes = []; waiting = []; taken = 0; received = [] }, [])

  unfoldable pub calls : List (Call W) → Server W → Server W × List (Answer W)
  calls [] s = (s, [])
  calls (c ∷ cs) s = let (s', os) = call c s in let (s'', os') = calls cs s' in (s'', os ++ os')

  unfoldable pub queue_calls : List (Call W) → Queue W → Queue W × List (Answer W)
  queue_calls [] q = (q, [])
  queue_calls (c ∷ cs) q =
      let (q', os) = queue_call c q in let (q'', os') = queue_calls cs q' in (q'', os ++ os')

module _ {W : Type 0} where
  -- The queue of a server.
  abbrev pub queue_of : Server W → Queue W
  queue_of s = record {
    routes = s.routed_handlers;
    waiting = drop s.calls s.request_handlers;
    taken = s.calls;
    allows = s.allow_unhandled_requests;
    status = s.unhandled_request_status_code;
    received = s.received_requests;
  }

  abbrev pub InRange : Server W → Type 0
  InRange s = s.calls ≤ length s.request_handlers

module _ {W : Type 0} where
  -- A change of a handler, on a server and on its queue.
  changed-queue_of :
      (f : Handler W → Handler W) (i : ℕ) (s : Server W)
      → InRange s
      → let (s', answers) = changed s (with_handlers s (alter f i s.request_handlers)) in
        InRange s' × (change_waiting f i (queue_of s) ≡ (queue_of s', answers))
  unfolding change_waiting
  changed-queue_of f i s h = elim (alter-drop f s.calls i s.request_handlers h) [
    | inl (le, bad, rest) ↦ (ground (arith, h, bad), ground (arith, le, bad, rest))
    | inr (ys, good, size, inl (lt, same)) ↦
        (ground (arith, h, good, size), ground (arith, lt, good, same))
    | inr (ys, good, size, inr (le, rest)) ↦
        (ground (arith, h, good, size), ground (arith, le, good, rest))
  ]

module _ {W : Type 0} (re : Regexps) where
  queue_call-free :
      (req : Request) (q : Queue W)
      → handler_for_route re q.routes req ≡ none
      → queue_call re (request req) q ≡ take_next re req q q.waiting
  unfolding queue_call
  queue_call-free req q h = ground (arith, h)

  -- One call on a server, and on its queue.
  call-queue_of :
      (c : Call W) (s : Server W)
      → InRange s
      → InRange (call re c s).0
        × (queue_call re c (queue_of s) ≡ (queue_of (call re c s).0, (call re c s).1))
  unfolding call queue_call serve_http append_handlers route_to_handler reset
      set_allow_unhandled_requests set_unhandled_request_status_code
  call-queue_of (request req) s h =
      elim (Option-cases (handler_for_route re s.routed_handlers req)) [
        | inr (k, routed) ↦ (ground (arith, h, routed), ground (arith, routed))
        | inl free ↦ elim (Option-cases (get_elem? s.request_handlers s.calls)) [
          | inl empty ↦ (
            ground (arith, h, free, empty),
            queue_call-free req (queue_of s) free
                ∙ (ap (take_next re req (queue_of s)) (drop-none s.calls s.request_handlers empty)
                    ∙ ground (arith, free, empty)),
          )
          | inr (k, there) ↦ (
            ground (arith, h, free, there, get_elem?-lt s.calls s.request_handlers k there),
            queue_call-free req (queue_of s) free
                ∙ (ap (take_next re req (queue_of s)) (drop-some s.calls s.request_handlers k there)
                    ∙ ground (arith, free, there)),
          )
        ]
      ]
  call-queue_of (append hs) s h = (
    omega (arith, length-append s.request_handlers hs),
    ap (λ w. (record (queue_of s) { waiting = w }, []))
        (sym (drop-append s.calls s.request_handlers hs h)),
  )
  call-queue_of (route r) s h = (h, refl)
  call-queue_of (replace i k) s h = rw (set_handler-alter i k s) (changed-queue_of (λ old. k) i s h)
  call-queue_of (wrap i k) s h =
      rw (wrap_handler-alter i k s) (changed-queue_of (then_also k) i s h)
  call-queue_of (allow_unhandled allow) s h = (h, refl)
  call-queue_of (answer_unhandled code) s h = (h, refl)
  call-queue_of restart s h = (omega arith, refl)

  -- Whatever requests, AppendHandlers, SetHandler, WrapHandler, RouteToHandler, Reset and settings for
  -- unhandled requests reach a server, its answers and panics, the requests that it received and the
  -- handlers that still wait are those of a queue: a request that a route takes is answered by the
  -- route's handler, any other by the first handler that waits, which is taken off the queue, or as the
  -- settings say when none waits; SetHandler and WrapHandler change a handler where it waits, do
  -- nothing to one that was taken, and panic beyond the last.
  pub calls-queue_of :
      (cs : List (Call W)) (s : Server W)
      → InRange s
      → queue_calls re cs (queue_of s) ≡ (queue_of (calls re cs s).0, (calls re cs s).1)
  unfolding calls queue_calls
  calls-queue_of [] s h = refl
  calls-queue_of (c ∷ cs) s h =
      let (in_range, step) = call-queue_of c s h in
      ap (λ r. let (q', os) = r in let (q'', os') = queue_calls re cs q' in (q'', os ++ os')) step
      ∙ ap (λ r. (r.0, (call re c s).1 ++ r.1)) (calls-queue_of cs (call re c s).0 in_range)
