-- ===== src/Routes/Refusals.antt =====
-- Requests that the middleware refuses.
use exploding_user_data_scal.Prelude.{
  String, Bool, true, false, ◌≡◌, ◌≢◌, refl, ap, ◌∙◌, arith, is-ne,
}
use exploding_user_data_scal.Services.{Services}
use exploding_user_data_scal.Services.Action.{World, Action}
use exploding_user_data_scal.Handler.{Response}
use exploding_user_data_scal.Middleware.CircuitBreaker.{is_open, circuit_breaker}
use exploding_user_data_scal.Middleware.RateLimit.{Rates, configured}
use exploding_user_data_scal.Middleware.RateLimit.WellFormed.{IsWellFormed, limiter_of}
use exploding_user_data_scal.Middleware.RateLimit.Isolation.{or_new, rate_limit-Decides}
use exploding_user_data_scal.Middleware.RequestContext.{
  begin_request, generate_trace_id, request_context, with_trace,
}
use exploding_user_data_scal.Middleware.Logger.{report, logger}
use exploding_user_data_scal.Server.{
  Route, get_health, get_metrics, post_transactions, post_transactions_v0, unrouted,
  get_transactions, get_users_balance, get_transactions_v0, get_users_balance_v0, Request, Web,
  Server,
}
use exploding_user_data_scal.Routes.{endpoint, limited, serve}

-- The routes of the group `api`.
abbrev pub is_api : Route → Bool
is_api post_transactions = true
is_api (get_transactions id) = true
is_api (get_users_balance id) = true
is_api other = false

module _ (sv : Services) (web : Web sv) (rates : Rates sv) where
  -- Nothing of the cache, the tables, the queue or the breaker has changed.
  abbrev pub Untouched : World sv → World sv → Type 0
  Untouched w w' =
      (w'.redis ≡ w.redis) × (w'.db ≡ w.db) × (w'.broker ≡ w.broker) × (w'.breaker ≡ w.breaker)

  pub begin_request-Untouched :
      (header : String) (w : World sv) → Untouched w (begin_request sv web header w).1
  unfolding generate_trace_id
  begin_request-Untouched header w = ground arith

  module _ (req : Request sv.Bytes) (s : Server sv rates) where
    -- The state at `RateLimit`: the middleware in front has read the clock.
    abbrev pub at_limiter : World sv
    at_limiter =
        let w = (begin_request sv web req.trace_header s.world).1 in
        record w { host = (sv.now w.host).1 }

    -- What the client's limiter says to the request, after `getLimiter` has read the clock.
    abbrev pub asked : Bool × rates.Limiter × sv.Host
    asked =
        rates.allow (or_new (configured sv rates) (limiter_of s.limiters req.client_ip))
          (sv.now at_limiter.host).1

    -- A request that its client's limiter refuses is answered by 429, on every route, /health and
    -- /v0 as well, and nothing of the cache, the tables, the queue or the breaker changes.
    pub serve_refused :
        IsWellFormed s.limiters
        → asked.0 ≡ false
        → let (answer, s') = serve sv web rates req s in
          (answer.code ≡ 429) × Untouched s.world s'.world
    unfolding serve request_context logger report limited
    serve_refused formed no_token =
        let (trace_id, w) = begin_request sv web req.trace_header s.world in
        let (decides, others, formed') =
          rate_limit-Decides sv rates trace_id req.client_ip
            (endpoint sv web req.route trace_id req.body) s.limiters at_limiter formed in
        let (said, state) = decides.2 no_token in
        let (r, d, b, k) = begin_request-Untouched req.trace_header s.world in
        (
          ap (λ (a : Response). a.code) said,
          (
            ap (λ (v : World sv). v.redis) state ∙ r,
            ap (λ (v : World sv). v.db) state ∙ d,
            ap (λ (v : World sv). v.broker) state ∙ b,
            ap (λ (v : World sv). v.breaker) state ∙ k,
          ),
        )

  -- The data of the services are the same; the breaker may have moved.
  abbrev pub DataUntouched : World sv → World sv → Type 0
  DataUntouched w w' = (w'.redis ≡ w.redis) × (w'.db ≡ w.db) × (w'.broker ≡ w.broker)

  circuit_breaker-open :
      (trace_id : String) (rest : Action sv Response) (w : World sv)
      → sv.getenv "ENV" ≢ "test"
      → is_open (sv.cb_state w.breaker).0 ≡ true
      → let (answer, w') = circuit_breaker sv trace_id rest w in
        (answer.code ≡ 503) × DataUntouched w w'
  unfolding circuit_breaker
  circuit_breaker-open trace_id rest w live broken =
      rw (is-ne (sv.getenv "ENV") "test" live) (rw broken (refl, (refl, refl, refl)))

  endpoint-open :
      (route : Route) (trace_id : String) (body : sv.Bytes) (w : World sv)
      → is_api route ≡ true
      → sv.getenv "ENV" ≢ "test"
      → is_open (sv.cb_state w.breaker).0 ≡ true
      → let (answer, w') = endpoint sv web route trace_id body w in
        (answer.code ≡ 503) × DataUntouched w w'
  unfolding endpoint
  endpoint-open post_transactions t body w api = circuit_breaker-open t _ w
  endpoint-open (get_transactions id) t body w api = circuit_breaker-open t _ w
  endpoint-open (get_users_balance id) t body w api = circuit_breaker-open t _ w
  endpoint-open get_health t body w api = λ live broken. cc api
  endpoint-open get_metrics t body w api = λ live broken. cc api
  endpoint-open post_transactions_v0 t body w api = λ live broken. cc api
  endpoint-open (get_transactions_v0 id) t body w api = λ live broken. cc api
  endpoint-open (get_users_balance_v0 id) t body w api = λ live broken. cc api
  endpoint-open unrouted t body w api = λ live broken. cc api

  module _ (req : Request sv.Bytes) (s : Server sv rates) where
    -- The state at the route's handlers, where the limiter lets the request on.
    abbrev pub at_route : World sv
    at_route = record (at_limiter req s) { host = (asked req s).2 }

    -- A request that the limiter lets on is answered by its route.
    pub serve_allowed :
        IsWellFormed s.limiters
        → (asked req s).0 ≡ true
        → let (answer, s') = serve sv web rates req s in
          let trace_id = (begin_request sv web req.trace_header s.world).0 in
          let (inner, w') = endpoint sv web req.route trace_id req.body at_route in
          (answer ≡ with_trace trace_id inner) × DataUntouched w' s'.world
    unfolding serve request_context logger report limited
    serve_allowed formed token =
        let trace_id = (begin_request sv web req.trace_header s.world).0 in
        let (decides, others, formed') =
          rate_limit-Decides sv rates trace_id req.client_ip
            (endpoint sv web req.route trace_id req.body) s.limiters (at_limiter req s) formed in
        let same = decides.1 token in
        (
          ap (λ (p : Response × World sv). with_trace trace_id p.0) same,
          (
            ap (λ (p : Response × World sv). p.1.redis) same,
            ap (λ (p : Response × World sv). p.1.db) same,
            ap (λ (p : Response × World sv). p.1.broker) same,
          ),
        )

    -- While the breaker is open, outside the environment "test", a request to a route of the group
    -- `api` that the limiter lets on is answered by 503, and nothing of the cache, the tables or
    -- the queue changes.
    pub serve-open :
        IsWellFormed s.limiters
        → (asked req s).0 ≡ true
        → is_api req.route ≡ true
        → sv.getenv "ENV" ≢ "test"
        → is_open (sv.cb_state s.world.breaker).0 ≡ true
        → let (answer, s') = serve sv web rates req s in
          (answer.code ≡ 503) × DataUntouched s.world s'.world
    serve-open formed token api live broken =
        let trace_id = (begin_request sv web req.trace_header s.world).0 in
        let (said, (r, d, b)) = serve_allowed formed token in
        let (r0, d0, b0, k0) = begin_request-Untouched req.trace_header s.world in
        let (refused, (r1, d1, b1)) =
          endpoint-open req.route trace_id req.body at_route api live
            (ap (λ k. is_open (sv.cb_state k).0) k0 ∙ broken) in
        (ap (λ (a : Response). a.code) said ∙ refused, (r ∙ r1 ∙ r0, d ∙ d1 ∙ d0, b ∙ b1 ∙ b0))
