-- ===== src/Routes.antt =====
-- api/main.go: the middleware and the routes that `main` gives to gin. `gin.Recovery` stands between
-- the limiter and the routes; no handler of the model panics, so it passes every request on.
pub mod Quiet
pub mod Accounting
pub mod Refusals
pub mod Unpaid
pub mod Payments
pub mod Sent
pub mod Passing
pub mod Accepted
pub mod Posting
use exploding_user_data_scal.Prelude.{String, List, [], ◌∷◌}
use exploding_user_data_scal.Services.{Services}
use exploding_user_data_scal.Services.Action.{World, Action, pure}
use exploding_user_data_scal.Handler.{Response}
use exploding_user_data_scal.Handler.CreateTransaction.{create_transaction}
use exploding_user_data_scal.Handler.GetTransaction.{get_transaction}
use exploding_user_data_scal.Handler.GetUserBalance.{get_user_balance}
use exploding_user_data_scal.Handler.Baseline.{
  create_transaction_v0, get_transaction_v0, get_user_balance_v0,
}
use exploding_user_data_scal.Health.{health_check}
use exploding_user_data_scal.Middleware.CircuitBreaker.{circuit_breaker}
use exploding_user_data_scal.Middleware.RateLimit.{Rates, rate_limit}
use exploding_user_data_scal.Middleware.RequestContext.{request_context}
use exploding_user_data_scal.Middleware.Logger.{logger}
use exploding_user_data_scal.Server.{
  Route, get_health, get_metrics, post_transactions, post_transactions_v0, unrouted,
  get_transactions, get_users_balance, get_transactions_v0, get_users_balance_v0, Request, Web,
  Server, Serve,
}

module _ (sv : Services) (web : Web sv) where
  -- The handlers of the routes; those of the group `api` stand behind the circuit breaker.
  unfoldable pub endpoint : Route → String → sv.Bytes → Action sv Response
  endpoint get_health trace_id body = health_check sv trace_id
  endpoint get_metrics trace_id body = web.metrics_page
  endpoint post_transactions trace_id body =
      circuit_breaker sv trace_id (create_transaction sv trace_id body)
  endpoint (get_transactions id) trace_id body =
      circuit_breaker sv trace_id (get_transaction sv trace_id id)
  endpoint (get_users_balance id) trace_id body =
      circuit_breaker sv trace_id (get_user_balance sv trace_id id)
  endpoint post_transactions_v0 trace_id body = create_transaction_v0 sv trace_id body
  endpoint (get_transactions_v0 id) trace_id body = get_transaction_v0 sv trace_id id
  endpoint (get_users_balance_v0 id) trace_id body = get_user_balance_v0 sv trace_id id
  endpoint unrouted trace_id body = pure web.not_found

  module _ (rates : Rates sv) where
    -- From `RateLimit` on.
    unfoldable pub limited : Request sv.Bytes → String → Serve sv rates
    limited req trace_id s =
        let (answer, l, w) =
          rate_limit sv rates trace_id req.client_ip (endpoint req.route trace_id req.body)
            s.limiters s.world in
        (answer, record s { limiters = l; world = w })

    -- A request at the server, through the global middleware in its order.
    unfoldable pub serve : Request sv.Bytes → Serve sv rates
    serve req =
        request_context sv web rates req
          (λ trace_id. logger sv web rates req trace_id (limited req trace_id))

    -- Requests one after the other.
    unfoldable pub serve_all : List (Request sv.Bytes) → Server sv rates → Server sv rates
    serve_all [] s = s
    serve_all (req ∷ reqs) s = serve_all reqs (serve req s).1
