-- ===== src/Routes/Accepted.antt =====
-- The messages that requests at the server leave in the queue are of accepted requests.
use mathlib.Core.Path.{subst}
use exploding_user_data_scal.Prelude.{String, ◌≡◌, refl, ap, [], inl, inr, arith}
use exploding_user_data_scal.Cache
use exploding_user_data_scal.Health.{health_check}
use exploding_user_data_scal.Queue.{queue_depth, queue_name}
use exploding_user_data_scal.Services.{Services}
use exploding_user_data_scal.Services.Action.{World}
use exploding_user_data_scal.Services.Laws.{DbLaws, BrokerLaws, BreakerLaws, JsonLaws}
use exploding_user_data_scal.Handler.CreateTransaction.{create_transaction}
use exploding_user_data_scal.Handler.CreateTransaction.Created.{create_transaction-Created}
use exploding_user_data_scal.Handler.GetTransaction.{fetch_transaction, get_transaction}
use exploding_user_data_scal.Handler.GetUserBalance.{fetch_balance, get_user_balance}
use exploding_user_data_scal.Handler.Baseline as V0
use exploding_user_data_scal.Handler.Baseline.{
  create_transaction_v0, get_transaction_v0, get_user_balance_v0,
}
use exploding_user_data_scal.Middleware.CircuitBreaker.Gate.{circuit_breaker-Gated}
use exploding_user_data_scal.Middleware.RateLimit.{Rates}
use exploding_user_data_scal.Middleware.RequestContext.{begin_request}
use exploding_user_data_scal.Server.{
  Route, get_health, get_metrics, post_transactions, post_transactions_v0, unrouted,
  get_transactions, get_users_balance, get_transactions_v0, get_users_balance_v0, Request, Web,
  WebLaws, Server,
}
use exploding_user_data_scal.Routes.{endpoint, serve}
use exploding_user_data_scal.Routes.Passing.{serve_cases}
use exploding_user_data_scal.Routes.Sent.{
  accepted_by_code, accepted_on, Grown, Subset-Grown, same-Grown, Created-Grown, Gated-Grown,
}

module _ (sv : Services) where
  get_transaction-broker :
      (t : String) (id : String) (w : World sv) → (get_transaction sv t id w).1.broker ≡ w.broker
  unfolding get_transaction fetch_transaction Cache.get Cache.set
  get_transaction-broker t id w = ground arith

  get_user_balance-broker :
      (t : String) (id : String) (w : World sv) → (get_user_balance sv t id w).1.broker ≡ w.broker
  unfolding get_user_balance fetch_balance Cache.get Cache.set
  get_user_balance-broker t id w = ground arith

  create_transaction_v0-broker :
      (t : String) (body : sv.Bytes) (w : World sv)
      → (create_transaction_v0 sv t body w).1.broker ≡ w.broker
  unfolding create_transaction_v0 V0.create_bound V0.create_new
  create_transaction_v0-broker t body w = ground arith

  get_transaction_v0-broker :
      (t : String) (id : String) (w : World sv) → (get_transaction_v0 sv t id w).1.broker ≡ w.broker
  unfolding get_transaction_v0
  get_transaction_v0-broker t id w = ground arith

  get_user_balance_v0-broker :
      (t : String) (id : String) (w : World sv)
      → (get_user_balance_v0 sv t id w).1.broker ≡ w.broker
  unfolding get_user_balance_v0
  get_user_balance_v0-broker t id w = ground arith

module _ (sv : Services) (web : Web sv) (db : DbLaws sv) (broker : BrokerLaws sv)
    (breaker : BreakerLaws sv) (json : JsonLaws sv) (laws : WebLaws sv web) where
  health_check-Grown :
      (t : String) (w : World sv) → Grown sv broker [] w.broker (health_check sv t w).1.broker
  unfolding health_check queue_depth
  health_check-Grown t w =
      Subset-Grown sv broker [] _ _ (broker.inspect-messages (queue_name sv.getenv) w.broker)

  -- What a route's handlers leave in the queue.
  pub endpoint-Grown :
      (route : Route) (t : String) (body : sv.Bytes) (w : World sv)
      → let (answer, w') = endpoint sv web route t body w in
        Grown sv broker (accepted_on route answer.code (sv.decode_create body)) w.broker w'.broker
  unfolding endpoint
  endpoint-Grown get_health t body w = health_check-Grown t w
  endpoint-Grown get_metrics t body w =
      same-Grown sv broker [] _ _ (ap (λ (v : World sv). v.broker) (laws.metrics_page-world w))
  endpoint-Grown post_transactions t body w =
      Gated-Grown sv broker json t (λ code. accepted_by_code code (sv.decode_create body)) _ w _
        (λ v.
          Created-Grown sv broker json t db breaker body v _ _
            (create_transaction-Created sv t db broker breaker body v))
        (circuit_breaker-Gated sv t (create_transaction sv t body) w)
  endpoint-Grown (get_transactions id) t body w =
      Gated-Grown sv broker json t (λ code. []) _ w _
        (λ v. same-Grown sv broker [] _ _ (get_transaction-broker sv t id v))
        (circuit_breaker-Gated sv t (get_transaction sv t id) w)
  endpoint-Grown (get_users_balance id) t body w =
      Gated-Grown sv broker json t (λ code. []) _ w _
        (λ v. same-Grown sv broker [] _ _ (get_user_balance-broker sv t id v))
        (circuit_breaker-Gated sv t (get_user_balance sv t id) w)
  endpoint-Grown post_transactions_v0 t body w =
      same-Grown sv broker _ _ _ (create_transaction_v0-broker sv t body w)
  endpoint-Grown (get_transactions_v0 id) t body w =
      same-Grown sv broker [] _ _ (get_transaction_v0-broker sv t id w)
  endpoint-Grown (get_users_balance_v0 id) t body w =
      same-Grown sv broker [] _ _ (get_user_balance_v0-broker sv t id w)
  endpoint-Grown unrouted t body w = same-Grown sv broker [] w.broker w.broker refl

  -- What a request at the server leaves in the queue: at most its own message, and only if its
  -- answer accepts it.
  pub serve-Grown :
      (rates : Rates sv) (req : Request sv.Bytes) (s : Server sv rates)
      → let (answer, s') = serve sv web rates req s in
        Grown sv broker
          (accepted_on req.route answer.code (sv.decode_create req.body))
          s.world.broker
          s'.world.broker
  serve-Grown rates req s = elim (serve_cases sv web rates req s) [
    | inl (code, same, same') ↦ same-Grown sv broker _ _ _ same'
    | inr (w, from, from', code, to, to') ↦
        let trace_id = (begin_request sv web req.trace_header s.world).0 in
        let (inner, w') = endpoint sv web req.route trace_id req.body w in
        rw (code, to')
          (subst
            (λ (b : sv.Broker).
              Grown sv broker (accepted_on req.route inner.code (sv.decode_create req.body)) b
                w'.broker)
            from' (endpoint-Grown req.route trace_id req.body w))
  ]
