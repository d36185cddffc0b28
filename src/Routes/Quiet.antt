-- ===== src/Routes/Quiet.antt =====
-- No handler counts a request: the middleware does.
use exploding_user_data_scal.Prelude.{
  String, Bool, true, false, ◌≡◌, refl, ◌∙◌, ap, Option, none, some, arith, ◌∷◌,
}
use exploding_user_data_scal.Metrics.{requests, cache_misses_total}
use exploding_user_data_scal.Values.{CreateTransactionRequest, Result, ok, err}
use exploding_user_data_scal.Cache
use exploding_user_data_scal.Cache.Keys.{transaction_key, user_balance_key}
use exploding_user_data_scal.Queue
use exploding_user_data_scal.Services.{Services}
use exploding_user_data_scal.Middleware.CircuitBreaker.{circuit_breaker}
use exploding_user_data_scal.Health.{health_check}
use exploding_user_data_scal.Middleware.RateLimit.{
  Rates, Limiters, rate_limit, get_limiter, unless_limited,
}
use exploding_user_data_scal.Server.{
  Web, WebLaws, Route, get_health, get_metrics, post_transactions, post_transactions_v0, unrouted,
  get_transactions, get_users_balance, get_transactions_v0, get_users_balance_v0,
}
use exploding_user_data_scal.Routes.{endpoint}
use exploding_user_data_scal.Services.Sql.{read, user_active}
use exploding_user_data_scal.Handler.GetUserBalance.{
  get_user_balance, fetch_balance, keep_balance, query_user_balance,
}
use exploding_user_data_scal.Handler.Baseline as Baseline
use exploding_user_data_scal.Values.{TransactionResponse, UserBalanceResponse}
use exploding_user_data_scal.Services.Action.{
  World, Action, breaker_state, on_breaker, requests-changes,
}
use exploding_user_data_scal.Handler.{Response}
use exploding_user_data_scal.Handler.CreateTransaction.{
  create_transaction, create_bound, create_active, find_duplicate, create_new, remember, enqueue,
  bind, unless_duplicate, after_insert, after_bind,
}
use exploding_user_data_scal.Handler.GetTransaction.{
  get_transaction, fetch_transaction, keep_transaction, query_transaction,
}

module _ (sv : Services) where
  -- An action that counts no request.
  abbrev pub Quiet : {A : Type 0} → Action sv A → Type 0
  Quiet m = (w : World sv) → requests (m w).1.metrics ≡ requests w.metrics

  module _ (t : String) where
    find_duplicate-Quiet : (req : CreateTransactionRequest) → Quiet (find_duplicate sv t req)
    unfolding find_duplicate Cache.get
    find_duplicate-Quiet req w = ground arith

    remember-Quiet : (req : CreateTransactionRequest) (id : String) → Quiet (remember sv t req id)
    unfolding remember Cache.set
    remember-Quiet req id w = ground arith

    enqueue-Quiet :
        (req : CreateTransactionRequest) (id ref : String) → Quiet (enqueue sv t req id ref)
    unfolding enqueue Queue.publish requests
    enqueue-Quiet req id ref w = ground arith

    after_insert-Quiet :
        (req : CreateTransactionRequest) (id ref : String) (inserted : Result (Unit {0}))
        → Quiet (after_insert sv t req id ref inserted)
    after_insert-Quiet req id ref (err e) w = refl
    after_insert-Quiet req id ref (ok done) w =
        enqueue-Quiet req id ref (remember sv t req id w).1 ∙ remember-Quiet req id w

    create_new-Quiet : (req : CreateTransactionRequest) → Quiet (create_new sv t req)
    unfolding create_new
    create_new-Quiet req w = after_insert-Quiet req _ _ _ _ ∙ requests-changes _ _

    unless_duplicate-Quiet :
        (req : CreateTransactionRequest) (seen : Option String)
        → Quiet (unless_duplicate sv t req seen)
    unfolding requests
    unless_duplicate-Quiet req (some id) w = refl
    unless_duplicate-Quiet req none w = create_new-Quiet req w

    create_active-Quiet : (req : CreateTransactionRequest) → Quiet (create_active sv t req)
    unfolding create_active
    create_active-Quiet req w =
        let (seen, w') = find_duplicate sv t req w in
        unless_duplicate-Quiet req seen w' ∙ find_duplicate-Quiet req w

    create_bound-Quiet : (req : CreateTransactionRequest) → Quiet (create_bound sv t req)
    unfolding create_bound
    create_bound-Quiet req w = ground (
      arith,
      create_active-Quiet req (record w { db = (sv.query read (user_active req.user_id) w.db).1 }),
    )

    after_bind-Quiet : (bound : Result CreateTransactionRequest) → Quiet (after_bind sv t bound)
    after_bind-Quiet (ok req) w = create_bound-Quiet req w
    after_bind-Quiet (err e) w = refl

    pub create_transaction-Quiet : (body : sv.Bytes) → Quiet (create_transaction sv t body)
    unfolding create_transaction
    create_transaction-Quiet body w = after_bind-Quiet (bind sv body) w

    keep_transaction-Quiet :
        (id : String) (row : Result TransactionResponse) → Quiet (keep_transaction sv t id row)
    unfolding Cache.set
    keep_transaction-Quiet id row w = ground arith

    fetch_transaction-Quiet : (id : String) → Quiet (fetch_transaction sv t id)
    unfolding fetch_transaction requests
    fetch_transaction-Quiet id w =
        let w0 = record w { metrics = cache_misses_total "transaction" ∷ w.metrics } in
        let (row, w1) = on_breaker sv TransactionResponse (query_transaction sv id) w0 in
        keep_transaction-Quiet id row w1 ∙ requests-changes _ _

    pub get_transaction-Quiet : (id : String) → Quiet (get_transaction sv t id)
    unfolding get_transaction requests Cache.get
    get_transaction-Quiet id w =
        let w1 = record w { redis = (sv.redis_get (transaction_key id) w.redis).1 } in
        let w2 = record w1 { metrics = cache_misses_total "transaction" ∷ w.metrics } in
        ground (arith, fetch_transaction-Quiet id w1, fetch_transaction-Quiet id w2)

    keep_balance-Quiet :
        (id : String) (row : Result UserBalanceResponse) → Quiet (keep_balance sv t id row)
    unfolding Cache.set
    keep_balance-Quiet id row w = ground arith

    fetch_balance-Quiet : (id : String) → Quiet (fetch_balance sv t id)
    unfolding fetch_balance requests
    fetch_balance-Quiet id w =
        let w0 = record w { metrics = cache_misses_total "user_balance" ∷ w.metrics } in
        let (row, w1) = on_breaker sv UserBalanceResponse (query_user_balance sv id) w0 in
        keep_balance-Quiet id row w1 ∙ requests-changes _ _

    pub get_user_balance-Quiet : (id : String) → Quiet (get_user_balance sv t id)
    unfolding get_user_balance requests Cache.get
    get_user_balance-Quiet id w =
        let w1 = record w { redis = (sv.redis_get (user_balance_key id) w.redis).1 } in
        let w2 = record w1 { metrics = cache_misses_total "user_balance" ∷ w.metrics } in
        ground (arith, fetch_balance-Quiet id w1, fetch_balance-Quiet id w2)

    pub create_transaction_v0-Quiet :
        (body : sv.Bytes) → Quiet (Baseline.create_transaction_v0 sv t body)
    unfolding Baseline.create_transaction_v0 Baseline.create_bound Baseline.create_new
    create_transaction_v0-Quiet body w = ground arith

    pub get_transaction_v0-Quiet : (id : String) → Quiet (Baseline.get_transaction_v0 sv t id)
    unfolding Baseline.get_transaction_v0
    get_transaction_v0-Quiet id w = ground arith

    pub get_user_balance_v0-Quiet : (id : String) → Quiet (Baseline.get_user_balance_v0 sv t id)
    unfolding Baseline.get_user_balance_v0
    get_user_balance_v0-Quiet id w = ground arith

    health_check-Quiet : Quiet (health_check sv t)
    unfolding health_check Queue.queue_depth
    health_check-Quiet w = refl

    circuit_breaker-Quiet :
        (rest : Action sv Response) → Quiet rest → Quiet (circuit_breaker sv t rest)
    unfolding circuit_breaker requests
    circuit_breaker-Quiet rest quiet w =
        let changes = sv.cb_changes w.breaker (sv.cb_state w.breaker).1 in
        ground (arith, quiet w, quiet (breaker_state sv w).1, requests-changes changes w.metrics)

    endpoint-Quiet :
        (web : Web sv)
        → WebLaws sv web
        → (route : Route) (body : sv.Bytes) → Quiet (endpoint sv web route t body)
    unfolding endpoint
    endpoint-Quiet web laws get_health body w = health_check-Quiet w
    endpoint-Quiet web laws get_metrics body w =
        ap (λ (v : World sv). requests v.metrics) (laws.metrics_page-world w)
    endpoint-Quiet web laws post_transactions body w =
        circuit_breaker-Quiet _ (create_transaction-Quiet body) w
    endpoint-Quiet web laws (get_transactions id) body w =
        circuit_breaker-Quiet _ (get_transaction-Quiet id) w
    endpoint-Quiet web laws (get_users_balance id) body w =
        circuit_breaker-Quiet _ (get_user_balance-Quiet id) w
    endpoint-Quiet web laws post_transactions_v0 body w = create_transaction_v0-Quiet body w
    endpoint-Quiet web laws (get_transactions_v0 id) body w = get_transaction_v0-Quiet id w
    endpoint-Quiet web laws (get_users_balance_v0 id) body w = get_user_balance_v0-Quiet id w
    endpoint-Quiet web laws unrouted body w = refl

    -- Nor does the limiter, whether the request goes on or not.
    pub rate_limit-Quiet :
        (rates : Rates sv) (web : Web sv)
        → WebLaws sv web
        → (ip : String) (route : Route) (body : sv.Bytes) (l : Limiters rates.Limiter)
          (w : World sv)
        → requests (rate_limit sv rates t ip (endpoint sv web route t body) l w).2.metrics
          ≡ requests w.metrics
    unfolding rate_limit get_limiter
    rate_limit-Quiet rates web laws ip route body l w =
        unless _ (endpoint-Quiet web laws route body) _
      where
        unless :
            (allowed : Bool)
            → Quiet (endpoint sv web route t body)
            → Quiet (unless_limited sv rates t allowed (endpoint sv web route t body))
        unless true quiet w = quiet w
        unless false quiet w = unfold requests in refl
