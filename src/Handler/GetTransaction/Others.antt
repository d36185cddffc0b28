-- ===== src/Handler/GetTransaction/Others.antt =====
-- What GET /transactions/:id leaves in the cache under other keys than its own.
use exploding_user_data_scal.Prelude.{String, refl, inl, inr, ◌∷◌, ◌==◌, Bool-cases}
use exploding_user_data_scal.Values.{Result, ok, err, TransactionResponse, transaction}
use exploding_user_data_scal.Metrics.{cache_misses_total}
use exploding_user_data_scal.Cache
use exploding_user_data_scal.Cache.{Fetched, hit, miss, error, default_ttl}
use exploding_user_data_scal.Cache.Keys.{transaction_key}
use exploding_user_data_scal.Cache.Others.{
  OthersStay, OthersStay-trans, redis_get-OthersStay, set-OthersStay,
}
use exploding_user_data_scal.Services.{Services}
use exploding_user_data_scal.Services.Action.{World, on_breaker}
use exploding_user_data_scal.Services.Laws.{RedisLaws}
use exploding_user_data_scal.Handler.GetTransaction.{
  query_transaction, keep_transaction, fetch_transaction, serve_transaction, get_transaction,
}

module _ (sv : Services) (trace_id : String) (redis : RedisLaws sv) (id : String) where
  keep_transaction-OthersStay :
      (row : Result TransactionResponse) (w : World sv)
      → OthersStay sv redis
          (transaction_key id)
          w.redis
          (keep_transaction sv trace_id id row w).1.redis
  keep_transaction-OthersStay (err e) w = λ j other. inl refl
  keep_transaction-OthersStay (ok txn) w =
      set-OthersStay sv redis transaction (transaction_key id) txn (default_ttl sv.getenv) w

  fetch_transaction-OthersStay :
      (w : World sv)
      → OthersStay sv redis
          (transaction_key id)
          w.redis
          (fetch_transaction sv trace_id id w).1.redis
  unfolding fetch_transaction
  fetch_transaction-OthersStay w =
      let w0 = record w { metrics = cache_misses_total "transaction" ∷ w.metrics } in
      let (row, w1) = on_breaker sv TransactionResponse (query_transaction sv id) w0 in
      keep_transaction-OthersStay row w1

  serve_transaction-OthersStay :
      (cached : Fetched TransactionResponse) (w : World sv)
      → OthersStay sv redis
          (transaction_key id)
          w.redis
          (serve_transaction sv trace_id id cached w).1.redis
  serve_transaction-OthersStay (hit txn) w = λ j other. inl refl
  serve_transaction-OthersStay miss w = fetch_transaction-OthersStay w
  serve_transaction-OthersStay (error e) w =
      fetch_transaction-OthersStay
        (record w { metrics = cache_misses_total "transaction" ∷ w.metrics })

  -- GET /transactions/:id touches no entry but its own.
  pub get_transaction-OthersStay :
      (w : World sv)
      → OthersStay sv redis (transaction_key id) w.redis (get_transaction sv trace_id id w).1.redis
  unfolding get_transaction Cache.get
  get_transaction-OthersStay w = elim (Bool-cases (id == "")) [
    | inl empty ↦ rw empty (λ j other. inl refl)
    | inr other ↦
        let (reply, r) = sv.redis_get (transaction_key id) w.redis in
        let cached = Cache.fetched sv transaction reply in
        let w1 = record w { redis = r } in
        rw other (
          OthersStay-trans sv redis (transaction_key id) w.redis r
            (serve_transaction sv trace_id id cached w1).1.redis
            (redis_get-OthersStay sv redis (transaction_key id) w.redis)
            (serve_transaction-OthersStay cached w1))
  ]
