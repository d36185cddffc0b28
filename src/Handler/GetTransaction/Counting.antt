-- ===== src/Handler/GetTransaction/Counting.antt =====
-- What GET /transactions/:id counts as misses of the cache.
use exploding_user_data_scal.Prelude.{ℕ, suc, ◌+◌, String, ◌∷◌, ◌≡◌, ◌≢◌, arith, is-ne}
use exploding_user_data_scal.Values.{Result, TransactionResponse, transaction}
use exploding_user_data_scal.Metrics.{cache_misses_total, misses}
use exploding_user_data_scal.Cache
use exploding_user_data_scal.Cache.{Fetched, hit, miss, error}
use exploding_user_data_scal.Cache.Keys.{transaction_key}
use exploding_user_data_scal.Services.{Services}
use exploding_user_data_scal.Services.Action.{World, state_changes, misses-changes}
use exploding_user_data_scal.Handler.GetTransaction.{
  query_transaction, keep_transaction, fetch_transaction, serve_transaction, get_transaction,
}

-- How many misses a read of the cache counts for.
abbrev pub misses_of : {A : Type 0} → Fetched A → ℕ
misses_of (hit a) = 0
misses_of miss = 1
misses_of (error e) = 2

module _ (sv : Services) (trace_id : String) where
  keep_transaction-metrics :
      (id : String) (row : Result TransactionResponse) (w : World sv)
      → (keep_transaction sv trace_id id row w).1.metrics ≡ w.metrics
  unfolding Cache.set
  keep_transaction-metrics id row w = ground arith

  fetch_transaction-misses :
      (id : String) (w : World sv)
      → misses "transaction" (fetch_transaction sv trace_id id w).1.metrics
        ≡ suc (misses "transaction" w.metrics)
  unfolding fetch_transaction misses
  fetch_transaction-misses id w =
      let (row, b, d) =
        sv.cb_execute TransactionResponse (query_transaction sv id) w.breaker w.db in
      rw
        (keep_transaction-metrics id row (record w {
          breaker = b;
          db = d;
          metrics =
              state_changes (sv.cb_changes w.breaker b)
                (cache_misses_total "transaction" ∷ w.metrics);
        }))
        (misses-changes "transaction" (sv.cb_changes w.breaker b)
          (cache_misses_total "transaction" ∷ w.metrics))

  serve_transaction-misses :
      (id : String) (cached : Fetched TransactionResponse) (w : World sv)
      → misses "transaction" (serve_transaction sv trace_id id cached w).1.metrics
        ≡ misses "transaction" w.metrics + misses_of cached
  unfolding misses
  serve_transaction-misses id (hit txn) w = omega arith
  serve_transaction-misses id miss w = omega (arith, fetch_transaction-misses id w)
  serve_transaction-misses id (error e) w = omega (
    arith,
    fetch_transaction-misses id
        (record w { metrics = cache_misses_total "transaction" ∷ w.metrics }),
  )

  -- GET /transactions/:id counts no miss when the cache has the transaction, one when it has not,
  -- and two when the cache fails.
  pub get_transaction-misses :
      (id : String) (w : World sv)
      → id ≢ ""
      → misses "transaction" (get_transaction sv trace_id id w).1.metrics
        ≡ misses "transaction" w.metrics
          + misses_of (Cache.get sv transaction (transaction_key id) w).0
  unfolding get_transaction Cache.get
  get_transaction-misses id w named =
      let (reply, r) = sv.redis_get (transaction_key id) w.redis in
      rw (is-ne id "" named)
        (serve_transaction-misses id (Cache.fetched sv transaction reply) (record w { redis = r }))
