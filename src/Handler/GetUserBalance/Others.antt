-- ===== src/Handler/GetUserBalance/Others.antt =====
-- What GET /users/:id/balance leaves in the cache under other keys than its own.
use exploding_user_data_scal.Prelude.{String, refl, inl, inr, ◌∷◌, ◌==◌, Bool-cases}
use exploding_user_data_scal.Values.{Result, ok, err, UserBalanceResponse, user_balance}
use exploding_user_data_scal.Metrics.{cache_misses_total}
use exploding_user_data_scal.Cache
use exploding_user_data_scal.Cache.{Fetched, hit, miss, error, default_ttl}
use exploding_user_data_scal.Cache.Keys.{user_balance_key}
use exploding_user_data_scal.Cache.Others.{
  OthersStay, OthersStay-trans, redis_get-OthersStay, set-OthersStay,
}
use exploding_user_data_scal.Services.{Services}
use exploding_user_data_scal.Services.Action.{World, on_breaker}
use exploding_user_data_scal.Services.Laws.{RedisLaws}
use exploding_user_data_scal.Handler.GetUserBalance.{
  query_user_balance, keep_balance, fetch_balance, serve_balance, get_user_balance,
}

module _ (sv : Services) (trace_id : String) (redis : RedisLaws sv) (id : String) where
  keep_balance-OthersStay :
      (row : Result UserBalanceResponse) (w : World sv)
      → OthersStay sv redis
          (user_balance_key id)
          w.redis
          (keep_balance sv trace_id id row w).1.redis
  keep_balance-OthersStay (err e) w = λ j other. inl refl
  keep_balance-OthersStay (ok row) w =
      let (at, h) = sv.now w.host in
      set-OthersStay sv redis user_balance (user_balance_key id) (record row { fetched_at = at })
        (default_ttl sv.getenv) (record w { host = h })

  fetch_balance-OthersStay :
      (w : World sv)
      → OthersStay sv redis (user_balance_key id) w.redis (fetch_balance sv trace_id id w).1.redis
  unfolding fetch_balance
  fetch_balance-OthersStay w =
      let w0 = record w { metrics = cache_misses_total "user_balance" ∷ w.metrics } in
      let (row, w1) = on_breaker sv UserBalanceResponse (query_user_balance sv id) w0 in
      keep_balance-OthersStay row w1

  serve_balance-OthersStay :
      (cached : Fetched UserBalanceResponse) (w : World sv)
      → OthersStay sv redis
          (user_balance_key id)
          w.redis
          (serve_balance sv trace_id id cached w).1.redis
  serve_balance-OthersStay (hit resp) w = λ j other. inl refl
  serve_balance-OthersStay miss w = fetch_balance-OthersStay w
  serve_balance-OthersStay (error e) w =
      fetch_balance-OthersStay
        (record w { metrics = cache_misses_total "user_balance" ∷ w.metrics })

  -- GET /users/:id/balance touches no entry but its own.
  pub get_user_balance-OthersStay :
      (w : World sv)
      → OthersStay sv redis
          (user_balance_key id)
          w.redis
          (get_user_balance sv trace_id id w).1.redis
  unfolding get_user_balance Cache.get
  get_user_balance-OthersStay w = elim (Bool-cases (id == "")) [
    | inl empty ↦ rw empty (λ j other. inl refl)
    | inr other ↦
        let (reply, r) = sv.redis_get (user_balance_key id) w.redis in
        let cached = Cache.fetched sv user_balance reply in
        let w1 = record w { redis = r } in
        rw other (
          OthersStay-trans sv redis (user_balance_key id) w.redis r
            (serve_balance sv trace_id id cached w1).1.redis
            (redis_get-OthersStay sv redis (user_balance_key id) w.redis)
            (serve_balance-OthersStay cached w1))
  ]
