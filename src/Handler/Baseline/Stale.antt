-- ===== src/Handler/Baseline/Stale.antt =====
-- The cached balances and the baseline: CreateTransactionV0 does not touch the cache.
use exploding_user_data_scal.Prelude.{String, ◌≡◌, ◌≢◌, refl, ap, ◌∙◌, arith, is-ne}
use exploding_user_data_scal.Values.{
  CreateTransactionRequest, Result, ok, err, UserBalanceResponse, user_balance,
}
use exploding_user_data_scal.Cache
use exploding_user_data_scal.Cache.{hit}
use exploding_user_data_scal.Cache.Keys.{user_balance_key}
use exploding_user_data_scal.Services.{Services}
use exploding_user_data_scal.Services.Sql.{write, user_active}
use exploding_user_data_scal.Services.Action.{World}
use exploding_user_data_scal.Handler.CreateTransaction.{bind}
use exploding_user_data_scal.Handler.GetUserBalance.{get_user_balance, show_balance}
use exploding_user_data_scal.Handler.Baseline.{
  create_new, create_bound, after_bind, create_transaction_v0,
}

module _ (sv : Services) (trace_id : String) where
  create_new-redis :
      (req : CreateTransactionRequest) (w : World sv)
      → (create_new sv trace_id req w).1.redis ≡ w.redis
  unfolding create_new
  create_new-redis req w = ground arith

  after_bind-redis :
      (bound : Result CreateTransactionRequest) (w : World sv)
      → (after_bind sv trace_id bound w).1.redis ≡ w.redis
  unfolding create_bound
  after_bind-redis (err e) w = refl
  after_bind-redis (ok req) w =
      let d = (sv.query write (user_active req.user_id) w.db).1 in
      ground (arith, create_new-redis req (record w { db = d }))

  create_transaction_v0-redis :
      (body : sv.Bytes) (w : World sv)
      → (create_transaction_v0 sv trace_id body w).1.redis ≡ w.redis
  unfolding create_transaction_v0
  create_transaction_v0-redis body w = after_bind-redis (bind sv body) w

  get_user_balance-hit :
      (id : String) (w : World sv) (resp : UserBalanceResponse)
      → id ≢ ""
      → Cache.fetched sv user_balance (sv.redis_get (user_balance_key id) w.redis).0 ≡ hit resp
      → (get_user_balance sv trace_id id w).0 ≡ show_balance sv trace_id "HIT" resp
  unfolding get_user_balance Cache.get
  get_user_balance-hit id w resp named there = rw (is-ne id "" named) (rw there refl)

  -- A balance that is in the cache is still the answer of GET /users/:id/balance after any call of
  -- CreateTransactionV0, also one that has changed the user's balance in the tables.
  pub create_transaction_v0-stale :
      (body : sv.Bytes) (id : String) (w : World sv) (resp : UserBalanceResponse)
      → id ≢ ""
      → Cache.fetched sv user_balance (sv.redis_get (user_balance_key id) w.redis).0 ≡ hit resp
      → (get_user_balance sv trace_id id (create_transaction_v0 sv trace_id body w).1).0
        ≡ show_balance sv trace_id "HIT" resp
  create_transaction_v0-stale body id w resp named there =
      get_user_balance-hit id (create_transaction_v0 sv trace_id body w).1 resp named (
        ap (λ r. Cache.fetched sv user_balance (sv.redis_get (user_balance_key id) r).0)
          (create_transaction_v0-redis body w)
        ∙ there)
