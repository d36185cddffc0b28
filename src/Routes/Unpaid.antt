-- ===== src/Routes/Unpaid.antt =====
-- The routes whose requests leave every row alone.
use exploding_user_data_scal.Prelude.{String, arith, ◌≡◌}
use exploding_user_data_scal.Values.{TransactionResponse, UserBalanceResponse}
use exploding_user_data_scal.Cache
use exploding_user_data_scal.Cache.{Fetched, hit, miss, error, default_ttl}
use exploding_user_data_scal.Services.{Services}
use exploding_user_data_scal.Services.Sql.{read, transaction_by_id, user_by_id}
use exploding_user_data_scal.Services.Action.{World}
use exploding_user_data_scal.Services.Laws.{DbLaws, BreakerLaws}
use exploding_user_data_scal.Queue.{queue_depth}
use exploding_user_data_scal.Health.{health_check}
use exploding_user_data_scal.Handler.GetTransaction.{
  query_transaction, fetch_transaction, get_transaction,
}
use exploding_user_data_scal.Handler.GetUserBalance.{
  query_user_balance, fetch_balance, get_user_balance,
}
use exploding_user_data_scal.Handler.Baseline.{get_transaction_v0, get_user_balance_v0}
use exploding_user_data_scal.Services.Laws.Reads.{on_breaker-KeepsTables}

module _ (sv : Services) (db : DbLaws sv) (breaker : BreakerLaws sv) where
  open db use {tables}

  module _ (t : String) (id : String) (w : World sv) where
    pub get_transaction-KeepsTables : tables (get_transaction sv t id w).1.db ≡ tables w.db
    unfolding get_transaction fetch_transaction query_transaction Cache.get Cache.set
    get_transaction-KeepsTables = ground (
      arith,
      on_breaker-KeepsTables sv db breaker TransactionResponse (query_transaction sv id)
          (db.query-tables read (transaction_by_id id)) w,
    )

    pub get_user_balance-KeepsTables : tables (get_user_balance sv t id w).1.db ≡ tables w.db
    unfolding get_user_balance fetch_balance query_user_balance Cache.get Cache.set
    get_user_balance-KeepsTables = ground (
      arith,
      on_breaker-KeepsTables sv db breaker UserBalanceResponse (query_user_balance sv id)
          (db.query-tables read (user_by_id id)) w,
    )

    pub get_transaction_v0-KeepsTables : tables (get_transaction_v0 sv t id w).1.db ≡ tables w.db
    unfolding get_transaction_v0 query_transaction
    get_transaction_v0-KeepsTables =
        ground (arith, db.query-tables read (transaction_by_id id) w.db)

    pub get_user_balance_v0-KeepsTables : tables (get_user_balance_v0 sv t id w).1.db ≡ tables w.db
    unfolding get_user_balance_v0 query_user_balance
    get_user_balance_v0-KeepsTables = ground (arith, db.query-tables read (user_by_id id) w.db)

  pub health_check-KeepsTables :
      (t : String) (w : World sv) → tables (health_check sv t w).1.db ≡ tables w.db
  unfolding health_check queue_depth
  health_check-KeepsTables t w = db.ping-tables w.db
