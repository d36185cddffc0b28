-- ===== src/Worker.antt =====
-- `processTransaction` of api/main.go, which the queue's consumer runs on each message.
pub mod Effects
pub mod Ledger
pub mod Consumer
pub mod Freshness
pub mod Balances
use exploding_user_data_scal.Prelude.{String, Option, none, some}
use exploding_user_data_scal.Values.{GoError, Result, ok, err, TransactionMessage}
use exploding_user_data_scal.Metrics.{queue_processed_total, transactions_created_total}
use exploding_user_data_scal.Cache
use exploding_user_data_scal.Cache.Keys.{transaction_key, user_balance_key}
use exploding_user_data_scal.Queue.{Delivery, consume_all}
use exploding_user_data_scal.Services.{Services}
use exploding_user_data_scal.Services.Sql.{balance_query, set_processing, set_completed}
use exploding_user_data_scal.Services.Action.{
  Action, pure, ◌>>=◌, ◌>>◌, count, on_db, on_host, exec_if,
}
use exploding_user_data_scal.Prelude.{List}

module _ (sv : Services) where
  -- From the invalidation of the cache on; the errors of the cache are dropped.
  unfoldable pub invalidate : TransactionMessage → Action sv (Unit {0})
  invalidate msg = do
    Cache.delete sv (user_balance_key msg.user_id)
    Cache.delete sv (transaction_key msg.transaction_id)
    count (queue_processed_total "success")
    count (transactions_created_total msg.type "completed")

  abbrev pub after_commit : TransactionMessage → Option GoError → Action sv (Option GoError)
  after_commit msg (some e) = pure (some e)
  after_commit msg none = do invalidate msg; pure none

  -- From `tx.Commit()` on: the error, and the transaction that the deferred call rolls back.
  abbrev pub finish :
      TransactionMessage → Option GoError → sv.Tx → Action sv (Option GoError × sv.Tx)
  finish msg (some e) tx = pure (some e, tx)
  finish msg none tx = do
    failed ← on_db sv (sv.commit tx)
    result ← after_commit msg failed
    pure (result, tx)

  -- From the `switch` on.
  abbrev pub pay : TransactionMessage → Option GoError → sv.Tx → Action sv (Option GoError × sv.Tx)
  pay msg (some e) tx = pure (some e, tx)
  pay msg none tx =
      let (failed, tx') = exec_if sv (balance_query msg.type msg.amount msg.user_id) tx in
      finish msg failed tx'

  -- From `defer tx.Rollback()` on.
  abbrev pub in_transaction : TransactionMessage → Result sv.Tx → Action sv (Option GoError)
  in_transaction msg (err e) = pure (some e)
  in_transaction msg (ok tx) = do
    let (failed, tx') = sv.tx_exec (set_completed msg.transaction_id) tx
    (result, last) ← pay msg failed tx'
    on_db sv (λ d. (tt, sv.rollback last d))
    pure result

  -- From `time.Sleep` on.
  unfoldable pub complete : TransactionMessage → Option GoError → Action sv (Option GoError)
  complete msg (some e) = pure (some e)
  complete msg none = do
    on_host sv (λ h. (tt, sv.sleep 50000000 h))
    begun ← on_db sv sv.begin
    in_transaction msg begun

  -- `processTransaction`.
  unfoldable pub process_transaction : TransactionMessage → Action sv (Option GoError)
  process_transaction msg = do
    failed ← on_db sv (sv.exec (set_processing msg.transaction_id))
    complete msg failed

  -- What `main` starts: the consumer, with this function.
  unfoldable pub run_consumer : List (Delivery sv) → Action sv (Unit {0})
  run_consumer ds = consume_all sv process_transaction ds
