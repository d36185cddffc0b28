-- ===== src/Pipeline.antt =====
-- The two ways to execute a transaction: POST /transactions, which inserts a pending row and queues
-- a message for the worker, and POST /v0/transactions, which does all at once. Both are held to
-- one specification.
pub mod Immediate
pub mod Async
use mathlib.Core.Option as Opt
use mathlib.Core.Path.{subst}
use mathlib.Core.List.{append_cancel_left}
use exploding_user_data_scal.Prelude.{
  ℕ, String, Bool, true, false, ◌≡◌, ◌≢◌, sym, ap, ◌∙◌, ◌⊎◌, inl, inr, List, [], ◌∷◌, ◌++◌, Option,
  some, arith, ◌==◌, if◌then◌else◌, length, length-append,
}
use exploding_user_data_scal.Values.{GoError, ok, err, Time, CreateTransactionRequest, message}
use exploding_user_data_scal.Queue.{Delivery, consume}
use exploding_user_data_scal.Services.{Services, Publishing}
use exploding_user_data_scal.Services.Sql.{insert_pending, insert_completed}
use exploding_user_data_scal.Services.Action.{World}
use exploding_user_data_scal.Services.Laws.{DbLaws, BrokerLaws, BreakerLaws, JsonLaws}
use exploding_user_data_scal.Tables.{Columns, Tables, Transaction, apply, apply_all}
use exploding_user_data_scal.Tables.Ledger.{
  balance_of, status_of, status_in, payment, balance-payment, transactions-payment, status-insert,
}
use exploding_user_data_scal.Handler.{Response}
use exploding_user_data_scal.Handler.CreateTransaction.{
  new_transaction, new_message, create_transaction, accepted,
}
use exploding_user_data_scal.Handler.CreateTransaction.Queued.{Queued}
use exploding_user_data_scal.Handler.CreateTransaction.Created.{
  made, refused, Created, handled, rejected, create_transaction-Created,
}
use exploding_user_data_scal.Handler.Baseline.{create_transaction_v0, completed}
use exploding_user_data_scal.Handler.Baseline.Effects as V0
use exploding_user_data_scal.Worker.{process_transaction}
use exploding_user_data_scal.Worker.Ledger.{Paid}
use exploding_user_data_scal.Worker.Consumer.{
  Settled, discarded, acknowledged, requeued, consume-Settled,
}

-- The specification: a request is executed under an id when its user has been paid once, its
-- transaction is there and completed, and all else is as before.
abbrev pub Executed : Columns → CreateTransactionRequest → String → Tables → Tables → Type 0
Executed c req id before after =
    (j : String)
    → (balance_of after j ≡ (
        if j == c.canonical req.user_id
        then Opt.map (payment c req.type req.amount) (balance_of before j)
        else balance_of before j))
      × (status_of after j ≡ (if j == c.canonical id then some "completed" else status_of before j))
