-- ===== src/Examples/Calls.antt =====
-- Calls of the program: a request, the state it starts from, and the message it queues.
use exploding_user_data_scal.Prelude.{true, [], ◌∷◌, none}
use exploding_user_data_scal.Prelude.Int.{pos, ◌+ℤ◌, ◌-ℤ◌}
use exploding_user_data_scal.Values.{CreateTransactionRequest, TransactionMessage}
use exploding_user_data_scal.Config.{get_env}
use exploding_user_data_scal.Cache
use exploding_user_data_scal.Cache.Keys.{transaction_key, user_balance_key, idempotency_key}
use exploding_user_data_scal.Queue.{publish, consume, consume_all}
use exploding_user_data_scal.Services.{closed}
use exploding_user_data_scal.Services.Sql.{balance_query}
use exploding_user_data_scal.Services.Action.{World}
use exploding_user_data_scal.Tables.{User, select}
use exploding_user_data_scal.Handler.CreateTransaction.{
  validate, bind, reference, find_duplicate, remember, enqueue, create_new, create_active,
  create_bound, create_transaction,
}
use exploding_user_data_scal.Worker.{invalidate, complete, process_transaction, run_consumer}
use exploding_user_data_scal.Examples.Store.{services, form}

-- One line opens all that a call of CreateTransaction runs.
unfoldable pub opens_create : Unit {0}
unfolding create_transaction bind validate create_bound create_active find_duplicate create_new
    remember enqueue reference publish Cache.get Cache.set get_env transaction_key idempotency_key
    select
opens_create = tt

unfoldable pub opens_worker : Unit {0}
unfolding run_consumer consume_all consume process_transaction complete invalidate Cache.delete
    balance_query ◌+ℤ◌ ◌-ℤ◌ user_balance_key transaction_key
opens_worker = tt

abbrev ann : User
ann = record { id = "ann"; username = "user_000001"; balance = pos 500; status = "active" }

abbrev bob : User
bob = record { id = "bob"; username = "user_000002"; balance = pos 20; status = "suspended" }

abbrev pub start : World services
start = record {
  redis = record { up = true; entries = λ key. none };
  db = record {
    up = true;
    tables = record { users = ann ∷ bob ∷ []; transactions = [] };
    time = 9;
  };
  broker = record { up = true; queue = []; acked = []; nacked = [] };
  breaker = closed;
  host = 0;
  metrics = [];
}

abbrev pub request : CreateTransactionRequest
request = record {
  user_id = "ann";
  type = "debit";
  amount = record { bits = 120 };
  description = "rent";
  idempotency = "k1";
}

-- The state after the request, and after the worker.
abbrev pub after_request : World services
after_request = (create_transaction services "t1" (form request) start).1

abbrev pub msg : TransactionMessage
msg = record {
  transaction_id = "0b7e3f6a-52c1-4b1e-9d0a-6f2f5a8c1d11";
  user_id = "ann";
  type = "debit";
  amount = record { bits = 120 };
  description = "rent";
  trace_id = "t1";
  created_at = 2;
}
