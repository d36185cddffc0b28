-- ===== src/Examples/Late.antt =====
-- The theorem on a read that is stored late, at a concrete schedule.
use mathlib.Core.Option as Opt
use exploding_user_data_scal.Prelude.{◌≡◌, ◌≢◌, refl, none, some}
use exploding_user_data_scal.Values.{GoError, ok, TransactionResponse}
use exploding_user_data_scal.Services.{failed}
use exploding_user_data_scal.Services.Action.{World}
use exploding_user_data_scal.Tables.Ledger.{status_of}
use exploding_user_data_scal.Cache.Keys.{transaction_key}
use exploding_user_data_scal.Handler.GetTransaction.{
  query_transaction, get_transaction, show_transaction,
}
use exploding_user_data_scal.Handler.GetTransaction.Late.{found_before, late, late-stale}
use exploding_user_data_scal.Examples.Store.{services, of_transaction}
use exploding_user_data_scal.Examples.Laws.{db_laws, breaker_laws, redis_laws, json_laws}
use exploding_user_data_scal.Examples.Calls.{opens_create, opens_worker, msg}
use exploding_user_data_scal.Examples.Reads.{cold, named}

abbrev pending : TransactionResponse
pending = record {
  id = msg.transaction_id;
  user_id = "ann";
  type = "debit";
  amount = record { bits = 120 };
  status = "pending";
  reference_id = "REF-20260105-0b7e3f6a";
  description = "rent";
  created_at = 9;
  updated_at = 9;
}

read_before : (found_before services msg.transaction_id cold).0 ≡ ok pending
unfolding opens_create opens_worker query_transaction
read_before = refl

-- The state after the schedule.
abbrev later : World services
later = (late services "t1" msg.transaction_id msg cold).1

processed : (late services "t1" msg.transaction_id msg cold).0.1 ≡ none
unfolding opens_create opens_worker query_transaction
processed = refl

stored_late :
    later.redis.entries (transaction_key msg.transaction_id) ≡ some (of_transaction pending)
unfolding opens_create opens_worker query_transaction
stored_late = refl

redis_answers :
    (e : GoError)
    → (services.redis_get (transaction_key msg.transaction_id) later.redis).0 ≢ failed e
unfolding opens_create opens_worker query_transaction
redis_answers e = cc

late-stale_example :
    ((get_transaction services "t1" msg.transaction_id later).0
      ≡ show_transaction services "t1" "HIT" pending)
    × (status_of later.db.tables msg.transaction_id
        ≡ Opt.map (λ _. "completed") (status_of cold.db.tables msg.transaction_id))
late-stale_example =
    late-stale services "t1" db_laws breaker_laws redis_laws json_laws msg.transaction_id msg
      pending (of_transaction pending) cold later named refl read_before processed refl stored_late
      refl redis_answers
