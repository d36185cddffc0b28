-- ===== src/Examples/Ledger.antt =====
-- The theorems on the ledger at concrete requests and messages.
use mathlib.Core.Option as Opt
use exploding_user_data_scal.Prelude.{
  String, true, false, ◌≡◌, ◌≢◌, ◌⊎◌, refl, eq_iff, arith, List, [], ◌∷◌, ◌++◌, none, some,
}
use exploding_user_data_scal.Prelude.Int.{pos}
use exploding_user_data_scal.Values.{GoError, ok, CreateTransactionRequest}
use exploding_user_data_scal.Queue.{Delivery, consume}
use exploding_user_data_scal.Services.{Publishing, failed}
use exploding_user_data_scal.Services.Sql.{read, user_active}
use exploding_user_data_scal.Tables.Ledger.{balance_of, status_of}
use exploding_user_data_scal.Handler.CreateTransaction.{
  create_transaction, request_key, accepted, queue_unavailable,
}
use exploding_user_data_scal.Handler.CreateTransaction.Created as Async
use exploding_user_data_scal.Handler.CreateTransaction.Idempotency.{OnlyAnswers, repeated_request}
use exploding_user_data_scal.Handler.CreateTransaction.Idempotency.First.{Names}
use exploding_user_data_scal.Handler.Baseline as Baseline
use exploding_user_data_scal.Handler.Baseline.Effects as V0
use exploding_user_data_scal.Pipeline.{Executed}
use exploding_user_data_scal.Pipeline.Immediate.{create_transaction_v0-Executed}
use exploding_user_data_scal.Pipeline.Async.{Consumed, create_transaction-Consumed}
use exploding_user_data_scal.Worker.{process_transaction, run_consumer}
use exploding_user_data_scal.Worker.Ledger.{Paid, Failed, process_transaction_atomic}
use exploding_user_data_scal.Tables.Payments.{Payment, pay_all}
use exploding_user_data_scal.Worker.Consumer.{
  Settled, consume-Settled, run_consumer-balances, PayingAll,
}
use exploding_user_data_scal.Examples.Store.{
  services, Encoded, of_text, of_message, form, garbage, columns,
}
use exploding_user_data_scal.Examples.Laws.{
  db_laws, breaker_laws, redis_laws, broker_laws, json_laws,
}
use exploding_user_data_scal.Examples.Calls.{
  opens_create, opens_worker, start, request, after_request, msg,
}

create_runs :
    ((create_transaction services "t1" (form request) start).0.code ≡ 202)
    × (status_of after_request.db.tables "0b7e3f6a-52c1-4b1e-9d0a-6f2f5a8c1d11" ≡ some "pending")
    × (balance_of after_request.db.tables "ann" ≡ some (pos 500))
unfolding opens_create
create_runs = (refl, refl, refl)

bob_refused :
    (create_transaction services "t1" (form (record request { user_id = "bob" })) start).0.code
    ≡ 422
unfolding opens_create
bob_refused = refl

abbrev deliveries : List (Delivery services)
deliveries =
    record { tag = 1; body = of_message msg }
    ∷ record { tag = 2; body = garbage }
    ∷ record { tag = 1; body = of_message msg }
    ∷ []

-- The second delivery of a message pays again.
consumer_runs :
    (balance_of (run_consumer services deliveries after_request).1.db.tables "ann" ≡ some (pos 260))
    × ((run_consumer services deliveries after_request).1.broker.acked ≡ 1 ∷ 1 ∷ [])
    × ((run_consumer services deliveries after_request).1.broker.nacked ≡ (2, false) ∷ [])
unfolding opens_create opens_worker
consumer_runs = (refl, refl, refl)

process_transaction_atomic_example :
    let (r, w') = process_transaction services msg after_request in
    (r ≡ none → Paid services db_laws msg after_request.db.tables w'.db.tables)
    × ((e : GoError)
        → r ≡ some e
        → Failed services db_laws msg e after_request.db.tables w'.db.tables)
process_transaction_atomic_example = process_transaction_atomic services db_laws msg after_request

consume-Settled_example :
    Settled services db_laws
      (record { tag = 1; body = of_message msg })
      after_request
      (consume services
        (process_transaction services)
        (record { tag = 1; body = of_message msg })
        after_request).1
consume-Settled_example =
    consume-Settled services db_laws (record { tag = 1; body = of_message msg }) after_request

run_consumer-balances_example :
    (ps : List Payment) × PayingAll services db_laws deliveries after_request ps
    × ((j : String)
        → balance_of (run_consumer services deliveries after_request).1.db.tables j
          ≡ Opt.map (pay_all columns j ps) (balance_of after_request.db.tables j))
run_consumer-balances_example = run_consumer-balances services db_laws deliveries after_request

v0_succeeds : (Baseline.create_transaction_v0 services "t1" (form request) start).0.code ≡ 200
unfolding opens_create opens_worker Baseline.create_transaction_v0 Baseline.create_bound
    Baseline.create_new
v0_succeeds = refl

create_transaction_v0-Executed_example :
    let (answer, w') = Baseline.create_transaction_v0 services "t1" (form request) start in
    (req : CreateTransactionRequest) × (id : String) × (ref : String) × (services.decode_create
        (form request)
      ≡ ok req)
    × (answer ≡ Baseline.completed services "t1" id ref)
    × Executed columns req id start.db.tables w'.db.tables
create_transaction_v0-Executed_example =
    create_transaction_v0-Executed services "t1" db_laws (form request) start v0_succeeds

-- The message that the request has queued.
abbrev queued : Publishing Encoded
queued = record {
  routing_key = "transactions_queue";
  mandatory = true;
  content_type = "application/json";
  delivery_mode = 2;
  message_id = msg.transaction_id;
  timestamp = 3;
  body = of_message msg;
}

request_queued : after_request.broker.queue ≡ start.broker.queue ++ (queued ∷ [])
unfolding opens_create
request_queued = refl

create_transaction-Consumed_example :
    (req : CreateTransactionRequest) × (id : String) × (ref : String) × (services.decode_create
        (form request)
      ≡ ok req)
    × (((create_transaction services "t1" (form request) start).0 ≡ accepted services "t1" id ref)
        ⊎ ((create_transaction services "t1" (form request) start).0
            ≡ queue_unavailable services "t1" id ref))
    × Consumed services "t1" db_laws broker_laws breaker_laws json_laws req id start.db.tables 1
        after_request
        (consume services
          (process_transaction services)
          (record { tag = 1; body = of_message msg })
          after_request).1
create_transaction-Consumed_example =
    create_transaction-Consumed services "t1" db_laws broker_laws breaker_laws json_laws
      (form request) start queued 1 create_runs.0 request_queued

key_given : request.idempotency ≢ ""
key_given = ground (arith, eq_iff "k1" "")

request_stored :
    after_request.redis.entries (request_key request) ≡ some (of_text msg.transaction_id)
unfolding opens_create
request_stored = refl

key_kept : after_request.redis.entries (request_key request) ≢ none
key_kept = cc request_stored

still_active : (services.query read (user_active "ann") after_request.db).0 ≡ ok true
unfolding opens_create
still_active = refl

redis_answers :
    (e : GoError) → (services.redis_get (request_key request) after_request.redis).0 ≢ failed e
unfolding opens_create
redis_answers e = cc

repeated_request_example :
    (id : String) × Names services "t1" redis_laws json_laws
      (create_transaction services "t1" (form request) start).0
      id
    × OnlyAnswers services "t1" redis_laws json_laws request key_given id after_request
        (create_transaction services "t1" (form request) after_request)
repeated_request_example =
    repeated_request services "t1" redis_laws json_laws request key_given (form request) start
      after_request refl refl create_runs.0 key_kept refl still_active redis_answers
