-- ===== src/Examples/Reads.antt =====
-- The theorems on the cached transactions and the health check at concrete calls.
use exploding_user_data_scal.Prelude.{
  true, false, ◌≡◌, ◌≢◌, ◌⊎◌, refl, sym, eq_iff, arith, ◌+◌, none,
}
use exploding_user_data_scal.Values.{transaction}
use exploding_user_data_scal.Metrics.{misses}
use exploding_user_data_scal.Health.{health_check, health_check-code}
use exploding_user_data_scal.Cache
use exploding_user_data_scal.Cache.Keys.{transaction_key, user_balance_key}
use exploding_user_data_scal.Services.Action.{state_changes, World}
use exploding_user_data_scal.Handler.GetTransaction.{
  query_transaction, fetch_transaction, get_transaction,
}
use exploding_user_data_scal.Handler.GetTransaction.Coherent.{IsCoherent}
use exploding_user_data_scal.Handler.GetTransaction.Counting.{misses_of, get_transaction-misses}
use exploding_user_data_scal.Handler.GetTransaction.Answers.{
  Shows, IsCurrent, get_transaction-Shows,
}
use exploding_user_data_scal.Handler.GetTransaction.Versions.{SameBody, get_transaction-Agrees}
use exploding_user_data_scal.Handler.Versions.{Agrees}
use exploding_user_data_scal.Handler.Baseline.{get_transaction_v0}
use exploding_user_data_scal.Worker.{process_transaction}
use exploding_user_data_scal.Worker.Freshness.{process_transaction-IsCoherent}
use exploding_user_data_scal.Examples.Store.{services}
use exploding_user_data_scal.Examples.Laws.{
  db_laws, replica_laws, breaker_laws, redis_laws, json_laws,
}
use exploding_user_data_scal.Examples.Calls.{opens_create, opens_worker, after_request, msg}

-- The request's state with an empty cache, and after a first GET.
abbrev pub cold : World services
cold = record after_request { redis = record { up = true; entries = λ key. none } }

abbrev warm : World services
warm = (get_transaction services "t1" msg.transaction_id cold).1

-- A Redis that is down.
abbrev cut_off : World services
cut_off = record after_request { redis = record { up = false; entries = λ key. none } }

pub named : msg.transaction_id ≢ ""
named = ground (arith, eq_iff msg.transaction_id "")

cut_off-misses :
    misses "transaction" (get_transaction services "t1" msg.transaction_id cut_off).1.metrics ≡ 2
unfolding opens_create get_transaction fetch_transaction query_transaction misses state_changes
cut_off-misses = refl

get_transaction-misses_example :
    misses "transaction" (get_transaction services "t1" msg.transaction_id cut_off).1.metrics
    ≡ misses "transaction" cut_off.metrics
      + misses_of (Cache.get services transaction (transaction_key msg.transaction_id) cut_off).0
get_transaction-misses_example =
    get_transaction-misses services "t1" msg.transaction_id cut_off named

cold-IsCoherent : IsCoherent services db_laws redis_laws json_laws cold.redis cold.db.tables
cold-IsCoherent id b h = cc h

warm_rows : warm.db.tables ≡ cold.db.tables
unfolding opens_create get_transaction fetch_transaction query_transaction
warm_rows = refl

warm-IsCoherent : IsCoherent services db_laws redis_laws json_laws warm.redis warm.db.tables
warm-IsCoherent =
    rw warm_rows
      (get_transaction-Shows services "t1" db_laws replica_laws breaker_laws redis_laws json_laws
        msg.transaction_id cold named cold-IsCoherent).1.1

get_transaction-Shows_example :
    let (answer, w') = get_transaction services "t1" msg.transaction_id warm in
    Shows services "t1" db_laws replica_laws breaker_laws redis_laws json_laws warm.db.tables
      msg.transaction_id answer
    × IsCurrent services "t1" db_laws replica_laws breaker_laws redis_laws json_laws warm.db.tables
        w'
get_transaction-Shows_example =
    get_transaction-Shows services "t1" db_laws replica_laws breaker_laws redis_laws json_laws
      msg.transaction_id warm named warm-IsCoherent

-- A hit in the cache against a plain read.
get_transaction-Agrees_example :
    Agrees SameBody
      (get_transaction services "t1" msg.transaction_id warm).0
      (get_transaction_v0 services "t1" msg.transaction_id cold).0
get_transaction-Agrees_example =
    get_transaction-Agrees services "t1" db_laws replica_laws breaker_laws redis_laws json_laws
      msg.transaction_id warm cold warm-IsCoherent (sym warm_rows)

warm_processed : (process_transaction services msg warm).0 ≡ none
unfolding opens_create opens_worker get_transaction fetch_transaction query_transaction
warm_processed = refl

warm_deleted :
    let r1 = (services.redis_del (user_balance_key msg.user_id) warm.redis).1 in
    (services.redis_del (transaction_key msg.transaction_id) r1).0 ≡ none
unfolding opens_create opens_worker get_transaction fetch_transaction query_transaction
warm_deleted = refl

process_transaction-IsCoherent_example :
    let w' = (process_transaction services msg warm).1 in
    IsCoherent services db_laws redis_laws json_laws w'.redis w'.db.tables
    × (w'.redis.entries (transaction_key msg.transaction_id) ≡ none)
process_transaction-IsCoherent_example =
    process_transaction-IsCoherent services db_laws redis_laws json_laws msg warm warm_processed
      warm_deleted refl (λ id kept. refl) warm-IsCoherent

health_check-code_example :
    let (answer, w') = health_check services "t1" cut_off in
    (((services.db_ping cut_off.db).0 ≡ none)
      × ((services.redis_ping cut_off.redis).0 ≡ none)
      × (answer.code ≡ 200))
    ⊎ ((((services.db_ping cut_off.db).0 ≢ none) ⊎ ((services.redis_ping cut_off.redis).0 ≢ none))
        × (answer.code ≡ 503))
health_check-code_example = health_check-code services "t1" cut_off
