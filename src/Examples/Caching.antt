-- ===== src/Examples/Caching.antt =====
-- The theorem on the cache in a run of reads and the worker, at a concrete run.
use exploding_user_data_scal.Prelude.{◌≡◌, refl, none, inr, true}
use exploding_user_data_scal.Services.Action.{World}
use exploding_user_data_scal.Cache.Keys.{transaction_key, user_balance_key}
use exploding_user_data_scal.Handler.GetTransaction.{
  query_transaction, fetch_transaction, get_transaction,
}
use exploding_user_data_scal.Handler.GetUserBalance.{
  query_user_balance, fetch_balance, get_user_balance,
}
use exploding_user_data_scal.Handler.Reads.{a_transaction, a_balance, Right, respond}
use exploding_user_data_scal.Worker.{process_transaction}
use exploding_user_data_scal.System.Caches.{Reach, here, next, reads, processes, elsewhere}
use exploding_user_data_scal.System.Caches.Current.{Current, Reach-Right}
use exploding_user_data_scal.Examples.Store.{services}
use exploding_user_data_scal.Examples.Laws.{
  db_laws, replica_laws, breaker_laws, redis_laws, json_laws,
}
use exploding_user_data_scal.Examples.Calls.{opens_create, opens_worker, msg}
use exploding_user_data_scal.Examples.Reads.{cold}

-- Both entries are cached, the worker runs, and then all entries expire.
abbrev asked : World services
asked =
    (respond services (a_balance "t2" "ann")
      (respond services (a_transaction "t1" msg.transaction_id) cold).1).1

abbrev paid : World services
paid = (process_transaction services msg asked).1

abbrev expired : World services
expired = record paid { redis = record { up = true; entries = λ key. none } }

processed : (process_transaction services msg asked).0 ≡ none
unfolding opens_create opens_worker respond get_transaction fetch_transaction query_transaction
    get_user_balance fetch_balance query_user_balance
processed = refl

deleted :
    let (first, r) = services.redis_del (user_balance_key msg.user_id) asked.redis in
    (first ≡ none) × ((services.redis_del (transaction_key msg.transaction_id) r).0 ≡ none)
unfolding opens_create opens_worker respond get_transaction fetch_transaction query_transaction
    get_user_balance fetch_balance query_user_balance
deleted = (refl, refl)

reached : Reach services db_laws redis_laws cold expired
reached =
    next
      (next
        (next (next here (reads (a_transaction "t1" msg.transaction_id) refl))
          (reads (a_balance "t2" "ann") refl))
        (processes msg processed deleted.0 deleted.1 refl refl))
      (elsewhere (λ id. (inr refl, λ there. refl)) (λ id. (inr refl, λ there. refl)))

cold-Current : Current services db_laws replica_laws breaker_laws redis_laws json_laws cold
cold-Current = record {
  coherent = (λ id b h. cc h, λ id b h. cc h);
  transactions_spelled = λ id there. refl;
  balances_spelled = λ id there. refl;
}

Reach-Right_example :
    Right services db_laws replica_laws breaker_laws redis_laws json_laws expired.db.tables
      (a_transaction "t3" msg.transaction_id)
      (respond services (a_transaction "t3" msg.transaction_id) expired).0
Reach-Right_example =
    Reach-Right services db_laws replica_laws breaker_laws redis_laws json_laws
      (a_transaction "t3" msg.transaction_id) reached cold-Current
