-- ===== src/Examples/Balances.antt =====
-- The theorems on the cached balances at concrete calls.
use exploding_user_data_scal.Prelude.{◌≡◌, ◌≢◌, refl, sym, eq_iff, arith, none}
use exploding_user_data_scal.Values.{UserBalanceResponse, user_balance}
use exploding_user_data_scal.Cache
use exploding_user_data_scal.Cache.{hit}
use exploding_user_data_scal.Handler.Baseline.{create_transaction_v0, get_user_balance_v0}
use exploding_user_data_scal.Handler.Baseline.Stale.{create_transaction_v0-stale}
use exploding_user_data_scal.Cache.Keys.{user_balance_key}
use exploding_user_data_scal.Services.Action.{World}
use exploding_user_data_scal.Handler.GetUserBalance.{
  query_user_balance, fetch_balance, get_user_balance, show_balance,
}
use exploding_user_data_scal.Handler.GetUserBalance.Answers.{
  IsCoherent, Shows, IsCurrent, get_user_balance-Shows,
}
use exploding_user_data_scal.Handler.Versions.{Agrees}
use exploding_user_data_scal.Handler.GetUserBalance.Versions.{SameRow, get_user_balance-Agrees}
use exploding_user_data_scal.Worker.{process_transaction}
use exploding_user_data_scal.Worker.Balances.{process_transaction-balances}
use exploding_user_data_scal.Examples.Store.{services, form}
use exploding_user_data_scal.Examples.Laws.{
  db_laws, replica_laws, breaker_laws, redis_laws, json_laws,
}
use exploding_user_data_scal.Examples.Calls.{opens_create, opens_worker, msg, request}
use exploding_user_data_scal.Examples.Reads.{cold}

-- After a first GET of the user's balance.
abbrev warm : World services
warm = (get_user_balance services "t1" msg.user_id cold).1

named : msg.user_id ≢ ""
named = ground (arith, eq_iff msg.user_id "")

cold-IsCoherent : IsCoherent services db_laws redis_laws cold.redis cold.db.tables
cold-IsCoherent id b h = cc h

warm_rows : warm.db.tables ≡ cold.db.tables
unfolding opens_create opens_worker get_user_balance fetch_balance query_user_balance
warm_rows = refl

warm-IsCoherent : IsCoherent services db_laws redis_laws warm.redis warm.db.tables
warm-IsCoherent =
    rw warm_rows
      (get_user_balance-Shows services "t1" db_laws replica_laws breaker_laws redis_laws json_laws
        msg.user_id cold named cold-IsCoherent).1.1

get_user_balance-Shows_example :
    let (answer, w') = get_user_balance services "t1" msg.user_id warm in
    Shows services "t1" db_laws replica_laws breaker_laws redis_laws json_laws warm.db.tables
      msg.user_id answer
    × IsCurrent services "t1" db_laws replica_laws breaker_laws redis_laws json_laws warm.db.tables
        w'
get_user_balance-Shows_example =
    get_user_balance-Shows services "t1" db_laws replica_laws breaker_laws redis_laws json_laws
      msg.user_id warm named warm-IsCoherent

-- A hit in the cache against a plain read.
get_user_balance-Agrees_example :
    Agrees SameRow
      (get_user_balance services "t1" msg.user_id warm).0
      (get_user_balance_v0 services "t1" msg.user_id cold).0
get_user_balance-Agrees_example =
    get_user_balance-Agrees services "t1" db_laws replica_laws breaker_laws redis_laws json_laws
      msg.user_id warm cold warm-IsCoherent (sym warm_rows)

warm_processed : (process_transaction services msg warm).0 ≡ none
unfolding opens_create opens_worker get_user_balance fetch_balance query_user_balance
warm_processed = refl

warm_deleted : (services.redis_del (user_balance_key msg.user_id) warm.redis).0 ≡ none
unfolding opens_create opens_worker get_user_balance fetch_balance query_user_balance
warm_deleted = refl

process_transaction-balances_example :
    let w' = (process_transaction services msg warm).1 in
    IsCoherent services db_laws redis_laws w'.redis w'.db.tables
    × (w'.redis.entries (user_balance_key msg.user_id) ≡ none)
process_transaction-balances_example =
    process_transaction-balances services db_laws redis_laws msg warm warm_processed warm_deleted
      refl (λ id kept. refl) warm-IsCoherent

-- What Redis holds of the user after the first GET.
abbrev cached : UserBalanceResponse
cached = record {
  user_id = "ann";
  username = "user_000001";
  balance = record { bits = 500 };
  status = "active";
  fetched_at = 4;
}

warm_hit :
    Cache.fetched services user_balance
      (services.redis_get (user_balance_key msg.user_id) warm.redis).0
    ≡ hit cached
unfolding opens_create opens_worker get_user_balance fetch_balance query_user_balance
warm_hit = refl

create_transaction_v0-stale_example :
    (get_user_balance services "t1" msg.user_id
      (create_transaction_v0 services "t1" (form request) warm).1).0
    ≡ show_balance services "t1" "HIT" cached
create_transaction_v0-stale_example =
    create_transaction_v0-stale services "t1" (form request) msg.user_id warm cached named warm_hit
