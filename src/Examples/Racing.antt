-- ===== src/Examples/Racing.antt =====
-- The theorem on two interleaved calls of CreateTransaction, at a concrete schedule.
use exploding_user_data_scal.Prelude.{◌≡◌, ◌≢◌, refl, eq_iff, arith}
use exploding_user_data_scal.Tables.{Tables}
use exploding_user_data_scal.Handler.CreateTransaction.Idempotency.Race.{
  checks_first, Inserted, checks_first-Inserted,
}
use exploding_user_data_scal.Examples.Store.{services}
use exploding_user_data_scal.Examples.Laws.{
  db_laws, broker_laws, breaker_laws, redis_laws, json_laws,
}
use exploding_user_data_scal.Examples.Calls.{opens_create, start, request}

keyed : request.idempotency ≢ ""
keyed = ground (arith, eq_iff "k1" "")

both_accepted :
    ((checks_first services "t1" "t2" request request start).0.0.code ≡ 202)
    × ((checks_first services "t1" "t2" request request start).0.1.code ≡ 202)
unfolding opens_create
both_accepted = (refl, refl)

checks_first-Inserted_example :
    (between : Tables) × Inserted services "t1" "t2" db_laws broker_laws breaker_laws redis_laws
      json_laws "t1" request start.db.tables between
    × Inserted services "t1" "t2" db_laws broker_laws breaker_laws redis_laws json_laws "t2" request
        between
        (checks_first services "t1" "t2" request request start).1.db.tables
checks_first-Inserted_example =
    checks_first-Inserted services "t1" "t2" db_laws broker_laws breaker_laws redis_laws json_laws
      request request start keyed keyed refl refl both_accepted.0 both_accepted.1
