-- ===== src/Examples/Reading.antt =====
-- The theorem on sequences of reads, at a concrete sequence.
use exploding_user_data_scal.Prelude.{List, [], ◌∷◌}
use exploding_user_data_scal.Handler.Reads.{
  Read, a_transaction, a_balance, run_reads, AllRight, IsCurrent, run_reads-AllRight,
}
use exploding_user_data_scal.Examples.Store.{services}
use exploding_user_data_scal.Examples.Laws.{
  db_laws, replica_laws, breaker_laws, redis_laws, json_laws,
}
use exploding_user_data_scal.Examples.Calls.{msg}
use exploding_user_data_scal.Examples.Reads.{cold}

-- A miss and then a hit of either kind, an unknown user and an empty id.
abbrev reads : List Read
reads =
    a_transaction "t1" msg.transaction_id
    ∷ a_balance "t2" "ann"
    ∷ a_transaction "t3" msg.transaction_id
    ∷ a_balance "t4" "ann"
    ∷ a_balance "t5" "carl"
    ∷ a_transaction "t6" ""
    ∷ []

run_reads-AllRight_example :
    let (answers, w') = run_reads services reads cold in
    AllRight services db_laws replica_laws breaker_laws redis_laws json_laws cold.db.tables reads
      answers
    × IsCurrent services db_laws replica_laws breaker_laws redis_laws json_laws cold.db.tables w'
run_reads-AllRight_example =
    run_reads-AllRight services db_laws replica_laws breaker_laws redis_laws json_laws reads cold
      (λ id b h. cc h, λ id b h. cc h)
