-- ===== src/Examples/Running.antt =====
-- The theorems on runs of the whole service, at a concrete run.
use mathlib.Core.Option as Opt
use exploding_user_data_scal.Prelude.{String, ◌≡◌, List, [], ◌∷◌}
use exploding_user_data_scal.Tables.Ledger.{balance_of}
use exploding_user_data_scal.Tables.Payments.{Payment, pay_all}
use exploding_user_data_scal.Server.{Request, post_transactions_v0}
use exploding_user_data_scal.System.{Event, request, delivery, tick, clean_up, run}
use exploding_user_data_scal.System.Balances.{PayingRun, run-balances}
use exploding_user_data_scal.System.Invariant.{Accounted, run-Accounted}
use exploding_user_data_scal.Examples.Store.{services, Encoded, of_message, columns}
use exploding_user_data_scal.Examples.Laws.{db_laws, broker_laws, breaker_laws}
use exploding_user_data_scal.Examples.Calls.{msg}
use exploding_user_data_scal.Examples.Limits.{buckets}
use exploding_user_data_scal.Examples.Requests.{
  web, web_laws, post, drained, server, server-IsWellFormed,
}
use exploding_user_data_scal.Examples.Waiting.{in_use}

abbrev baseline : Request Encoded
baseline = record post { route = post_transactions_v0; path = "/v0/transactions" }

-- A request that is queued, its delivery, one that is refused, and one of the baseline.
abbrev events : List (Event services)
events =
    request post
    ∷ tick
    ∷ delivery (record { tag = 1; body = of_message msg })
    ∷ clean_up
    ∷ request drained
    ∷ request baseline
    ∷ []

run-balances_example :
    (ps : List Payment) × PayingRun services web buckets in_use db_laws events server ps
    × ((j : String)
        → balance_of (run services web buckets in_use events server).world.db.tables j
          ≡ Opt.map (pay_all columns j ps) (balance_of server.world.db.tables j))
run-balances_example =
    run-balances services web buckets in_use db_laws broker_laws breaker_laws web_laws events server

run-Accounted_example :
    Accounted services web buckets in_use server 3 (run services web buckets in_use events server)
run-Accounted_example =
    run-Accounted services web buckets in_use web_laws events server server-IsWellFormed
