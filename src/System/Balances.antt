-- ===== src/System/Balances.antt =====
-- The balances after any run of the service.
use mathlib.Core.Option as Opt
use exploding_user_data_scal.Prelude.{ℕ, String, ◌≡◌, refl, sym, ap, ◌∙◌, List, [], ◌∷◌, ◌++◌}
use exploding_user_data_scal.Values.{message}
use exploding_user_data_scal.Services.{Services}
use exploding_user_data_scal.Services.Sql.{Pool}
use exploding_user_data_scal.Services.Laws.{DbLaws, BrokerLaws, BreakerLaws}
use exploding_user_data_scal.Tables.Ledger.{balance_of}
use exploding_user_data_scal.Tables.Payments.{Payment, pay_all, map-pay_nil, map-pay-append}
use exploding_user_data_scal.Worker.Consumer as Consumer
use exploding_user_data_scal.Worker.Consumer.{paid_by, consume-balance}
use exploding_user_data_scal.Collector.Gauges.{collect-data}
use exploding_user_data_scal.Middleware.RateLimit.{Rates}
use exploding_user_data_scal.Server.{Web, WebLaws, Server}
use exploding_user_data_scal.Routes.{serve}
use exploding_user_data_scal.Routes.Payments.{paid_on, Paying, Moved, same-Moved}
use exploding_user_data_scal.Routes.Passing.{serve-Moved}
use exploding_user_data_scal.System.{Event, request, delivery, tick, clean_up, step, run}

module _ (sv : Services) (web : Web sv) (rates : Rates sv) (in_use : Pool → sv.Db → ℕ) where
  -- The payment of a step: of a call of CreateTransactionV0 that is answered by 200, or of a
  -- delivery whose message is processed without an error.
  abbrev pub paid_in : Event sv → Server sv rates → List Payment
  paid_in (request req) s =
      paid_on req.route (serve sv web rates req s).0.code (sv.decode_create req.body)
  paid_in (delivery d) s = paid_by sv (sv.unmarshal message d.body) s.world
  paid_in tick s = []
  paid_in clean_up s = []

  -- The payments of a run, in the order of its steps.
  unfoldable pub payments : List (Event sv) → Server sv rates → List Payment
  payments [] s = []
  payments (e ∷ es) s = paid_in e s ++ payments es (step sv web rates in_use e s)

  module _ (db : DbLaws sv) where
    -- What a step may have paid: `paid_in`, but where the reply of a Commit may have been lost
    -- perhaps the payment all the same.
    abbrev pub PayingIn : Event sv → Server sv rates → List Payment → Type 0
    PayingIn (request req) s ps =
        Paying req.route (serve sv web rates req s).0.code (sv.decode_create req.body) ps
    PayingIn (delivery d) s ps = Consumer.Paying sv db (sv.unmarshal message d.body) s.world ps
    PayingIn tick s ps = ps ≡ []
    PayingIn clean_up s ps = ps ≡ []

    -- What a run may have paid, in the order of its steps.
    pub PayingRun : List (Event sv) → Server sv rates → List Payment → Type 0
    PayingRun [] s ps = ps ≡ []
    PayingRun (e ∷ es) s ps =
        (now : List Payment) × (later : List Payment) × (ps ≡ now ++ later)
        × PayingIn e s now
        × PayingRun es (step sv web rates in_use e s) later

  module _ (db : DbLaws sv) (broker : BrokerLaws sv) (breaker : BreakerLaws sv)
      (laws : WebLaws sv web) where
    step-Moved :
        (e : Event sv) (s : Server sv rates)
        → (ps : List Payment) × PayingIn db e s ps
          × Moved sv db ps
              (db.tables s.world.db)
              (db.tables (step sv web rates in_use e s).world.db)
    unfolding step
    step-Moved (request req) s = serve-Moved sv web rates req s db breaker broker laws
    step-Moved (delivery d) s = consume-balance sv db d s.world
    step-Moved tick s =
        ([], refl, same-Moved sv db _ _ (ap db.tables (collect-data sv in_use s.world).0))
    step-Moved clean_up s =
        ([], refl, same-Moved sv db (db.tables s.world.db) (db.tables s.world.db) refl)

    -- After any run of the service - requests to any route, deliveries to the consumer, ticks of the
    -- collector and clean-ups in any order - the balance of each user is the one at the start, moved
    -- by payments that are made in the order of the steps: that of each call of CreateTransactionV0
    -- that was answered by 200 and of each delivery that was processed without an error; that of
    -- some of the calls of CreateTransactionV0 that were answered by 500 and of some of the deliveries
    -- that ended with an error of a Commit; and no other.
    pub run-balances :
        (es : List (Event sv)) (s : Server sv rates)
        → (ps : List Payment) × PayingRun db es s ps
          × ((j : String)
              → balance_of (db.tables (run sv web rates in_use es s).world.db) j
                ≡ Opt.map (pay_all db.columns j ps) (balance_of (db.tables s.world.db) j))
    unfolding run PayingRun
    run-balances [] s =
        ([], refl, λ j. sym (map-pay_nil db.columns j (balance_of (db.tables s.world.db) j)))
    run-balances (e ∷ es) s =
        let s' = step sv web rates in_use e s in
        let (now, paying, moved) = step-Moved e s in
        let (later, rest, moves) = run-balances es s' in
        (
          now ++ later,
          (now, later, refl, paying, rest),
          λ j.
              moves j
              ∙ ap (Opt.map (pay_all db.columns j later)) (moved j)
              ∙ sym (map-pay-append db.columns j now later (balance_of (db.tables s.world.db) j)),
        )
