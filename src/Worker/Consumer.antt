-- ===== src/Worker/Consumer.antt =====
-- The consumer: how each delivery is settled with the broker, and the balances after a run of them.
use mathlib.Core.Option as Opt
use exploding_user_data_scal.Prelude.{
  String, true, false, ◌≡◌, sym, ap, ◌∙◌, inl, inr, List, [], ◌∷◌, ◌++◌, ◌⊎◌, refl, Option, none,
  some, arith, Option-cases,
}
use exploding_user_data_scal.Values.{
  GoError, Result, ok, err, Result-cases, TransactionMessage, message,
}
use exploding_user_data_scal.Services.{Services}
use exploding_user_data_scal.Services.Action.{World}
use exploding_user_data_scal.Services.Laws.{DbLaws}
use exploding_user_data_scal.Tables.Ledger.{balance_of}
use exploding_user_data_scal.Cache
use exploding_user_data_scal.Queue.{Delivery, consume, consume_all}
use exploding_user_data_scal.Tables.Payments.{
  Payment, of_message, pay_all, map-pay_nil, map-pay_one, map-pay-append,
}
use exploding_user_data_scal.Worker.{invalidate, complete, process_transaction, run_consumer}
use exploding_user_data_scal.Worker.Effects.{CommitFailed}
use exploding_user_data_scal.Worker.Ledger.{Paid, Unpaid, process_transaction_atomic}

-- Processing a message calls nothing of the broker.
process_transaction-broker :
    (sv : Services) (msg : TransactionMessage) (w : World sv)
    → (process_transaction sv msg w).1.broker ≡ w.broker
unfolding process_transaction complete invalidate Cache.delete
process_transaction-broker sv msg w = ground arith

module _ (sv : Services) where
  -- The payment of a delivery if its message is processed without an error in this state.
  abbrev pub paid_by_result : TransactionMessage → Option GoError → List Payment
  paid_by_result msg none = of_message msg ∷ []
  paid_by_result msg (some e) = []

  abbrev pub paid_by : Result TransactionMessage → World sv → List Payment
  paid_by (err e) w = []
  paid_by (ok msg) w = paid_by_result msg (process_transaction sv msg w).0

  -- What a delivery may have paid: its message if that was processed without an error, and nothing
  -- otherwise; but perhaps its message if the error was one that a Commit returned.
  abbrev pub PayingResult :
      (DbLaws sv) → TransactionMessage → Option GoError → List Payment → Type 0
  PayingResult db msg none ps = ps ≡ of_message msg ∷ []
  PayingResult db msg (some e) ps = (ps ≡ []) ⊎ (CommitFailed sv db e × (ps ≡ of_message msg ∷ []))

  abbrev pub Paying : DbLaws sv → Result TransactionMessage → World sv → List Payment → Type 0
  Paying db (err e) w ps = ps ≡ []
  Paying db (ok msg) w ps = PayingResult db msg (process_transaction sv msg w).0 ps

  -- The same of a run of the consumer, in the order of the deliveries.
  pub PayingAll : DbLaws sv → List (Delivery sv) → World sv → List Payment → Type 0
  PayingAll db [] w ps = ps ≡ []
  PayingAll db (d ∷ ds) w ps =
      (now : List Payment) × (later : List Payment) × (ps ≡ now ++ later)
      × Paying db (sv.unmarshal message d.body) w now
      × PayingAll db ds (consume sv (process_transaction sv) d w).1 later

module _ (sv : Services) (db : DbLaws sv) where
  open db use {columns, tables}

  -- How one delivery ends. A body that is no message is discarded and changes no row; a message
  -- that was paid is acknowledged; one that failed goes back to the queue and has paid nobody, or,
  -- where the reply of the Commit was lost, has paid.
  pub data Settled (d : Delivery sv) (w w' : World sv) : Type 0 where
    discarded :
        (e : GoError)
        → sv.unmarshal message d.body ≡ err e
        → w'.broker ≡ sv.nack d.tag false w.broker
        → tables w'.db ≡ tables w.db
        → Settled d w w'
    acknowledged :
        (msg : TransactionMessage)
        → sv.unmarshal message d.body ≡ ok msg
        → w'.broker ≡ sv.ack d.tag w.broker
        → (process_transaction sv msg w).0 ≡ none
        → Paid sv db msg (tables w.db) (tables w'.db)
        → Settled d w w'
    requeued :
        (msg : TransactionMessage) (e : GoError)
        → sv.unmarshal message d.body ≡ ok msg
        → w'.broker ≡ sv.nack d.tag true w.broker
        → (process_transaction sv msg w).0 ≡ some e
        → Unpaid sv db msg (tables w.db) (tables w'.db)
        → Settled d w w'
    paid_requeued :
        (msg : TransactionMessage) (e : GoError)
        → sv.unmarshal message d.body ≡ ok msg
        → w'.broker ≡ sv.nack d.tag true w.broker
        → CommitFailed sv db e
        → (process_transaction sv msg w).0 ≡ some e
        → Paid sv db msg (tables w.db) (tables w'.db)
        → Settled d w w'

  -- Every delivery is settled in one of four ways. A body that is no message is rejected without
  -- requeue, and no row has changed. A message that was paid is acknowledged, and its balance is
  -- adjusted. A message that was not paid is rejected with requeue, and the balances are the same.
  -- The fourth way is a Commit that returned an error after it had its effect: the message was paid
  -- and is rejected with requeue all the same.
  pub consume-Settled :
      (d : Delivery sv) (w : World sv) → Settled d w (consume sv (process_transaction sv) d w).1
  unfolding consume
  consume-Settled d w = elim (Result-cases (sv.unmarshal message d.body)) [
    | inr (e, bad) ↦ discarded e bad (rw bad) (rw bad)
    | inl (msg, good) ↦
        let atomic = process_transaction_atomic sv db msg w in
        elim (Option-cases (process_transaction sv msg w).0) [
          | inl fine ↦
              acknowledged msg good (rw good (rw fine (rw (process_transaction-broker sv msg w))))
                fine (rw good (rw fine (atomic.0 fine)))
          | inr (e, failed) ↦
              let back : (consume sv (process_transaction sv) d w).1.broker
                  ≡ sv.nack d.tag true w.broker =
                rw good (rw failed (rw (process_transaction-broker sv msg w))) in
              elim (atomic.1 e failed) [
                | inl unpaid ↦ requeued msg e good back failed (rw good (rw failed unpaid))
                | inr (lost, paid) ↦
                    paid_requeued msg e good back lost failed (rw good (rw failed paid))
              ]
        ]
  ]

  abbrev pub Moved : List Payment → World sv → World sv → Type 0
  Moved ps w w' =
      (j : String)
      → balance_of (tables w'.db) j ≡ Opt.map (pay_all columns j ps) (balance_of (tables w.db) j)

  Paid-Moved :
      (msg : TransactionMessage) (w w' : World sv)
      → Paid sv db msg (tables w.db) (tables w'.db)
      → Moved (of_message msg ∷ []) w w'
  Paid-Moved msg w w' paid j =
      (paid j).0 ∙ sym (map-pay_one columns j (of_message msg) (balance_of (tables w.db) j))

  -- The balance of each user after one delivery.
  pub consume-balance :
      (d : Delivery sv) (w : World sv)
      → (ps : List Payment) × Paying sv db (sv.unmarshal message d.body) w ps
        × Moved ps w (consume sv (process_transaction sv) d w).1
  consume-balance d w = elim (consume-Settled d w) [
    | discarded e bad queue rows ↦ (
      [],
      rw bad refl,
      λ j. ap (λ t. balance_of t j) rows ∙ sym (map-pay_nil columns j (balance_of (tables w.db) j)),
    )
    | acknowledged msg good queue fine paid ↦ (
      of_message msg ∷ [],
      rw good (rw fine refl),
      Paid-Moved msg w (consume sv (process_transaction sv) d w).1 paid,
    )
    | requeued msg e good queue failed unpaid ↦ (
      [],
      rw good (rw failed (inl refl)),
      λ j. (unpaid j).0 ∙ sym (map-pay_nil columns j (balance_of (tables w.db) j)),
    )
    | paid_requeued msg e good queue lost failed paid ↦ (
      of_message msg ∷ [],
      rw good (rw failed (inr (lost, refl))),
      Paid-Moved msg w (consume sv (process_transaction sv) d w).1 paid,
    )
  ]

  -- After any run of the consumer the balance of each user has moved by exactly the payments of
  -- the messages that were processed without an error, each counted as often as it was delivered
  -- and processed, in their order, and by those of some of the messages whose processing ended
  -- with an error that a Commit returned.
  pub run_consumer-balances :
      (ds : List (Delivery sv)) (w : World sv)
      → (ps : List Payment) × PayingAll sv db ds w ps
        × ((j : String)
            → balance_of (tables (run_consumer sv ds w).1.db) j
              ≡ Opt.map (pay_all columns j ps) (balance_of (tables w.db) j))
  unfolding run_consumer consume_all PayingAll
  run_consumer-balances [] w =
      ([], refl, λ j. sym (map-pay_nil columns j (balance_of (tables w.db) j)))
  run_consumer-balances (d ∷ ds) w =
      let w' = (consume sv (process_transaction sv) d w).1 in
      let (now, paying, moved) = consume-balance d w in
      let (later, rest, moves) = run_consumer-balances ds w' in
      (
        now ++ later,
        (now, later, refl, paying, rest),
        λ j.
            moves j
            ∙ ap (Opt.map (pay_all columns j later)) (moved j)
            ∙ sym (map-pay-append columns j now later (balance_of (tables w.db) j)),
      )
