-- ===== src/System/Accepted.antt =====
-- Which payments a run of the service makes: of requests that it accepted.
use mathlib.Core.Logic.Or
use mathlib.Core.Path.{subst}
use mathlib.Core.List.{
  Mem, Mem-prop, Subset, mem-append, mem-append_left, mem-append_right, mem-cast,
  eq-or-mem_of_mem-cons, not-mem-nil, append_assoc,
}
use exploding_user_data_scal.Prelude.{
  ℕ, ◌≡◌, refl, sym, ap, ◌∙◌, inl, inr, List, [], ◌∷◌, ◌++◌, Option, none, some, arith,
}
use exploding_user_data_scal.Values.{GoError, Result-cases, TransactionMessage, message}
use exploding_user_data_scal.Queue.{Delivery, queue_depth, queue_name}
use exploding_user_data_scal.Services.{Services, Publishing}
use exploding_user_data_scal.Services.Sql.{Pool}
use exploding_user_data_scal.Services.Action.{World}
use exploding_user_data_scal.Services.Laws.{DbLaws, BrokerLaws, BreakerLaws, JsonLaws}
use exploding_user_data_scal.Tables.Payments.{Payment, of_message}
use exploding_user_data_scal.Worker.{process_transaction}
use exploding_user_data_scal.Worker.Consumer.{
  paid_by_result, Settled, discarded, acknowledged, requeued, paid_requeued, consume-Settled,
}
use exploding_user_data_scal.Collector.{collect}
use exploding_user_data_scal.Middleware.RateLimit.{Rates}
use exploding_user_data_scal.Server.{Web, WebLaws, Server}
use exploding_user_data_scal.Routes.{serve}
use exploding_user_data_scal.Routes.Sent.{
  accepted_on, paid-accepted, Backed, Grown, Subset-Grown, same-Grown,
}
use exploding_user_data_scal.Routes.Accepted.{serve-Grown}
use exploding_user_data_scal.System.{Event, request, delivery, tick, clean_up, step}
use exploding_user_data_scal.System.Balances.{paid_in, payments}

-- A message that is paid is the delivery's.
paid_by_result-Subset :
    (sv : Services) (msg : TransactionMessage) (o : Option GoError)
    → Subset (paid_by_result sv msg o) (of_message msg ∷ [])
paid_by_result-Subset sv msg none p there = there
paid_by_result-Subset sv msg (some e) p there = absurd (not-mem-nil there)

module _ (sv : Services) (web : Web sv) (rates : Rates sv) (in_use : Pool → sv.Db → ℕ) where
  -- The payments that the server accepts in a step, and in a run.
  abbrev pub accepted_in : Event sv → Server sv rates → List Payment
  accepted_in (request req) s =
      accepted_on req.route (serve sv web rates req s).0.code (sv.decode_create req.body)
  accepted_in other s = []

  pub accepted : List (Event sv) → Server sv rates → List Payment
  accepted [] s = []
  accepted (e ∷ es) s = accepted_in e s ++ accepted es (step sv web rates in_use e s)

  module _ (broker : BrokerLaws sv) where
    open broker use {messages}

    -- RabbitMQ delivers what is in the queue.
    abbrev pub InQueue : Event sv → Server sv rates → Type 0
    InQueue (delivery d) s =
        (p : Publishing sv.Bytes) × Mem p (messages s.world.broker) × (d.body ≡ p.body)
    InQueue other s = Unit

    unfoldable pub Delivered : List (Event sv) → Server sv rates → Type 0
    Delivered [] s = Unit
    Delivered (e ∷ es) s = InQueue e s × Delivered es (step sv web rates in_use e s)

    module _ (db : DbLaws sv) (breaker : BreakerLaws sv) (json : JsonLaws sv)
        (laws : WebLaws sv web) where
      Settled-Grown :
          (d : Delivery sv) (w w' : World sv)
          → Settled sv db d w w'
          → Grown sv broker [] w.broker w'.broker
      Settled-Grown d w w' (discarded e bad same rows) =
          rw same (Subset-Grown sv broker [] _ _ (broker.nack-messages d.tag _ w.broker))
      Settled-Grown d w w' (acknowledged msg good same fine paid) =
          rw same (Subset-Grown sv broker [] _ _ (broker.ack-messages d.tag w.broker))
      Settled-Grown d w w' (requeued msg e good same failed unpaid) =
          rw same (Subset-Grown sv broker [] _ _ (broker.nack-messages d.tag _ w.broker))
      Settled-Grown d w w' (paid_requeued msg e good same lost failed paid) =
          rw same (Subset-Grown sv broker [] _ _ (broker.nack-messages d.tag _ w.broker))

      collect-broker :
          (w : World sv)
          → (collect sv in_use w).1.broker ≡ (sv.queue_inspect (queue_name sv.getenv) w.broker).1
      unfolding collect queue_depth
      collect-broker w = ground arith

      -- What a step leaves in the queue.
      step-Grown :
          (e : Event sv) (s : Server sv rates)
          → Grown sv broker
              (accepted_in e s)
              s.world.broker
              (step sv web rates in_use e s).world.broker
      unfolding step
      step-Grown (request req) s = serve-Grown sv web db broker breaker json laws rates req s
      step-Grown (delivery d) s = Settled-Grown d s.world _ (consume-Settled sv db d s.world)
      step-Grown tick s = rw (collect-broker s.world) (
          Subset-Grown sv broker [] _ _
            (broker.inspect-messages (queue_name sv.getenv) s.world.broker))
      step-Grown clean_up s = same-Grown sv broker [] s.world.broker s.world.broker refl

      -- A step pays for a message of the queue, or for the request that it accepts.
      step-Paid :
          (e : Event sv) (s : Server sv rates) (ps : List Payment)
          → Backed sv broker ps s.world.broker
          → InQueue e s
          → Subset (paid_in sv web rates in_use e s) (ps ++ accepted_in e s)
      step-Paid (request req) s ps backed from p there = mem-append_right ps (
          paid-accepted req.route (serve sv web rates req s).0.code (sv.decode_create req.body) p
            there)
      step-Paid (delivery d) s ps backed (sent, in_queue, body) p there =
          elim (Result-cases (sv.unmarshal message d.body)) [
            | inr (e, bad) ↦ absurd (not-mem-nil (rw bad at there))
            | inl (msg, good) ↦
                let its =
                  paid_by_result-Subset sv msg (process_transaction sv msg s.world).0 p
                    (rw good at there) in
                mem-append_left [] (
                  Or.elim Mem-prop (eq-or-mem_of_mem-cons its)
                    (λ same.
                      mem-cast same
                        (backed sent msg in_queue (ap (sv.unmarshal message) (sym body) ∙ good)))
                    (λ no_more. absurd (not-mem-nil no_more)))
          ]
      step-Paid tick s ps backed from p there = absurd (not-mem-nil there)
      step-Paid clean_up s ps backed from p there = absurd (not-mem-nil there)

      -- No payment without a request. Take any run of the service in which each delivery has the
      -- body of a message that the queue holds, and a list with the payment of every message that the
      -- queue held at the start. Every payment of the run - of a delivery that is processed without an
      -- error, or of a call of CreateTransactionV0 that is answered by 200 - is in the list, or is the
      -- payment of a request of the run that POST /transactions answered by 202 or POST
      -- /v0/transactions by 200. How often one is paid is not said: a message can be delivered again.
      pub run-Accepted :
          (es : List (Event sv)) (s : Server sv rates) (ps : List Payment)
          → Backed sv broker ps s.world.broker
          → Delivered es s
          → Subset (payments sv web rates in_use es s) (ps ++ accepted es s)
      unfolding payments accepted Delivered
      run-Accepted [] s ps backed deliveries p there = absurd (not-mem-nil there)
      run-Accepted (e ∷ es) s ps backed (from, deliveries) p there =
          let more = accepted_in e s in
          let s' = step sv web rates in_use e s in
          let rest = accepted es s' in
          subst (Mem p) (append_assoc ps more rest) (
            Or.elim Mem-prop (mem-append.0 there)
              (λ now. mem-append_left rest (step-Paid e s ps backed from p now))
              (λ later.
                run-Accepted es s' (ps ++ more) (step-Grown e s ps backed) deliveries p later))
