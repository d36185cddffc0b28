-- ===== src/System/Invariant.antt =====
-- What the service keeps throughout a run: the limiters apart, and every request on record.
use exploding_user_data_scal.Prelude.{
  ℕ, suc, ◌+◌, ◌≡◌, refl, List, [], ◌∷◌, arith, length, inl, inr,
}
use exploding_user_data_scal.Values.{Result-cases, TransactionMessage, message}
use exploding_user_data_scal.Metrics.{requests}
use exploding_user_data_scal.Cache
use exploding_user_data_scal.Queue.{Delivery, consume, queue_depth}
use exploding_user_data_scal.Services.{Services}
use exploding_user_data_scal.Services.Sql.{Pool}
use exploding_user_data_scal.Services.Action.{World}
use exploding_user_data_scal.Worker.{invalidate, complete, process_transaction}
use exploding_user_data_scal.Collector.{collect}
use exploding_user_data_scal.Middleware.RateLimit.{Rates}
use exploding_user_data_scal.Middleware.RateLimit.WellFormed.{IsWellFormed}
use exploding_user_data_scal.Middleware.RateLimit.Isolation.{rate_limit-Decides}
use exploding_user_data_scal.Middleware.RateLimit.Reachable.{cleanup_limiters-IsWellFormed}
use exploding_user_data_scal.Middleware.RequestContext.{begin_request, request_context}
use exploding_user_data_scal.Middleware.Logger.{report, logger}
use exploding_user_data_scal.Server.{Request, Web, WebLaws, Server}
use exploding_user_data_scal.Routes.{endpoint, limited, serve}
use exploding_user_data_scal.Routes.Accounting.{serve-Recorded, Recorded-counts}
use exploding_user_data_scal.System.{Event, request, delivery, tick, clean_up, step, run}

-- The consumer counts no request.
process_transaction-requests :
    (sv : Services) (msg : TransactionMessage) (w : World sv)
    → requests (process_transaction sv msg w).1.metrics ≡ requests w.metrics
unfolding process_transaction complete invalidate Cache.delete requests
process_transaction-requests sv msg w = ground arith

consume-requests :
    (sv : Services) (d : Delivery sv) (w : World sv)
    → requests (consume sv (process_transaction sv) d w).1.metrics ≡ requests w.metrics
unfolding consume
consume-requests sv d w = elim (Result-cases (sv.unmarshal message d.body)) [
  | inr (e, bad) ↦ rw bad refl
  | inl (msg, good) ↦ rw good (ground (arith, process_transaction-requests sv msg w))
]

collect-requests :
    (sv : Services) (in_use : Pool → sv.Db → ℕ) (w : World sv)
    → requests (collect sv in_use w).1.metrics ≡ requests w.metrics
unfolding collect queue_depth requests
collect-requests sv in_use w = ground arith

module _ (sv : Services) (web : Web sv) (rates : Rates sv) (in_use : Pool → sv.Db → ℕ) where
  -- The number of requests in a run.
  abbrev pub requests_in : List (Event sv) → ℕ
  requests_in [] = 0
  requests_in (request req ∷ es) = suc (requests_in es)
  requests_in (other ∷ es) = requests_in es

  -- No two clients share a limiter, and since a state n requests were counted and logged.
  pub record Accounted (since : Server sv rates) (n : ℕ) (s : Server sv rates) : Type 0 where
    pub apart : IsWellFormed s.limiters
    pub counted : requests s.world.metrics ≡ requests since.world.metrics + n
    pub logged : length s.lines ≡ length since.lines + n

  serve-IsWellFormed :
      (req : Request sv.Bytes) (s : Server sv rates)
      → IsWellFormed s.limiters
      → IsWellFormed (serve sv web rates req s).1.limiters
  unfolding serve request_context logger report limited
  serve-IsWellFormed req s apart =
      let (trace_id, w) = begin_request sv web req.trace_header s.world in
      (rate_limit-Decides sv rates trace_id req.client_ip
        (endpoint sv web req.route trace_id req.body) s.limiters
        (record w { host = (sv.now w.host).1 }) apart).2

  module _ (laws : WebLaws sv web) where
    step-Accounted :
        (e : Event sv) (s : Server sv rates)
        → IsWellFormed s.limiters
        → Accounted s (requests_in (e ∷ [])) (step sv web rates in_use e s)
    unfolding step
    step-Accounted (request req) s apart =
        let (counted, logged) =
          Recorded-counts sv web rates req s _ (serve-Recorded sv web rates laws req s) in
        record { apart = serve-IsWellFormed req s apart; counted = counted; logged = logged }
    step-Accounted (delivery d) s apart = record {
      apart = apart;
      counted = omega (arith, consume-requests sv d s.world);
      logged = omega arith;
    }
    step-Accounted tick s apart = record {
      apart = apart;
      counted = omega (arith, collect-requests sv in_use s.world);
      logged = omega arith;
    }
    step-Accounted clean_up s apart = record {
      apart = cleanup_limiters-IsWellFormed sv rates s.world.host s.limiters apart;
      counted = omega arith;
      logged = omega arith;
    }

    Accounted-trans :
        (n m : ℕ) (a b c : Server sv rates)
        → Accounted a n b
        → Accounted b m c
        → Accounted a (n + m) c
    Accounted-trans n m a b c first second = record {
      apart = second.apart;
      counted = omega (arith, first.counted, second.counted);
      logged = omega (arith, first.logged, second.logged);
    }

    requests_in-cons :
        (e : Event sv) (es : List (Event sv))
        → requests_in (e ∷ es) ≡ requests_in (e ∷ []) + requests_in es
    requests_in-cons (request req) es = omega arith
    requests_in-cons other es = omega arith

    -- After any run of the service from a state where no two clients share a limiter - requests,
    -- deliveries, ticks of the collector and clean-ups in any order - no two clients share one, and
    -- the counter of requests and the log have gone up by the number of the requests in the run.
    pub run-Accounted :
        (es : List (Event sv)) (s : Server sv rates)
        → IsWellFormed s.limiters
        → Accounted s (requests_in es) (run sv web rates in_use es s)
    unfolding run
    run-Accounted [] s apart = record { apart = apart; counted = omega arith; logged = omega arith }
    run-Accounted (e ∷ es) s apart =
        let first = step-Accounted e s apart in
        let s' = step sv web rates in_use e s in
        rw (requests_in-cons e es) (
          Accounted-trans (requests_in (e ∷ [])) (requests_in es) s s'
            (run sv web rates in_use es s') first (run-Accounted es s' first.apart))
