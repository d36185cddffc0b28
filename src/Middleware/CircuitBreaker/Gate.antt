-- ===== src/Middleware/CircuitBreaker/Gate.antt =====
-- What the middleware lets through.
use exploding_user_data_scal.Prelude.{
  eq_iff, String, true, false, ◌≡◌, inl, inr, ◌∷◌, Bool-cases, ◌==◌,
}
use exploding_user_data_scal.Metrics.{circuit_breaker_state}
use exploding_user_data_scal.Services.{Services}
use exploding_user_data_scal.Services.Action.{World, Action, breaker_state}
use exploding_user_data_scal.Handler.{Response}
use exploding_user_data_scal.Middleware.CircuitBreaker.{is_open, unavailable, circuit_breaker}

module _ (sv : Services) (trace_id : String) where
  -- The two ends of a request at the middleware, from the state and with the next.
  pub data Gated (rest : Action sv Response) (w : World sv) : Response × World sv → Type 0 where
    in_test : sv.getenv "ENV" ≡ "test" → Gated rest w (rest w)
    passed : is_open (sv.cb_state w.breaker).0 ≡ false → Gated rest w (rest (breaker_state sv w).1)
    stopped :
        is_open (sv.cb_state w.breaker).0 ≡ true
        → Gated rest w (
          unavailable sv trace_id,
          record (breaker_state sv w).1 {
            metrics = circuit_breaker_state "database" 2 ∷ (breaker_state sv w).1.metrics;
          },
        )

  -- A request at `CircuitBreakerMiddleware`: in the environment "test" it goes on, without a look at
  -- the breaker; elsewhere it goes on while the database's breaker is not open, and else is answered
  -- by 503, and the rest of the chain does not run.
  pub circuit_breaker-Gated :
      (rest : Action sv Response) (w : World sv) → Gated rest w (circuit_breaker sv trace_id rest w)
  unfolding circuit_breaker
  circuit_breaker-Gated rest w = elim (Bool-cases (sv.getenv "ENV" == "test")) [
    | inl test ↦ rw test (in_test ((eq_iff (sv.getenv "ENV") "test").0 test))
    | inr other ↦ elim (Bool-cases (is_open (sv.cb_state w.breaker).0)) [
      | inl broken ↦ rw other (rw broken (stopped broken))
      | inr works ↦ rw other (rw works (passed works))
    ]
  ]
