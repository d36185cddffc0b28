-- ===== src/Examples/Limits.antt =====
-- The theorems on the rate limiter and the circuit breaker at concrete limiters.
use exploding_user_data_scal.Prelude.{ℕ, ◌-◌, String, ◌≡◌, ◌≢◌, refl, ◌⊎◌, [], some, none, ltb}
use exploding_user_data_scal.Prelude.Int.{pos_part}
use exploding_user_data_scal.Config.{get_env_int, get_env}
use exploding_user_data_scal.Handler.CreateTransaction.{create_transaction}
use exploding_user_data_scal.Middleware.RateLimit.{
  Rates, Limiters, lookup, touch, cleanup, delete, get_limiter, cleanup_limiters, rate_limit, put,
}
use exploding_user_data_scal.Middleware.RateLimit.WellFormed.{IsWellFormed, limiter_of}
use exploding_user_data_scal.Middleware.RateLimit.Isolation.{Decides, rate_limit-Decides}
use exploding_user_data_scal.Middleware.RateLimit.Reachable.{
  IsReachable, initial, got, allowed, IsReachable-IsWellFormed,
}
use exploding_user_data_scal.Middleware.RateLimit.Cleanup.{Dropped, cleanup_limiters-limiter_of}
use exploding_user_data_scal.Examples.Store.{services, form}
use exploding_user_data_scal.Services.{open_state}
use exploding_user_data_scal.Services.Action.{World}
use exploding_user_data_scal.Middleware.CircuitBreaker.{circuit_breaker}
use exploding_user_data_scal.Examples.Calls.{start, request}

-- A bucket that is never filled again.
abbrev pub buckets : Rates services
buckets = record {
  Limiter = ℕ;
  new_limiter = λ rps burst. pos_part burst;
  allow = λ tokens h. (ltb 0 tokens, tokens - 1, h);
}

abbrev nobody : Limiters ℕ
nobody = record { entries = []; heap = λ a. 0; next = 0 }

-- After a first request of one client, whose bucket is empty since.
abbrev emptied : Limiters ℕ
emptied =
    let s = (get_limiter services buckets "10.0.0.1" nobody 0).1 in
    record s { heap = put 0 0 s.heap }

abbrev pub two_clients : Limiters ℕ
two_clients = (get_limiter services buckets "10.0.0.2" emptied 5).1

pub two_clients-IsReachable : IsReachable services buckets two_clients
two_clients-IsReachable = got "10.0.0.2" 5 emptied (
    allowed 0 0 (get_limiter services buckets "10.0.0.1" nobody 0).1
      (got "10.0.0.1" 0 nobody (initial (λ a. 0))))

IsReachable-IsWellFormed_example : IsWellFormed two_clients
IsReachable-IsWellFormed_example =
    IsReachable-IsWellFormed services buckets two_clients two_clients-IsReachable

first_refused :
    (rate_limit services buckets "t1" "10.0.0.1"
      (create_transaction services "t1" (form request))
      two_clients
      start).0.code
    ≡ 429
unfolding rate_limit get_limiter lookup touch
first_refused = refl

rate_limit-Decides_example :
    let rest = create_transaction services "t1" (form request) in
    let (answer, s', w') = rate_limit services buckets "t1" "10.0.0.1" rest two_clients start in
    Decides services buckets "t1" "10.0.0.1" rest two_clients start (answer, s', w')
    × ((j : String) → "10.0.0.1" ≢ j → limiter_of s' j ≡ limiter_of two_clients j)
    × IsWellFormed s'
rate_limit-Decides_example =
    rate_limit-Decides services buckets "t1" "10.0.0.1"
      (create_transaction services "t1" (form request)) two_clients start
      (IsReachable-IsWellFormed services buckets two_clients two_clients-IsReachable)

cleanup_limiters-limiter_of_example :
    let s' = (cleanup_limiters services buckets two_clients 600000000003).0 in
    (Dropped services buckets "10.0.0.1" two_clients.entries 600000000003
      → limiter_of s' "10.0.0.1" ≡ none)
    × ((limiter_of s' "10.0.0.1" ≡ limiter_of two_clients "10.0.0.1")
        ⊎ Dropped services buckets "10.0.0.1" two_clients.entries 600000000003)
cleanup_limiters-limiter_of_example =
    cleanup_limiters-limiter_of services buckets "10.0.0.1" two_clients 600000000003

one_forgotten :
    let s' = (cleanup_limiters services buckets two_clients 600000000003).0 in
    (limiter_of s' "10.0.0.1" ≡ none) × (limiter_of s' "10.0.0.2" ≡ some 100)
unfolding get_limiter lookup cleanup delete get_env_int get_env
one_forgotten = (refl, refl)

abbrev pub tripped : World services
tripped = record start { breaker = open_state }

tripped_refused :
    (circuit_breaker services "t1" (create_transaction services "t1" (form request)) tripped).0.code
    ≡ 503
unfolding circuit_breaker
tripped_refused = refl
