-- ===== src/Middleware/CircuitBreaker.antt =====
-- api/middleware/circuitbreaker.go: the settings that `InitCircuitBreakers` gives to gobreaker, and
-- the middleware.
pub mod Gate
use exploding_user_data_scal.Prelude.{
  ℕ, ◌-◌, ◌%◌, String, Bool, true, false, not, ◌&&◌, List, [], ◌∷◌, leb, ◌==◌, if◌then◌else◌,
}
use exploding_user_data_scal.Prelude.Int.{ℤ, pos, negsuc}
use exploding_user_data_scal.Metrics.{Metric, circuit_breaker_state}
use exploding_user_data_scal.Config.{get_env_int, seconds}
use exploding_user_data_scal.Services.{Services, BreakerState, closed, half_open, open_state}
use exploding_user_data_scal.Services.Action.{
  Action, pure, ◌>>=◌, ◌>>◌, count, on_state_change, breaker_state,
}
use exploding_user_data_scal.Handler.{Response, str, json}

-- `uint32(n)`: the low 32 bits.
abbrev pub uint32 : ℤ → ℕ
uint32 (pos n) = n % 4294967296
uint32 (negsuc n) = 4294967295 - n % 4294967296

-- `int(n) >= threshold`.
abbrev pub at_least : ℕ → ℤ → Bool
at_least n (pos t) = leb t n
at_least n (negsuc t) = true

-- The fields of `gobreaker.Settings` that the program sets. `ready_to_trip` takes the consecutive
-- failures, and `on_state_change` is the gauge's update.
pub record Settings : Type 0 where
  pub name : String
  pub max_requests : ℕ
  pub interval : ℤ
  pub timeout : ℤ
  pub ready_to_trip : ℕ → Bool
  pub on_state_change : BreakerState → Metric

-- The settings of the breaker with a name, in `InitCircuitBreakers`.
unfoldable pub settings : (String → String) → String → Settings
settings getenv name = record {
  name = name;
  max_requests = uint32 (get_env_int getenv "CB_MAX_REQUESTS" "5");
  interval = seconds (get_env_int getenv "CB_INTERVAL_SECONDS" "60");
  timeout = seconds (get_env_int getenv "CB_TIMEOUT_SECONDS" "30");
  ready_to_trip = λ failures. at_least failures (get_env_int getenv "CB_FAILURE_THRESHOLD" "5");
  on_state_change = on_state_change name;
}

-- `dbCircuitBreaker` and `cacheCircuitBreaker`, and the gauges, the last one first.
pub record CircuitBreakers : Type 0 where
  pub database : Settings
  pub cache : Settings
  pub gauges : List Metric

-- `InitCircuitBreakers`.
unfoldable pub init_circuit_breakers : (String → String) → CircuitBreakers
init_circuit_breakers getenv = record {
  database = settings getenv "database";
  cache = settings getenv "cache";
  gauges = circuit_breaker_state "cache" 0 ∷ circuit_breaker_state "database" 0 ∷ [];
}

abbrev pub is_open : BreakerState → Bool
is_open open_state = true
is_open other = false

module _ (sv : Services) (trace_id : String) where
  abbrev pub unavailable : Response
  unavailable = json 503 (
      ("error", str "service temporarily unavailable")
      ∷ ("message", str "Circuit breaker is open. Service is recovering.")
      ∷ ("trace_id", str trace_id)
      ∷ [])

  abbrev pub unless_open : BreakerState → Action sv Response → Action sv Response
  unless_open state rest =
      if is_open state
      then (do count (circuit_breaker_state "database" 2); pure unavailable)
      else rest

  -- `CircuitBreakerMiddleware`, on the database's breaker, for the rest of the chain.
  unfoldable pub circuit_breaker : Action sv Response → Action sv Response
  circuit_breaker rest =
      if sv.getenv "ENV" == "test"
      then rest
      else (do state ← breaker_state sv; unless_open state rest)
