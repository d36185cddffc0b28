-- ===== src/Metrics.antt =====
-- The metrics of api/metrics/prometheus.go, a constructor for each collector over its labels. What the
-- program does with them is a list of updates, the newest first.
use exploding_user_data_scal.Prelude.{ℕ, suc, String, List, [], ◌∷◌, ◌==◌, if◌then◌else◌}

-- A value that a gauge or a histogram is given.
pub data Metric : Type 0 where
  -- method, path and status
  http_requests_total : String → String → String → Metric
  -- method, path and milliseconds
  http_request_duration : String → String → ℕ → Metric
  -- key type
  cache_hits_total : String → Metric
  cache_misses_total : String → Metric
  queue_messages_pending : ℕ → Metric
  queue_published_total : Metric
  -- status
  queue_processed_total : String → Metric
  rate_limit_rejected_total : Metric
  -- breaker's name, and 0 closed, 1 half-open, 2 open
  circuit_breaker_state : String → ℕ → Metric
  -- pool and connections in use
  db_connections_active : String → ℕ → Metric
  -- type and status
  transactions_created_total : String → String → Metric
  idempotency_hits_total : Metric

-- How far a list of updates has moved the counter of cache misses for one type of key.
unfoldable pub misses : String → List Metric → ℕ
misses kind [] = 0
misses kind (cache_misses_total k ∷ log) =
    let rest = misses kind log in if k == kind then suc rest else rest
misses kind (other ∷ log) = misses kind log

-- How often a list of updates counts a request.
unfoldable pub requests : List Metric → ℕ
requests [] = 0
requests (http_requests_total method path status ∷ log) = suc (requests log)
requests (other ∷ log) = requests log
