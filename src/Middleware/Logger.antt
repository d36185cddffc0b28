-- ===== src/Middleware/Logger.antt =====
-- api/middleware/logger.go. No handler of the program calls `c.Error`, so `c.Errors` is empty.
use exploding_user_data_scal.Prelude.{ℕ, ◌-◌, ◌/◌, String, ◌∷◌, ◌==◌, if◌then◌else◌}
use exploding_user_data_scal.Values.{Time, Result, ok, err}
use exploding_user_data_scal.Digits.{decimal}
use exploding_user_data_scal.Metrics.{http_requests_total, http_request_duration}
use exploding_user_data_scal.Services.{Services}
use exploding_user_data_scal.Services.Action.{Action, pure, ◌>>=◌, ◌>>◌, count, on_host}
use exploding_user_data_scal.Middleware.RateLimit.{Rates}
use exploding_user_data_scal.Server.{
  Route, get_health, get_metrics, post_transactions, post_transactions_v0, unrouted,
  get_transactions, get_users_balance, get_transactions_v0, get_users_balance_v0, Request, LogEntry,
  Web, Serve,
}

-- `c.FullPath()`: the pattern of the route in `main`, "" where there is none.
abbrev pub full_path : Route → String
full_path get_health = "/health"
full_path get_metrics = "/metrics"
full_path post_transactions = "/transactions"
full_path (get_transactions id) = "/transactions/:id"
full_path (get_users_balance id) = "/users/:id/balance"
full_path post_transactions_v0 = "/v0/transactions"
full_path (get_transactions_v0 id) = "/v0/transactions/:id"
full_path (get_users_balance_v0 id) = "/v0/users/:id/balance"
full_path unrouted = ""

-- The text of `logJSON, _ := json.Marshal(entry)`.
abbrev pub text_or_empty : Result String → String
text_or_empty (ok s) = s
text_or_empty (err e) = ""

module _ (sv : Services) (web : Web sv) where
  -- The path of the metrics and of the log.
  abbrev pub logged_path : Request sv.Bytes → String
  logged_path req = if full_path req.route == "" then req.path else full_path req.route

  -- `latency.Milliseconds()`, from the two times.
  abbrev pub milliseconds : Time → Time → ℕ
  milliseconds start end = (end - start) / 1000000

  abbrev pub log_entry : Request sv.Bytes → String → Time → ℕ → ℕ → LogEntry
  log_entry req trace_id at code ms = record {
    timestamp = web.rfc3339 at;
    trace_id = trace_id;
    method = req.method;
    path = logged_path req;
    status_code = code;
    latency_ms = ms;
    client_ip = req.client_ip;
    user_agent = req.user_agent;
    error = "";
  }

  -- From `time.Since(start)` on: the line for the log.
  unfoldable pub report : Request sv.Bytes → String → Time → ℕ → Action sv String
  report req trace_id start code = do
    end ← on_host sv sv.now
    let ms = milliseconds start end
    count (http_requests_total req.method (logged_path req) (decimal code))
    count (http_request_duration req.method (logged_path req) ms)
    at ← on_host sv sv.now
    pure (text_or_empty (web.log_json (log_entry req trace_id at code ms)))

  -- `Logger`, for the rest of the chain.
  unfoldable pub logger :
      (rates : Rates sv) → Request sv.Bytes → String → Serve sv rates → Serve sv rates
  logger rates req trace_id rest s =
      let (start, h) = sv.now s.world.host in
      let (answer, s1) = rest (record s { world = record s.world { host = h } }) in
      let (line, w) = report req trace_id start answer.code s1.world in
      (answer, record s1 { world = w; lines = line ∷ s1.lines })
