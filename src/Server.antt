-- ===== src/Server.antt =====
-- What a request is at the server of api/main.go, and the state that its middleware works on.
use exploding_user_data_scal.Prelude.{ℕ, String, List, ◌≡◌}
use exploding_user_data_scal.Values.{Time, Result}
use exploding_user_data_scal.Services.{Services}
use exploding_user_data_scal.Services.Action.{World, Action}
use exploding_user_data_scal.Handler.{Response}
use exploding_user_data_scal.Middleware.RateLimit.{Rates, Limiters}

-- The route that gin has matched, with the path's parameter; `unrouted` where none fits.
pub data Route : Type 0 where
  get_health get_metrics post_transactions post_transactions_v0 unrouted : Route
  get_transactions get_users_balance get_transactions_v0 get_users_balance_v0 : String → Route

-- What the program reads of `c.Request` and of gin's context. `trace_header` is "" where the
-- client sends no X-Trace-ID.
pub record Request (Bytes : Type 0) : Type 0 where
  pub method : String
  pub path : String
  pub route : Route
  pub client_ip : String
  pub user_agent : String
  pub trace_header : String
  pub body : Bytes

-- `LogEntry` of api/middleware/logger.go. The latency is a whole number of milliseconds.
pub record LogEntry : Type 0 where
  pub timestamp : String
  pub trace_id : String
  pub method : String
  pub path : String
  pub status_code : ℕ
  pub latency_ms : ℕ
  pub client_ip : String
  pub user_agent : String
  pub error : String

-- What the server takes from Go's library, gin and promhttp: `rand.Int63()`, a time in RFC 3339,
-- `json.Marshal` of a log entry, the page of /metrics, and gin's answer where no route fits.
pub record Web (sv : Services) : Type 0 where
  pub random : sv.Host → ℕ × sv.Host
  pub rfc3339 : Time → String
  pub log_json : LogEntry → Result String
  pub metrics_page : Action sv Response
  pub not_found : Response

-- promhttp: the page of /metrics reads the collectors and changes nothing.
pub record WebLaws (sv : Services) (web : Web sv) : Type 0 where
  pub metrics_page-world : (w : World sv) → (web.metrics_page w).1 ≡ w

-- The state: the limiters, the services, and the lines logged for requests, the last one first.
pub record Server (sv : Services) (rates : Rates sv) : Type 0 where
  pub limiters : Limiters rates.Limiter
  pub world : World sv
  pub lines : List String

-- A handler with its middleware.
abbrev pub Serve : (sv : Services) → Rates sv → Type 0
Serve sv rates = Server sv rates → Response × Server sv rates
