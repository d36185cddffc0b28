-- ===== src/Routes/Accounting.antt =====
-- What the server counts and logs for each request.
use exploding_user_data_scal.Prelude.{
  ◌==◌, if◌then◌else◌, ℕ, ◌+◌, ◌-◌, ◌/◌, String, is-ne, ◌≢◌, ◌≡◌, refl, ◌∙◌, ap, List, [], ◌∷◌,
  arith, length,
}
use exploding_user_data_scal.Values.{Time}
use exploding_user_data_scal.Digits.{decimal}
use exploding_user_data_scal.Metrics.{Metric, requests, http_requests_total, http_request_duration}
use exploding_user_data_scal.Services.{Services}
use exploding_user_data_scal.Services.Action.{World}
use exploding_user_data_scal.Handler.{Response}
use exploding_user_data_scal.Middleware.RateLimit.{Rates}
use exploding_user_data_scal.Middleware.RequestContext.{
  begin_request, generate_trace_id, request_context,
}
use exploding_user_data_scal.Middleware.Logger.{full_path, text_or_empty, report, logger}
use exploding_user_data_scal.Server.{
  Route, get_health, get_metrics, post_transactions, post_transactions_v0, unrouted,
  get_transactions, get_users_balance, get_transactions_v0, get_users_balance_v0, Request, Web,
  WebLaws, Server,
}
use exploding_user_data_scal.Routes.{limited, serve, serve_all}
use exploding_user_data_scal.Routes.Quiet.{rate_limit-Quiet}

-- The path that stands for a request: the route's pattern, or what the client sent where no route
-- fits.
abbrev pub pattern_of : Route → String → String
pattern_of get_health path = "/health"
pattern_of get_metrics path = "/metrics"
pattern_of post_transactions path = "/transactions"
pattern_of (get_transactions id) path = "/transactions/:id"
pattern_of (get_users_balance id) path = "/users/:id/balance"
pattern_of post_transactions_v0 path = "/v0/transactions"
pattern_of (get_transactions_v0 id) path = "/v0/transactions/:id"
pattern_of (get_users_balance_v0 id) path = "/v0/users/:id/balance"
pattern_of unrouted path = path

pattern_or_path :
    (route : Route) (path : String)
    → (if full_path route == "" then path else full_path route) ≡ pattern_of route path
pattern_or_path get_health path = refl
pattern_or_path get_metrics path = refl
pattern_or_path post_transactions path = refl
pattern_or_path (get_transactions id) path = refl
pattern_or_path (get_users_balance id) path = refl
pattern_or_path post_transactions_v0 path = refl
pattern_or_path (get_transactions_v0 id) path = refl
pattern_or_path (get_users_balance_v0 id) path = refl
pattern_or_path unrouted path = refl

module _ (sv : Services) (web : Web sv) (rates : Rates sv) where
  -- A request on record: the answer carries the trace id, the metrics count the request once under
  -- the code of the answer and give its latency, and the log has one line more, with the same code,
  -- latency and trace id.
  pub data Recorded (req : Request sv.Bytes) (s : Server sv rates)
      : Response × Server sv rates → Type 0 where
    recorded :
        (trace_id : String) (inner : Response) (ms : ℕ) (at : Time) (log : List Metric)
        (answer : Response) (s' : Server sv rates)
        → (req.trace_header ≢ "" → trace_id ≡ req.trace_header)
        → (req.trace_header ≡ "" → trace_id ≡ (generate_trace_id sv web s.world).0)
        → answer ≡ record {
          code = inner.code;
          headers = ("X-Trace-ID", trace_id) ∷ inner.headers;
          body = inner.body;
        }
        → s'.world.metrics
          ≡ http_request_duration req.method (pattern_of req.route req.path) ms
            ∷ http_requests_total req.method (pattern_of req.route req.path) (decimal answer.code)
            ∷ log
        → requests log ≡ requests s.world.metrics
        → s'.lines
          ≡ text_or_empty (
              web.log_json (record {
                timestamp = web.rfc3339 at;
                trace_id = trace_id;
                method = req.method;
                path = pattern_of req.route req.path;
                status_code = answer.code;
                latency_ms = ms;
                client_ip = req.client_ip;
                user_agent = req.user_agent;
                error = "";
              }))
            ∷ s.lines
        → Recorded req s (answer, s')

  begin_request-metrics :
      (header : String) (w : World sv) → (begin_request sv web header w).1.metrics ≡ w.metrics
  unfolding generate_trace_id
  begin_request-metrics header w = ground arith

  -- Whatever answers a request - the handler, gin, the limiter or the breaker -, the answer has in
  -- its header X-Trace-ID the trace id of the client, or a new one where it sends none; the request
  -- is counted once under the code of the answer, and logged once with that code, that trace id, and
  -- the request's method, path, address and agent.
  pub serve-Recorded :
      WebLaws sv web
      → (req : Request sv.Bytes) (s : Server sv rates) → Recorded req s (serve sv web rates req s)
  unfolding serve request_context logger report limited
  serve-Recorded laws req s =
      let (trace_id, w) = begin_request sv web req.trace_header s.world in
      let path = pattern_or_path req.route req.path in
      let (start, h) = sv.now w.host in
      let (inner, s1) =
        limited sv web rates req trace_id (record s { world = record w { host = h } }) in
      let (end, h1) = sv.now s1.world.host in
      let ms = (end - start) / 1000000 in
      let at = (sv.now h1).0 in
      recorded trace_id inner ms at s1.world.metrics (serve sv web rates req s).0
        (serve sv web rates req s).1 (λ given. rw (is-ne req.trace_header "" given) refl)
        (λ none_given. rw none_given refl) refl
        (ap
          (λ p.
            http_request_duration req.method p ms
            ∷ http_requests_total req.method p (decimal inner.code)
            ∷ s1.world.metrics)
          path)
        (rate_limit-Quiet sv trace_id rates web laws req.client_ip req.route req.body s.limiters
            (record w { host = (sv.now w.host).1 })
          ∙ ap requests (begin_request-metrics req.trace_header s.world))
        (ap
          (λ (p : String).
            text_or_empty (
              web.log_json (record {
                timestamp = web.rfc3339 at;
                trace_id = trace_id;
                method = req.method;
                path = p;
                status_code = inner.code;
                latency_ms = ms;
                client_ip = req.client_ip;
                user_agent = req.user_agent;
                error = "";
              }))
            ∷ s.lines)
          path)

  pub Recorded-counts :
      (req : Request sv.Bytes) (s : Server sv rates) (r : Response × Server sv rates)
      → Recorded req s r
      → (requests r.1.world.metrics ≡ requests s.world.metrics + 1)
        × (length r.1.lines ≡ length s.lines + 1)
  unfolding requests
  Recorded-counts req s r
        (recorded trace_id inner ms at log answer s' chosen made traced counted quiet logged) =
      (omega (arith, ap requests counted, quiet), omega (arith, ap length logged))

  -- After any requests the counter of requests has gone up by their number, and the log has as many
  -- lines more.
  pub serve_all-counts :
      WebLaws sv web
      → (reqs : List (Request sv.Bytes)) (s : Server sv rates)
      → let s' = serve_all sv web rates reqs s in
        (requests s'.world.metrics ≡ requests s.world.metrics + length reqs)
        × (length s'.lines ≡ length s.lines + length reqs)
  unfolding serve_all
  serve_all-counts laws [] s = omega arith
  serve_all-counts laws (req ∷ reqs) s = omega (
    arith,
    Recorded-counts req s _ (serve-Recorded laws req s),
    serve_all-counts laws reqs (serve sv web rates req s).1,
  )
