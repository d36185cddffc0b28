-- ===== src/Examples/Requests.antt =====
-- The theorems on requests at the server, at concrete requests.
use exploding_user_data_scal.Prelude.{ℕ, ◌+◌, ◌*◌, true, false, ◌≡◌, ◌≢◌, refl, [], arith, eq_iff}
use exploding_user_data_scal.Values.{ok}
use exploding_user_data_scal.Config.{get_env_int, get_env}
use exploding_user_data_scal.Digits.{decimal, hex}
use exploding_user_data_scal.Handler.{json}
use exploding_user_data_scal.Middleware.RateLimit.{get_limiter, lookup, touch}
use exploding_user_data_scal.Middleware.RateLimit.WellFormed.{IsWellFormed}
use exploding_user_data_scal.Middleware.RateLimit.Reachable.{IsReachable-IsWellFormed}
use exploding_user_data_scal.Middleware.RequestContext.{
  trace_text, trace_text_injective, generate_trace_id,
}
use exploding_user_data_scal.Server.{Request, Web, WebLaws, Server, get_health, post_transactions}
use exploding_user_data_scal.Routes.{serve}
use exploding_user_data_scal.Routes.Accounting.{Recorded, serve-Recorded}
use exploding_user_data_scal.Routes.Refusals.{
  Untouched, DataUntouched, asked, serve_refused, serve-open,
}
use exploding_user_data_scal.Examples.Store.{services, Encoded, form, garbage}
use exploding_user_data_scal.Examples.Calls.{start, request}
use exploding_user_data_scal.Examples.Limits.{
  buckets, two_clients, two_clients-IsReachable, tripped,
}

abbrev pub web : Web services
web = record {
  random = λ h. (h * 7 + 3, h + 1);
  rfc3339 = decimal;
  log_json = λ entry. ok entry.path;
  metrics_page = λ w. (json 200 [], w);
  not_found = json 404 [];
}

pub web_laws : WebLaws services web
web_laws = record { metrics_page-world = λ w. refl }

abbrev pub post : Request Encoded
post = record {
  method = "POST";
  path = "/transactions";
  route = post_transactions;
  client_ip = "10.0.0.2";
  user_agent = "k6";
  trace_header = "";
  body = form request;
}

-- The same from a client that has used up its tokens, and a look at the health.
abbrev pub drained : Request Encoded
drained = record post { client_ip = "10.0.0.1"; trace_header = "mine" }

abbrev probe : Request Encoded
probe = record post { route = get_health; method = "GET"; path = "/health"; body = garbage }

abbrev pub server : Server services buckets
server = record { limiters = two_clients; world = start; lines = [] }

abbrev broken : Server services buckets
broken = record server { world = tripped }

pub server-IsWellFormed : IsWellFormed two_clients
server-IsWellFormed = IsReachable-IsWellFormed services buckets two_clients two_clients-IsReachable

trace_text_injective_example : ◌≡◌ {A = ℕ} 12 12 × ◌≡◌ {A = ℕ} 255 255
trace_text_injective_example = trace_text_injective 12 12 255 255 refl

trace_text_runs : trace_text 12 255 ≡ "12-ff"
unfolding trace_text decimal hex
trace_text_runs = refl

serve-Recorded_example :
    Recorded services web buckets post server (serve services web buckets post server)
serve-Recorded_example = serve-Recorded services web buckets web_laws post server

drained-asked : (asked services web buckets drained server).0 ≡ false
unfolding generate_trace_id lookup touch get_limiter
drained-asked = refl

serve_refused_example :
    let (answer, s') = serve services web buckets drained server in
    (answer.code ≡ 429) × Untouched services web buckets start s'.world
serve_refused_example =
    serve_refused services web buckets drained server server-IsWellFormed drained-asked

post-asked : (asked services web buckets post broken).0 ≡ true
unfolding generate_trace_id lookup touch get_limiter get_env_int get_env
post-asked = refl

live : services.getenv "ENV" ≢ "test"
live = ground (arith, eq_iff "" "test")

serve-open_example :
    let (answer, s') = serve services web buckets post broken in
    (answer.code ≡ 503) × DataUntouched services web buckets tripped s'.world
serve-open_example =
    serve-open services web buckets post broken server-IsWellFormed post-asked refl live refl
