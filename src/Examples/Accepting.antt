-- ===== src/Examples/Accepting.antt =====
-- The theorem on the payments of accepted requests, at a run of a request, its message and a second
-- request.
use mathlib.Core.List.{Subset, mem-cons_self, not-mem-nil}
use exploding_user_data_scal.Prelude.{◌≡◌, refl, List, [], ◌∷◌, ◌++◌, true}
use exploding_user_data_scal.Config.{get_env_int, get_env}
use exploding_user_data_scal.Digits.{decimal, hex}
use exploding_user_data_scal.Services.{Publishing}
use exploding_user_data_scal.Middleware.CircuitBreaker.{circuit_breaker}
use exploding_user_data_scal.Middleware.RateLimit.{rate_limit, get_limiter, lookup, touch}
use exploding_user_data_scal.Middleware.RequestContext.{
  request_context, generate_trace_id, trace_text,
}
use exploding_user_data_scal.Middleware.Logger.{logger, report}
use exploding_user_data_scal.Server.{Request, post_transactions_v0}
use exploding_user_data_scal.Routes.{serve, limited, endpoint}
use exploding_user_data_scal.System.{Event, request, delivery, step}
use exploding_user_data_scal.System.Balances.{payments}
use exploding_user_data_scal.System.Accepted.{accepted, Delivered, run-Accepted}
use exploding_user_data_scal.Examples.Store.{services, Encoded, of_message}
use exploding_user_data_scal.Examples.Laws.{db_laws, broker_laws, breaker_laws, json_laws}
use exploding_user_data_scal.Examples.Calls.{opens_create, msg}
use exploding_user_data_scal.Examples.Limits.{buckets}
use exploding_user_data_scal.Examples.Requests.{web, web_laws, post, server}
use exploding_user_data_scal.Examples.Waiting.{in_use}

-- The message that the first request leaves in the queue.
abbrev sent : Publishing Encoded
sent = record {
  routing_key = "transactions_queue";
  mandatory = true;
  content_type = "application/json";
  delivery_mode = 2;
  message_id = msg.transaction_id;
  timestamp = 8;
  body = of_message (record msg { trace_id = "0-a"; created_at = 7 });
}

abbrev baseline : Request Encoded
baseline = record post { route = post_transactions_v0; path = "/v0/transactions" }

abbrev events : List (Event services)
events = request post ∷ delivery (record { tag = 1; body = sent.body }) ∷ request baseline ∷ []

post-sends : (serve services web buckets post server).1.world.broker.queue ≡ sent ∷ []
unfolding opens_create serve request_context logger report limited rate_limit generate_trace_id
    lookup touch get_limiter get_env_int get_env circuit_breaker endpoint decimal hex trace_text
post-sends = refl

deliveries : Delivered services web buckets in_use broker_laws events server
unfolding Delivered step
deliveries = (tt, ((sent, rw post-sends mem-cons_self, refl), (tt, tt)))

run-Accepted_example :
    Subset
      (payments services web buckets in_use events server)
      ([] ++ accepted services web buckets in_use events server)
run-Accepted_example =
    run-Accepted services web buckets in_use broker_laws db_laws breaker_laws json_laws web_laws
      events server [] (λ p m there decoded. absurd (not-mem-nil there)) deliveries
