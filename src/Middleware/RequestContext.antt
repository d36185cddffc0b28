-- ===== src/Middleware/RequestContext.antt =====
-- api/middleware/timeout.go: generateTraceID and RequestContext. The deadline of five seconds that it
-- gives to the request's context shows as an error of a service's call, which every call may
-- return.
use Prim.Native.String.{◌++◌}
use exploding_user_data_scal.Prelude.{ℕ, String, ◌≡◌, ◌∷◌, ◌==◌, if◌then◌else◌}
use exploding_user_data_scal.Values.{Time}
use exploding_user_data_scal.Digits.{decimal, hex}
use exploding_user_data_scal.Digits.Reading.{decimal_injective, hex_injective, decimal-IsFree}
use exploding_user_data_scal.Text.{split_at_text}
use exploding_user_data_scal.Services.{Services}
use exploding_user_data_scal.Services.Action.{Action, pure, ◌>>=◌, on_host}
use exploding_user_data_scal.Handler.{Response}
use exploding_user_data_scal.Middleware.RateLimit.{Rates}
use exploding_user_data_scal.Server.{Request, Web, Serve}

abbrev pub trace_id_header : String
trace_id_header = "X-Trace-ID"

-- `fmt.Sprintf("%d-%x", at, r)`.
unfoldable pub trace_text : Time → ℕ → String
trace_text at r = decimal at ++ ("-" ++ hex r)

-- `c.Header(TraceIDHeader, traceID)`, before the rest of the chain adds its own.
abbrev pub with_trace : String → Response → Response
with_trace trace_id r = record r { headers = (trace_id_header, trace_id) ∷ r.headers }

module _ (sv : Services) (web : Web sv) where
  -- `generateTraceID`.
  unfoldable pub generate_trace_id : Action sv String
  generate_trace_id = do at ← on_host sv sv.now; r ← on_host sv web.random; pure (trace_text at r)

  -- The client's trace id, or a new one.
  abbrev pub choose_trace_id : String → Action sv String
  choose_trace_id header = if header == "" then generate_trace_id else pure header

  -- Before `c.Next()`: the trace id; `start_time` reads the clock.
  abbrev pub begin_request : String → Action sv String
  begin_request header = do trace_id ← choose_trace_id header; at ← on_host sv sv.now; pure trace_id

  -- `RequestContext`, for the rest of the chain, which takes the trace id.
  unfoldable pub request_context :
      (rates : Rates sv) → Request sv.Bytes → (String → Serve sv rates) → Serve sv rates
  request_context rates req rest s =
      let (trace_id, w) = begin_request req.trace_header s.world in
      let (answer, s') = rest trace_id (record s { world = w }) in (with_trace trace_id answer, s')

-- Trace ids that are made at different times, or from different random numbers, differ.
pub trace_text_injective :
    (at at' : Time) (r r' : ℕ) → trace_text at r ≡ trace_text at' r' → (at ≡ at') × (r ≡ r')
unfolding trace_text
trace_text_injective at at' r r' e =
    let (times, randoms) =
      split_at_text "-" (decimal at) (decimal at') (hex r) (hex r') (decimal-IsFree at)
        (decimal-IsFree at') e in
    (decimal_injective at at' times, hex_injective r r' randoms)
