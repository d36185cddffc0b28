-- ===== src/Routes/Posting.antt =====
-- What POST /transactions does at the server, through all of its middleware.
use exploding_user_data_scal.Prelude.{String, ◌≡◌, ◌∷◌, ◌⊎◌}
use exploding_user_data_scal.Services.{Services}
use exploding_user_data_scal.Services.Action.{World}
use exploding_user_data_scal.Services.Laws.{DbLaws, BrokerLaws, BreakerLaws}
use exploding_user_data_scal.Tables.{Tables}
use exploding_user_data_scal.Handler.{Response}
use exploding_user_data_scal.Handler.CreateTransaction.Queued.{Queued}
use exploding_user_data_scal.Handler.CreateTransaction.Created.{Created}
use exploding_user_data_scal.Middleware.RateLimit.{Rates}
use exploding_user_data_scal.Middleware.RequestContext.{begin_request}
use exploding_user_data_scal.Server.{Request, Web, Server}

module _ (sv : Services) (trace_id : String) (db : DbLaws sv) (broker : BrokerLaws sv)
    (breaker : BreakerLaws sv) where
  open db use {tables}

  -- What a request has done at the server: turned away by the limiter or the breaker it has changed
  -- no row and no message; else it has done what CreateTransaction says it did.
  pub data Posted (body : sv.Bytes) (w : World sv) (answer : Response) (w' : World sv)
      : Type 0 where
    turned_away :
        (answer.code ≡ 429) ⊎ (answer.code ≡ 503)
        → tables w'.db ≡ tables w.db
        → w'.broker ≡ w.broker
        → Posted body w answer w'
    handed_on :
        (inner : Response)
        → answer ≡ record {
          code = inner.code;
          headers = ("X-Trace-ID", trace_id) ∷ inner.headers;
          body = inner.body;
        }
        → Created sv trace_id db broker breaker body w inner w'
        → Posted body w answer w'

module _ (sv : Services) (web : Web sv) (rates : Rates sv) (db : DbLaws sv) (broker : BrokerLaws sv)
    (breaker : BreakerLaws sv) (req : Request sv.Bytes) (s : Server sv rates) where
  -- The trace id of the request.
  abbrev pub trace : String
  trace = (begin_request sv web req.trace_header s.world).0
