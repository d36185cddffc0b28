-- ===== src/System.antt =====
-- The goroutines that api/main.go starts: the server's, the consumer's, `collectMetrics` and the
-- clean-up of api/middleware/ratelimit.go. Each takes whole steps, in any order: a request with its
-- handler, a delivery, a tick of the collector, a clean-up.
pub mod Balances
pub mod Invariant
pub mod Accepted
pub mod Caches
use exploding_user_data_scal.Prelude.{ℕ, List, [], ◌∷◌}
use exploding_user_data_scal.Services.{Services}
use exploding_user_data_scal.Services.Sql.{Pool}
use exploding_user_data_scal.Queue.{Delivery, consume}
use exploding_user_data_scal.Worker.{process_transaction}
use exploding_user_data_scal.Collector.{collect}
use exploding_user_data_scal.Middleware.RateLimit.{Rates, cleanup_limiters}
use exploding_user_data_scal.Server.{Request, Web, Server}
use exploding_user_data_scal.Routes.{serve}

pub data Event (sv : Services) : Type 0 where
  request : Request sv.Bytes → Event sv
  delivery : Delivery sv → Event sv
  tick clean_up : Event sv

module _ (sv : Services) (web : Web sv) (rates : Rates sv) (in_use : Pool → sv.Db → ℕ) where
  unfoldable pub step : Event sv → Server sv rates → Server sv rates
  step (request req) s = (serve sv web rates req s).1
  step (delivery d) s = record s { world = (consume sv (process_transaction sv) d s.world).1 }
  step tick s = record s { world = (collect sv in_use s.world).1 }
  step clean_up s =
      let (l, h) = cleanup_limiters sv rates s.limiters s.world.host in
      record s { limiters = l; world = record s.world { host = h } }

  -- A run of the service, by the order of its steps.
  unfoldable pub run : List (Event sv) → Server sv rates → Server sv rates
  run [] s = s
  run (e ∷ es) s = run es (step e s)
