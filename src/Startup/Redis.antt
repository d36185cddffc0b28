-- ===== src/Startup/Redis.antt =====
-- api/cache/redis.go: Init and Close.
use Prim.Native.String.{◌++◌}
use exploding_user_data_scal.Config.{trim_space}
use exploding_user_data_scal.Startup.Clients.{Drivers, RedisOptions}
use exploding_user_data_scal.Startup.Process.{Boot, running, done, ◌>>=◌, ◌>>◌, check}

module _ (dr : Drivers) where
  abbrev pub options : RedisOptions
  options = record {
    addr = trim_space (dr.getenv "REDIS_HOST") ++ (":" ++ trim_space (dr.getenv "REDIS_PORT"));
    password = trim_space (dr.getenv "REDIS_PASSWORD");
    db = 0;
    pool_size = 20;
    min_idle = 5;
    dial_timeout = 5000000000;
    read_timeout = 3000000000;
    write_timeout = 3000000000;
  }

  abbrev pub create : Boot dr.Net dr.Client
  create n = let (c, n') = dr.new_client options n in (running c, n')

  -- `Init`. The ping is given five seconds, which shows as its error.
  unfoldable pub init : Boot dr.Net dr.Client
  init = do client ← create; check "Failed to connect Redis" (dr.ping_client client); done client

  -- `Close`, after `Init`.
  abbrev pub close : dr.Client → dr.Net → dr.Net
  close client n = dr.close_client client n
