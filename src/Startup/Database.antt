-- ===== src/Startup/Database.antt =====
-- api/db/postgres.go: connect, Init and Close.
use Prim.Native.String.{◌++◌}
use exploding_user_data_scal.Prelude.{String}
use exploding_user_data_scal.Config.{trim_space, get_env_int}
use exploding_user_data_scal.Startup.Clients.{Drivers, PoolSettings}
use exploding_user_data_scal.Startup.Process.{Boot, done, ◌>>=◌, ◌>>◌, try, check, act}

module _ (dr : Drivers) where
  -- `Database`: the pools of the primary and of the replica.
  pub record Database : Type 0 where
    pub write : dr.Pool
    pub read : dr.Pool

  abbrev pub setting : String → String
  setting name = trim_space (dr.getenv name)

  -- The text that lib/pq parses.
  unfoldable pub dsn : String → String → String
  dsn host port =
      "host="
      ++ (host
          ++ (" port="
              ++ (port
                  ++ (" user="
                      ++ (setting "DB_USER"
                          ++ (" password="
                              ++ (setting "DB_PASSWORD"
                                  ++ (" dbname="
                                      ++ (setting "DB_NAME" ++ " sslmode=disable")))))))))

  abbrev pub pool_settings : PoolSettings
  pool_settings = record {
    max_open = get_env_int dr.getenv "DB_MAX_OPEN_CONNS" "25";
    max_idle = get_env_int dr.getenv "DB_MAX_IDLE_CONNS" "10";
    max_lifetime = 300000000000;
    max_idle_time = 120000000000;
  }

  -- `connect`.
  unfoldable pub connect : String → String → Boot dr.Net dr.Pool
  connect host port = do
    pool ← try "Failed to open DB" (dr.sql_open (dsn host port))
    act (dr.set_limits pool pool_settings)
    check "Failed to ping DB" (dr.ping_pool pool)
    done pool

  -- `Init`: the primary first.
  unfoldable pub init : Boot dr.Net Database
  init = do
    write ← connect (setting "DB_WRITE_HOST") (setting "DB_WRITE_PORT")
    read ← connect (setting "DB_READ_HOST") (setting "DB_READ_PORT")
    done (record { write = write; read = read })

  -- `Close`, after `Init`.
  abbrev pub close : Database → dr.Net → dr.Net
  close d n = dr.close_pool d.read (dr.close_pool d.write n)
