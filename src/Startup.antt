-- ===== src/Startup.antt =====
-- The start and the end of `main` in api/main.go, over the set-up of the packages cache, db and
-- queue. `log.Fatalf` ends the process.
pub mod Clients
pub mod Process
pub mod Broker
pub mod Database
pub mod Redis
pub mod Dialling
pub mod Ready
use Prim.Native.String.{◌++◌}
use exploding_user_data_scal.Prelude.{ℕ, String, Bool, Option, none, some, ◌==◌, if◌then◌else◌}
use exploding_user_data_scal.Values.{GoError}
use exploding_user_data_scal.Middleware.CircuitBreaker.{CircuitBreakers, init_circuit_breakers}
use exploding_user_data_scal.Startup.Clients.{Drivers}
use exploding_user_data_scal.Startup.Process.{Outcome, running, fatal, Boot, act, done, ◌>>=◌, ◌>>◌}
use exploding_user_data_scal.Startup.Broker
use exploding_user_data_scal.Startup.Database
use exploding_user_data_scal.Startup.Redis

-- What `http.Server` is given: the address, and the timeouts in nanoseconds.
pub record ServerSettings : Type 0 where
  pub addr : String
  pub read_timeout : ℕ
  pub write_timeout : ℕ
  pub idle_timeout : ℕ

module _ (dr : Drivers) where
  -- What is there once `main` serves requests.
  pub record Started : Type 0 where
    pub pools : Database.Database dr
    pub client : dr.Client
    pub broker : Broker.Broker dr
    pub breakers : CircuitBreakers
    pub release_mode : Bool
    pub server : ServerSettings

  abbrev pub port : String
  port = let p = dr.getenv "PORT" in if p == "" then "8080" else p

  abbrev pub server_settings : ServerSettings
  server_settings = record {
    addr = ":" ++ port;
    read_timeout = 10000000000;
    write_timeout = 10000000000;
    idle_timeout = 30000000000;
  }

  -- `main` up to the start of the server, and what the consumer reads from.
  unfoldable pub start_up : Boot dr.Net Started
  start_up = do
    pools ← Database.init dr
    client ← Redis.init dr
    broker ← Broker.init dr
    Broker.start_consumer dr broker
    done (record {
      pools = pools;
      client = client;
      broker = broker;
      breakers = init_circuit_breakers dr.getenv;
      release_mode = dr.getenv "ENV" == "production";
      server = server_settings;
    })

  -- `main` after the signal: the server is given 15 seconds to end its requests, and its error is
  -- only logged; then the deferred calls, the last one first.
  unfoldable pub shut_down : Started → dr.Net → dr.Net
  shut_down s n =
      let (failed, n1) = dr.shutdown 15000000000 n in
      Database.close dr s.pools (Redis.close dr s.client (Broker.close dr s.broker n1))

  -- After `srv.ListenAndServe()`: only `http.ErrServerClosed` leaves the process running.
  abbrev pub listened : Option GoError → Outcome (Unit {0})
  listened none = running tt
  listened (some e) = if dr.is_server_closed e then running tt else fatal "Server error: %v" e

  -- The goroutine that serves requests.
  unfoldable pub listen : Started → Boot dr.Net (Unit {0})
  listen s n = let (failed, n') = dr.listen_and_serve s.server.addr n in (listened failed, n')

  -- `main`, where the signal comes while the server listens: `Shutdown` ends it.
  unfoldable pub main : Boot dr.Net (Unit {0})
  main = do s ← start_up; act dr.wait_for_signal; act (shut_down s)
