-- ===== src/Examples/Starting.antt =====
-- The theorems on the set-up, with client libraries that answer after some tries.
use exploding_user_data_scal.Prelude.{false, ℕ, ◌+◌, String, ◌≡◌, refl, ltb, if◌then◌else◌, none}
use exploding_user_data_scal.Values.{other, ok, err}
use exploding_user_data_scal.Config.{trim_space}
use exploding_user_data_scal.Middleware.CircuitBreaker.{init_circuit_breakers}
use exploding_user_data_scal.Startup.Clients.{Drivers}
use exploding_user_data_scal.Startup.Process.{running}
use exploding_user_data_scal.Startup.Broker as Broker
use exploding_user_data_scal.Startup.Database as Database
use exploding_user_data_scal.Startup.Redis as Redis
use exploding_user_data_scal.Startup.Dialling.{Dialled, dial_rounds-Dialled}
use exploding_user_data_scal.Startup.{Started, start_up}
use exploding_user_data_scal.Startup.Ready.{Answered, IsReady, start_up-Answered}

-- The network is the number of seconds since the containers were started; RabbitMQ needs seven.
abbrev slow_broker : Drivers
slow_broker = record {
  Net = ℕ;
  Conn = Unit {0};
  Channel = Unit {0};
  Pool = String;
  Client = Unit {0};
  getenv = λ name. "";
  sleep = λ nanoseconds n. n + 3;
  dial = λ url n. (if ltb n 7 then err (other "connection refused") else ok tt, n);
  open_channel = λ conn n. (ok tt, n);
  queue_declare = λ ch d n. (none, n);
  qos = λ ch prefetch n. (none, n);
  consume = λ ch c n. (none, n);
  close_channel = λ ch n. n;
  close_conn = λ conn n. n;
  sql_open = λ dsn n. (ok dsn, n);
  set_limits = λ p limits n. n;
  ping_pool = λ p n. (none, n);
  close_pool = λ p n. n;
  new_client = λ options n. (tt, n);
  ping_client = λ c n. (none, n);
  close_client = λ c n. n;
  is_server_closed = λ e. false;
  listen_and_serve = λ addr n. (none, n);
  wait_for_signal = λ n. n + 60;
  shutdown = λ nanoseconds n. (none, n);
}

-- The fourth try succeeds.
fourth_try : Broker.dial_five slow_broker 0 ≡ (ok tt, 9)
unfolding Broker.dial_rounds
fourth_try = refl

dial_rounds-Dialled_example :
    Dialled slow_broker "amqp://" 5 0 (Broker.dial_rounds slow_broker "amqp://" 5 (other "") 0)
dial_rounds-Dialled_example = dial_rounds-Dialled slow_broker "amqp://" 5 (other "") 0

abbrev up : Started slow_broker
up = record {
  pools = record { write = Database.dsn slow_broker "" ""; read = Database.dsn slow_broker "" "" };
  client = tt;
  broker = record { conn = tt; channel = tt };
  breakers = init_circuit_breakers (λ name. "");
  release_mode = false;
  server = record {
    addr = ":8080";
    read_timeout = 10000000000;
    write_timeout = 10000000000;
    idle_timeout = 30000000000;
  };
}

comes_up : (start_up slow_broker 0).0 ≡ running up
unfolding start_up Database.init Database.connect Redis.init Broker.init Broker.dial_rounds
    Broker.start_consumer trim_space
comes_up = refl

start_up-Answered_example :
    Answered slow_broker (slow_broker.ping_pool up.pools.write)
    × Answered slow_broker (slow_broker.ping_pool up.pools.read)
    × Answered slow_broker (slow_broker.ping_client tt)
    × IsReady slow_broker up.broker
    × Answered slow_broker (slow_broker.consume tt (Broker.consumption slow_broker))
start_up-Answered_example = start_up-Answered slow_broker 0 up comes_up
