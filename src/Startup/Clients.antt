-- ===== src/Startup/Clients.antt =====
-- The client libraries as the set-up uses them: amqp091-go, database/sql with lib/pq, go-redis and
-- net/http, over one state of the network.
use exploding_user_data_scal.Prelude.{ℕ, String, Bool, Option}
use exploding_user_data_scal.Prelude.Int.{ℤ}
use exploding_user_data_scal.Values.{GoError, Result}

-- The arguments of `channel.QueueDeclare`.
pub record QueueDeclaration : Type 0 where
  pub name : String
  pub durable : Bool
  pub auto_delete : Bool
  pub exclusive : Bool
  pub no_wait : Bool
  pub max_length : ℕ
  pub overflow : String

-- Those of `channel.Consume` that are not zero values.
pub record Consumption : Type 0 where
  pub queue : String
  pub auto_ack : Bool

-- The limits of a connection pool; the times are in nanoseconds.
pub record PoolSettings : Type 0 where
  pub max_open : ℤ
  pub max_idle : ℤ
  pub max_lifetime : ℕ
  pub max_idle_time : ℕ

-- `redis.Options`.
pub record RedisOptions : Type 0 where
  pub addr : String
  pub password : String
  pub db : ℕ
  pub pool_size : ℕ
  pub min_idle : ℕ
  pub dial_timeout : ℕ
  pub read_timeout : ℕ
  pub write_timeout : ℕ

pub record Drivers : Type 1 where
  pub Net : Type 0
  pub Conn : Type 0
  pub Channel : Type 0
  pub Pool : Type 0
  pub Client : Type 0
  pub getenv : String → String
  pub sleep : ℕ → Net → Net
  pub dial : String → Net → Result Conn × Net
  pub open_channel : Conn → Net → Result Channel × Net
  pub queue_declare : Channel → QueueDeclaration → Net → Option GoError × Net
  pub qos : Channel → ℤ → Net → Option GoError × Net
  pub consume : Channel → Consumption → Net → Option GoError × Net
  pub close_channel : Channel → Net → Net
  pub close_conn : Conn → Net → Net
  pub sql_open : String → Net → Result Pool × Net
  pub set_limits : Pool → PoolSettings → Net → Net
  pub ping_pool : Pool → Net → Option GoError × Net
  pub close_pool : Pool → Net → Net
  pub new_client : RedisOptions → Net → Client × Net
  pub ping_client : Client → Net → Option GoError × Net
  pub close_client : Client → Net → Net
  pub is_server_closed : GoError → Bool
  pub listen_and_serve : String → Net → Option GoError × Net
  pub wait_for_signal : Net → Net
  pub shutdown : ℕ → Net → Option GoError × Net
