-- ===== src/Services.antt =====
-- What the program calls and does not implement: Redis through go-redis, PostgreSQL through
-- database/sql, RabbitMQ through amqp091-go, the circuit breaker of sony/gobreaker, JSON, request
-- decoding, the clock and the identifiers. They are the fields of one record, over abstract
-- states. A call may answer with any error, and what other clients do between two calls is part
-- of how the abstract states move.
pub mod Sql
pub mod Action
pub mod Laws
use exploding_user_data_scal.Prelude.{List, ℕ, String, Bool, Option}
use exploding_user_data_scal.Prelude.Int.{ℤ}
use exploding_user_data_scal.Values.{GoError, Result, Time, CreateTransactionRequest, Kind, Payload}
use Sql.{Pool, Query, Row, Statement}

-- The reply of `Client.Get(ctx, key).Bytes()`: `redis.Nil` is the reply for a missing key.
pub data Reply (A : Type 0) : Type 0 where
  found : A → Reply A
  missing : Reply A
  failed : GoError → Reply A

-- The fields of `amqp.Publishing` that `Publish` gives, with the routing key and the flags.
pub record Publishing (A : Type 0) : Type 0 where
  pub routing_key : String
  pub mandatory : Bool
  pub content_type : String
  pub delivery_mode : ℕ
  pub message_id : String
  pub timestamp : Time
  pub body : A

pub data BreakerState : Type 0 where
  closed half_open open_state : BreakerState

pub record Services : Type 1 where
  -- Encoded JSON.
  pub Bytes : Type 0
  -- The states of the services.
  pub Redis : Type 0
  pub Db : Type 0
  pub Tx : Type 0
  pub Broker : Type 0
  pub Breaker : Type 0
  pub Host : Type 0
  -- encoding/json on the values that the program stores and sends.
  pub marshal : (k : Kind) → Payload k → Result Bytes
  pub unmarshal : (k : Kind) → Bytes → Result (Payload k)
  -- The decoding half of `c.ShouldBindJSON`, and the error of its validating half.
  pub decode_create : Bytes → Result CreateTransactionRequest
  pub invalid_create : CreateTransactionRequest → GoError
  -- go-redis. A TTL is a number of nanoseconds.
  pub redis_get : String → Redis → Reply Bytes × Redis
  pub redis_set : String → Bytes → ℤ → Redis → Option GoError × Redis
  pub redis_del : String → Redis → Option GoError × Redis
  pub redis_ping : Redis → Option GoError × Redis
  -- database/sql. `exec`, `begin` and the transaction go to the pool of the primary.
  pub query : Pool → (q : Query) → Db → Result (Row q) × Db
  pub exec : Statement → Db → Option GoError × Db
  pub begin : Db → Result Tx × Db
  pub tx_exec : Statement → Tx → Option GoError × Tx
  pub commit : Tx → Db → Option GoError × Db
  pub rollback : Tx → Db → Db
  pub db_ping : Db → Option GoError × Db
  -- amqp091-go. A delivery is acknowledged by its tag.
  pub publish : Publishing Bytes → Broker → Option GoError × Broker
  pub queue_inspect : String → Broker → Result ℕ × Broker
  pub ack : ℕ → Broker → Broker
  pub nack : ℕ → Bool → Broker → Broker
  -- gobreaker, on the closures of the handlers, which call the database. The type is that of the
  -- value that the closure returns as `interface{}`, and that its caller asserts.
  pub cb_execute : (A : Type 0) → (Db → Result A × Db) → Breaker → Db → Result A × Breaker × Db
  pub cb_state : Breaker → BreakerState × Breaker
  -- The states that `OnStateChange` is called with between two states of a breaker, the last one
  -- first.
  pub cb_changes : Breaker → Breaker → List BreakerState
  -- The process: time, identifiers, environment variables.
  pub now : Host → Time × Host
  pub uuid : Host → String × Host
  pub sleep : ℕ → Host → Host
  pub getenv : String → String
  -- `t.Format("20060102")`.
  pub format_date : Time → String
