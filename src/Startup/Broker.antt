-- ===== src/Startup/Broker.antt =====
-- api/queue/rabbitmq.go: Init, the start of StartConsumer, and Close.
use exploding_user_data_scal.Prelude.{ℕ, zero, suc, String, true, false}
use exploding_user_data_scal.Prelude.Int.{ℤ}
use exploding_user_data_scal.Values.{GoError, other, Result, ok, err}
use exploding_user_data_scal.Config.{trim_space, get_env_int}
use exploding_user_data_scal.Queue.{queue_name}
use exploding_user_data_scal.Startup.Clients.{Drivers, QueueDeclaration, Consumption}
use exploding_user_data_scal.Startup.Process.{Boot, done, ◌>>=◌, ◌>>◌, try, check, act}

module _ (dr : Drivers) where
  -- The package's variables `conn` and `channel`, once `Init` has set them.
  pub record Broker : Type 0 where
    pub conn : dr.Conn
    pub channel : dr.Channel

  -- The loop of `Init`, with the tries that are left and the error so far. Each failed try, the
  -- last one too, is followed by a sleep of three seconds.
  unfoldable pub dial_rounds : String → ℕ → GoError → dr.Net → Result dr.Conn × dr.Net
  dial_rounds url zero e n = (err e, n)
  dial_rounds url (suc k) e n =
      let (r, n1) = dr.dial url n in
      elim r [ ok conn ↦ (ok conn, n1) | err e' ↦ dial_rounds url k e' (dr.sleep 3000000000 n1) ]

  abbrev pub broker_url : String
  broker_url = trim_space (dr.getenv "RABBITMQ_URL")

  -- The loop has five rounds, so the error before the first one is never seen.
  abbrev pub dial_five : dr.Net → Result dr.Conn × dr.Net
  dial_five = dial_rounds broker_url 5 (other "")

  -- A durable queue of at most 100,000 messages that rejects what is published beyond.
  abbrev pub declaration : QueueDeclaration
  declaration = record {
    name = queue_name dr.getenv;
    durable = true;
    auto_delete = false;
    exclusive = false;
    no_wait = false;
    max_length = 100000;
    overflow = "reject-publish";
  }

  abbrev pub prefetch : ℤ
  prefetch = get_env_int dr.getenv "RABBITMQ_PREFETCH_COUNT" "10"

  -- `Init`. The error of `channel.Qos` is dropped.
  unfoldable pub init : Boot dr.Net Broker
  init = do
    conn ← try "Failed to connect RabbitMQ" dial_five
    channel ← try "Failed to open RabbitMQ channel" (dr.open_channel conn)
    check "Failed to declare queue" (dr.queue_declare channel declaration)
    act (λ n. (dr.qos channel prefetch n).1)
    done (record { conn = conn; channel = channel })

  abbrev pub consumption : Consumption
  consumption = record { queue = queue_name dr.getenv; auto_ack = false }

  -- `StartConsumer` before the goroutine.
  unfoldable pub start_consumer : Broker → Boot dr.Net (Unit {0})
  start_consumer b = check "Failed to start consumer" (dr.consume b.channel consumption)

  -- `Close`, after `Init`.
  abbrev pub close : Broker → dr.Net → dr.Net
  close b n = dr.close_conn b.conn (dr.close_channel b.channel n)
