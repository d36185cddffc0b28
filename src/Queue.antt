-- ===== src/Queue.antt =====
-- api/queue/rabbitmq.go: Publish, QueueDepth, and the loop of StartConsumer. `Init`, `Close` and the
-- start of the consumer are in Startup.
use exploding_user_data_scal.Prelude.{
  ℕ, String, Bool, true, false, Option, none, some, List, [], ◌∷◌,
}
use exploding_user_data_scal.Values.{
  GoError, wrapped, Result, ok, err, Time, TransactionMessage, message,
}
use exploding_user_data_scal.Config.{get_env}
use exploding_user_data_scal.Services.{Services, Publishing}
use exploding_user_data_scal.Services.Action.{Action, pure, ◌>>=◌, ◌>>◌, on_broker, on_host}

-- `getEnv("RABBITMQ_QUEUE_TRANSACTION", "transactions_queue")`.
abbrev pub queue_name : (String → String) → String
queue_name getenv = get_env getenv "RABBITMQ_QUEUE_TRANSACTION" "transactions_queue"

-- `fmt.Errorf("queue publish error: %w", err)`, where there is an error.
abbrev pub publish_error : Option GoError → Option GoError
publish_error none = none
publish_error (some e) = some (wrapped "queue publish error" e)

-- A delivery of the consumer's channel.
pub record Delivery (sv : Services) : Type 0 where
  pub tag : ℕ
  pub body : sv.Bytes

module _ (sv : Services) where
  -- The message that is published: persistent (2) and mandatory.
  abbrev pub publishing : TransactionMessage → Time → sv.Bytes → Publishing sv.Bytes
  publishing msg at b = record {
    routing_key = queue_name sv.getenv;
    mandatory = true;
    content_type = "application/json";
    delivery_mode = 2;
    message_id = msg.transaction_id;
    timestamp = at;
    body = b;
  }

  abbrev pub publish_bytes : TransactionMessage → Result sv.Bytes → Action sv (Option GoError)
  publish_bytes msg (err e) = pure (some (wrapped "queue marshal error" e))
  publish_bytes msg (ok b) = do
    at ← on_host sv sv.now
    failed ← on_broker sv (sv.publish (publishing msg at b))
    pure (publish_error failed)

  -- `Publish(ctx, msg)`.
  unfoldable pub publish : TransactionMessage → Action sv (Option GoError)
  publish msg = publish_bytes msg (sv.marshal message msg)

  -- `QueueDepth()`.
  unfoldable pub queue_depth : Action sv (Result ℕ)
  queue_depth = on_broker sv (sv.queue_inspect (queue_name sv.getenv))

  abbrev pub ack : ℕ → Action sv (Unit {0})
  ack tag = on_broker sv (λ b. (tt, sv.ack tag b))

  abbrev pub nack : ℕ → Bool → Action sv (Unit {0})
  nack tag requeue = on_broker sv (λ b. (tt, sv.nack tag requeue b))

  -- The end of the loop's body: requeue on an error, acknowledge otherwise.
  abbrev pub settle : ℕ → Option GoError → Action sv (Unit {0})
  settle tag (some e) = nack tag true
  settle tag none = ack tag

  abbrev pub handle :
      (TransactionMessage → Action sv (Option GoError))
      → ℕ
      → Result TransactionMessage
      → Action sv (Unit {0})
  handle process tag (err e) = nack tag false
  handle process tag (ok msg) = do failed ← process msg; settle tag failed

  -- The body of `for d := range msgs`.
  unfoldable pub consume :
      (TransactionMessage → Action sv (Option GoError)) → Delivery sv → Action sv (Unit {0})
  consume process d = handle process d.tag (sv.unmarshal message d.body)

  -- The loop, over the deliveries in their order.
  unfoldable pub consume_all :
      (TransactionMessage → Action sv (Option GoError)) → List (Delivery sv) → Action sv (Unit {0})
  consume_all process [] = pure tt
  consume_all process (d ∷ ds) = consume process d >> consume_all process ds
