-- ===== src/Handler/CreateTransaction/Queued.antt =====
-- The parts of CreateTransaction: binding the body, the calls of the cache, and the message.
use exploding_user_data_scal.Prelude.{
  String, true, false, none, ◌≡◌, refl, ◌⊎◌, inl, inr, [], ◌∷◌, ◌++◌, arith, Option-cases,
  Bool-cases,
}
use exploding_user_data_scal.Values.{
  GoError, ok, err, Result-cases, Time, CreateTransactionRequest, TransactionMessage, message,
}
use exploding_user_data_scal.Cache
use exploding_user_data_scal.Queue
use exploding_user_data_scal.Queue.{publishing}
use exploding_user_data_scal.Services.{Services}
use exploding_user_data_scal.Services.Action.{World}
use exploding_user_data_scal.Services.Laws.{BrokerLaws}
use exploding_user_data_scal.Handler.{Response}
use exploding_user_data_scal.Handler.CreateTransaction.{
  validate, bind, accepted, queue_unavailable, find_duplicate, remember, enqueue,
}

-- A body binds to the request that it decodes to, if that passes the tags.
pub bind-cases :
    (sv : Services) (body : sv.Bytes)
    → ((req : CreateTransactionRequest) × (bind sv body ≡ ok req)
        × (sv.decode_create body ≡ ok req)
        × (validate req ≡ true))
      ⊎ ((e : GoError) × (bind sv body ≡ err e))
unfolding bind
bind-cases sv body = elim (Result-cases (sv.decode_create body)) [
  | inr (e, bad) ↦ inr (e, ground arith)
  | inl (req, decoded) ↦ elim (Bool-cases (validate req)) [
    | inl valid ↦ inl (req, ground arith, decoded, valid)
    | inr invalid ↦ inr (sv.invalid_create req, ground arith)
  ]
]

module _ (sv : Services) (trace_id : String) where
  pub remember-db :
      (req : CreateTransactionRequest) (id : String) (w : World sv)
      → ((remember sv trace_id req id w).1.db ≡ w.db)
        × ((remember sv trace_id req id w).1.broker ≡ w.broker)
  unfolding remember Cache.set
  remember-db req id w = ground arith

  pub find_duplicate-db :
      (req : CreateTransactionRequest) (w : World sv)
      → ((find_duplicate sv trace_id req w).1.db ≡ w.db)
        × ((find_duplicate sv trace_id req w).1.broker ≡ w.broker)
  unfolding find_duplicate Cache.get
  find_duplicate-db req w = ground arith

  module _ (broker : BrokerLaws sv) where
    open broker use {messages, has_room}

    -- The message of a request.
    abbrev pub message_of : CreateTransactionRequest → String → Time → TransactionMessage
    message_of req id at = record {
      transaction_id = id;
      user_id = req.user_id;
      type = req.type;
      amount = req.amount;
      description = req.description;
      trace_id = trace_id;
      created_at = at;
    }

    -- The queue has one message more: the row's, with the request's user, type and amount.
    abbrev pub Sent : CreateTransactionRequest → String → sv.Broker → sv.Broker → Type 0
    Sent req id before after =
        (at : Time) × (sent : Time) × (b : sv.Bytes) × (sv.marshal message (message_of req id at)
          ≡ ok b)
        × (messages after ≡ messages before ++ (publishing sv (message_of req id at) sent b ∷ []))

    -- The answer and the queue after the row was inserted: "accepted", and one message more, or
    -- none if the queue had no room; or a warning, and one message more or none.
    pub data Queued (req : CreateTransactionRequest) (id ref : String) (answer : Response)
        (before after : sv.Broker) : Type 0 where
      taken :
          answer ≡ accepted sv trace_id id ref
          → Sent req id before after
          → Queued req id ref answer before after
      dropped :
          answer ≡ accepted sv trace_id id ref
          → has_room before ≡ false
          → messages after ≡ messages before
          → Queued req id ref answer before after
      warned :
          answer ≡ queue_unavailable sv trace_id id ref
          → Sent req id before after ⊎ (messages after ≡ messages before)
          → Queued req id ref answer before after

    -- A publication is a message more or none.
    Published : CreateTransactionRequest → String → sv.Broker → sv.Broker → Type 0
    Published req id before after = Sent req id before after ⊎ (messages after ≡ messages before)

    publish-Sent :
        (req : CreateTransactionRequest) (id : String) (at sent : Time) (b : sv.Bytes)
        (q : sv.Broker)
        → sv.marshal message (message_of req id at) ≡ ok b
        → Published req id q (sv.publish (publishing sv (message_of req id at) sent b) q).1
    unfolding Published
    publish-Sent req id at sent b q good =
        elim (broker.publish-messages (publishing sv (message_of req id at) sent b) q) [
          | inl more ↦ inl (at, sent, b, good, more)
          | inr same ↦ inr same
        ]

    accepted-Queued :
        (req : CreateTransactionRequest) (id ref : String) (at sent : Time) (b : sv.Bytes)
        (q : sv.Broker)
        → sv.marshal message (message_of req id at) ≡ ok b
        → (sv.publish (publishing sv (message_of req id at) sent b) q).0 ≡ none
        → Queued req id ref
            (accepted sv trace_id id ref)
            q
            (sv.publish (publishing sv (message_of req id at) sent b) q).1
    unfolding Published
    accepted-Queued req id ref at sent b q good fine =
        let p = publishing sv (message_of req id at) sent b in
        elim (Bool-cases (has_room q)) [
          | inl room ↦ taken refl (at, sent, b, good, broker.publish-taken p q room fine)
          | inr full ↦ elim (publish-Sent req id at sent b q good) [
            | inl more ↦ taken refl more
            | inr same ↦ dropped refl full same
          ]
        ]

    pub enqueue-Queued :
        (req : CreateTransactionRequest) (id ref : String) (w : World sv)
        → let (answer, w') = enqueue sv trace_id req id ref w in
          (w'.db ≡ w.db) × Queued req id ref answer w.broker w'.broker
    unfolding enqueue Queue.publish Published
    enqueue-Queued req id ref w =
        let (at, h) = sv.now w.host in
        let (sent, h') = sv.now h in
        let msg = message_of req id at in
        elim (Result-cases (sv.marshal message msg)) [
          | inr (e, bad) ↦ rw bad (refl, warned refl (inr refl))
          | inl (b, good) ↦ elim (Option-cases (sv.publish (publishing sv msg sent b) w.broker).0) [
            | inl fine ↦
                rw good (rw fine (refl, accepted-Queued req id ref at sent b w.broker good fine))
            | inr (e, failed) ↦
                rw good
                  (rw failed (refl, warned refl (publish-Sent req id at sent b w.broker good)))
          ]
        ]
