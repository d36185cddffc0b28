-- ===== src/Handler/CreateTransaction/Idempotency.antt =====
-- A client that repeats a request with its idempotency key.
pub mod First
pub mod Race
use exploding_user_data_scal.Prelude.{
  String, true, false, ◌≡◌, ◌≢◌, refl, sym, ◌∙◌, ◌⊎◌, inl, inr, Option, none, some, arith,
  Bool-cases, eq_iff, ◌==◌, is-ne,
}
use exploding_user_data_scal.Values.{
  GoError, Result, ok, err, Result-cases, CreateTransactionRequest, text,
}
use exploding_user_data_scal.Cache
use exploding_user_data_scal.Cache.Keys.{idempotency_key, idempotency_key-ne-empty}
use exploding_user_data_scal.Queue
use exploding_user_data_scal.Services.{Services, failed}
use exploding_user_data_scal.Services.Sql.{user_active, read}
use exploding_user_data_scal.Services.Action.{World}
use exploding_user_data_scal.Services.Laws.{RedisLaws, JsonLaws}
use exploding_user_data_scal.Handler.{Response}
use exploding_user_data_scal.Handler.CreateTransaction.{
  bind, exists, reference, request_key, idempotency_ttl, new_transaction, accepted,
  queue_unavailable, already_processed, find_duplicate, remember, enqueue, after_insert, insert,
  create_new, unless_duplicate, create_active, create_bound, create_transaction,
}
use exploding_user_data_scal.Handler.CreateTransaction.Queued.{bind-cases, find_duplicate-db}
use exploding_user_data_scal.Handler.CreateTransaction.Idempotency.First.{
  Names, Stores, create_bound-Stores,
}

module _ (sv : Services) (trace_id : String) (redis : RedisLaws sv) (json : JsonLaws sv) where
  open redis use {stored}

  module _ (req : CreateTransactionRequest) (keyed : req.idempotency ≢ "") where
    -- A stored id is found again while Redis answers.
    find_duplicate-stored :
        (id : String) (b : sv.Bytes) (w : World sv)
        → sv.marshal text id ≡ ok b
        → stored w.redis (request_key req) ≡ some b
        → ((e : GoError) → (sv.redis_get (request_key req) w.redis).0 ≢ failed e)
        → (find_duplicate sv trace_id req w).0 ≡ some id
    unfolding find_duplicate Cache.get
    find_duplicate-stored id b w marshalled there answers =
        let key = idempotency_key req.user_id req.idempotency in
        let other = is-ne req.idempotency "" keyed in
        let there' : stored w.redis key ≡ some b = rw other at there in
        rw other (elim (redis.get-stored key w.redis b there') [
          | inl hit ↦ rw hit (rw (json.unmarshal-marshal text id b marshalled) refl)
          | inr (e, down) ↦ absurd (answers e (rw other down))
        ])

    -- The second call only asks for the user and for the key.
    abbrev pub OnlyAnswers : String → World sv → Response × World sv → Type 0
    OnlyAnswers id w (answer, w') =
        (answer ≡ already_processed sv trace_id id)
        × (w'.db ≡ (sv.query read (user_active req.user_id) w.db).1)
        × (w'.broker ≡ w.broker)

    create_bound-duplicate :
        (id : String) (w : World sv)
        → (sv.query read (user_active req.user_id) w.db).0 ≡ ok true
        → (find_duplicate sv trace_id req
            (record w { db = (sv.query read (user_active req.user_id) w.db).1 })).0
          ≡ some id
        → OnlyAnswers id w (create_bound sv trace_id req w)
    unfolding create_bound create_active
    create_bound-duplicate id w active seen =
        let w1 = record w { db = (sv.query read (user_active req.user_id) w.db).1 } in
        let (same_db, same_broker) = find_duplicate-db sv trace_id req w1 in
        rw active (rw seen (refl, same_db, same_broker))

    bind-decoded :
        (body : sv.Bytes)
        → sv.decode_create body ≡ ok req
        → (bind sv body ≡ ok req) ⊎ ((e : GoError) × (bind sv body ≡ err e))
    bind-decoded body decoded = elim (bind-cases sv body) [
      | inr bad ↦ inr bad
      | inl (other, bound, decoded', valid) ↦ inl (bound ∙ sym decoded' ∙ decoded)
    ]

    -- A client repeats a request with an idempotency key that was fresh. If the first call was
    -- answered by 202 and its SET reached Redis, and at the second call the entry is still there,
    -- the user is still active and Redis answers, then the second call answers "already_processed"
    -- with the id that the first call answered; it runs no statement but the check of the user,
    -- and sends no message.
    pub repeated_request :
        (body : sv.Bytes) (w w2 : World sv)
        → sv.decode_create body ≡ ok req
        → stored w.redis (request_key req) ≡ none
        → (create_transaction sv trace_id body w).0.code ≡ 202
        → stored (create_transaction sv trace_id body w).1.redis (request_key req) ≢ none
        → stored w2.redis (request_key req)
          ≡ stored (create_transaction sv trace_id body w).1.redis (request_key req)
        → (sv.query read (user_active req.user_id) w2.db).0 ≡ ok true
        → ((e : GoError) → (sv.redis_get (request_key req) w2.redis).0 ≢ failed e)
        → (id : String) × Names sv trace_id redis json (create_transaction sv trace_id body w).0 id
          × OnlyAnswers id w2 (create_transaction sv trace_id body w2)
    unfolding create_transaction
    repeated_request body w w2 decoded fresh accepted_once written lasts active answers =
        elim (bind-decoded body decoded) [
          | inr (e, bad) ↦ absurd (omega (arith, rw bad at accepted_once))
          | inl bound ↦
              let (answer, w1) = create_bound sv trace_id req w in
              rw bound (
                repeats answer w1 (rw bound at accepted_once) (rw bound at written)
                  (rw bound at lasts)
                  (create_bound-Stores sv trace_id redis json req keyed w fresh))
        ]
      where
        repeats :
            (answer : Response) (w1 : World sv)
            → answer.code ≡ 202
            → stored w1.redis (request_key req) ≢ none
            → stored w2.redis (request_key req) ≡ stored w1.redis (request_key req)
            → Stores sv trace_id redis json req answer w1.redis
            → (id : String) × Names sv trace_id redis json answer id
              × OnlyAnswers id w2 (create_bound sv trace_id req w2)
        repeats answer w1 code kept same (inl other) = absurd (other code)
        repeats answer w1 code kept same (inr (id, names, inl gone)) = absurd (kept gone)
        repeats answer w1 code kept same (inr (id, names, inr (b, marshalled, there))) = (
          id,
          names,
          create_bound-duplicate id w2 active (
              find_duplicate-stored id b
                (record w2 { db = (sv.query read (user_active req.user_id) w2.db).1 }) marshalled
                (same ∙ there) answers),
        )
