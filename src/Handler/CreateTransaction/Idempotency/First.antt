-- ===== src/Handler/CreateTransaction/Idempotency/First.antt =====
-- What a request with a fresh idempotency key leaves under the key.
use exploding_user_data_scal.Prelude.{
  String, false, ◌≡◌, ◌≢◌, refl, ◌∙◌, ◌⊎◌, inl, inr, Option, none, some, arith, Bool-cases, ◌==◌,
  is-ne,
}
use exploding_user_data_scal.Values.{Result, ok, err, Result-cases, CreateTransactionRequest, text}
use exploding_user_data_scal.Cache
use exploding_user_data_scal.Cache.Keys.{idempotency_key, idempotency_key-ne-empty}
use exploding_user_data_scal.Queue
use exploding_user_data_scal.Services.{Services}
use exploding_user_data_scal.Services.Sql.{user_active, read}
use exploding_user_data_scal.Services.Action.{World}
use exploding_user_data_scal.Services.Laws.{RedisLaws, JsonLaws}
use exploding_user_data_scal.Handler.{Response}
use exploding_user_data_scal.Handler.CreateTransaction.{
  exists, reference, request_key, idempotency_ttl, new_transaction, accepted, queue_unavailable,
  find_duplicate, remember, enqueue, after_insert, insert, create_new, unless_duplicate,
  create_active, create_bound,
}

request_key-ne-empty :
    (req : CreateTransactionRequest) → req.idempotency ≢ "" → (request_key req == "") ≡ false
request_key-ne-empty req h =
    rw (is-ne req.idempotency "" h)
      (is-ne _ "" (idempotency_key-ne-empty req.user_id req.idempotency))

module _ (sv : Services) (trace_id : String) (redis : RedisLaws sv) (json : JsonLaws sv) where
  open redis use {stored}

  -- The id that is stored under a key, if any is.
  abbrev Holds : String → String → sv.Redis → Type 0
  Holds key id r =
      (stored r key ≡ none)
      ⊎ ((b : sv.Bytes) × (sv.marshal text id ≡ ok b) × (stored r key ≡ some b))

  set-Holds :
      (key id : String) (w : World sv)
      → stored w.redis key ≡ none
      → Holds key id (Cache.set sv text key id idempotency_ttl w).1.redis
  unfolding Cache.set
  set-Holds key id w fresh = elim (Result-cases (sv.marshal text id)) [
    | inr (e, bad) ↦ rw bad (inl fresh)
    | inl (b, good) ↦ elim (redis.set-failed key b idempotency_ttl w.redis) [
      | inl written ↦ rw good (inr (b, refl, written))
      | inr (inl stays) ↦ rw good (inl (stays ∙ fresh))
      | inr (inr gone) ↦ rw good (inl gone)
    ]
  ]

  remember-Holds :
      (req : CreateTransactionRequest) (id : String) (w : World sv)
      → req.idempotency ≢ ""
      → stored w.redis (request_key req) ≡ none
      → Holds (request_key req) id (remember sv trace_id req id w).1.redis
  unfolding remember
  remember-Holds req id w keyed fresh =
      rw (request_key-ne-empty req keyed) (set-Holds (request_key req) id w fresh)

  enqueue-redis :
      (req : CreateTransactionRequest) (id ref : String) (w : World sv)
      → (enqueue sv trace_id req id ref w).1.redis ≡ w.redis
  unfolding enqueue Queue.publish
  enqueue-redis req id ref w = ground arith

  -- The two answers with code 202, by the id that they name.
  abbrev pub Names : Response → String → Type 0
  Names answer id =
      (ref : String) × ((answer ≡ accepted sv trace_id id ref)
        ⊎ (answer ≡ queue_unavailable sv trace_id id ref))

  enqueue-Names :
      (req : CreateTransactionRequest) (id ref : String) (w : World sv)
      → Names (enqueue sv trace_id req id ref w).0 id
  unfolding enqueue
  enqueue-Names req id ref w = (ref, ground arith)

  -- A request under a fresh key that is answered by 202 leaves its id there, or nothing.
  abbrev pub Stores : CreateTransactionRequest → Response → sv.Redis → Type 0
  Stores req answer r =
      (answer.code ≢ 202) ⊎ ((id : String) × Names answer id × Holds (request_key req) id r)

  module _ (req : CreateTransactionRequest) (keyed : req.idempotency ≢ "") where
    after_insert-Stores :
        (id ref : String) (inserted : Result (Unit {0})) (w : World sv)
        → stored w.redis (request_key req) ≡ none
        → let (answer, w') = after_insert sv trace_id req id ref inserted w in
          Stores req answer w'.redis
    after_insert-Stores id ref (err e) w fresh = inl (omega arith)
    after_insert-Stores id ref (ok done) w fresh =
        let w1 = (remember sv trace_id req id w).1 in
        inr (
          id,
          enqueue-Names req id ref w1,
          rw (enqueue-redis req id ref w1) (remember-Holds req id w keyed fresh),
        )

    create_new-Stores :
        (w : World sv)
        → stored w.redis (request_key req) ≡ none
        → let (answer, w') = create_new sv trace_id req w in Stores req answer w'.redis
    unfolding create_new
    create_new-Stores w fresh =
        let (id, h) = sv.uuid w.host in
        let (date, h') = sv.now h in
        let ref = reference (sv.format_date date) id in
        let (inserted, w2) =
          insert sv trace_id (new_transaction sv trace_id req id ref) (record w { host = h' }) in
        after_insert-Stores id ref inserted w2 fresh

    pub find_duplicate-fresh :
        (w : World sv)
        → stored w.redis (request_key req) ≡ none
        → stored (find_duplicate sv trace_id req w).1.redis (request_key req) ≡ none
    unfolding find_duplicate Cache.get
    find_duplicate-fresh w fresh =
        let key = idempotency_key req.user_id req.idempotency in
        let other = is-ne req.idempotency "" keyed in
        let empty : stored w.redis key ≡ none = rw other at fresh in
        rw other
          (elim (redis.get-keeps key key w.redis) [ inl stays ↦ stays ∙ empty | inr gone ↦ gone ])

    create_active-Stores :
        (w : World sv)
        → stored w.redis (request_key req) ≡ none
        → let (answer, w') = create_active sv trace_id req w in Stores req answer w'.redis
    unfolding create_active
    create_active-Stores w fresh =
        let (seen, w') = find_duplicate sv trace_id req w in
        unless_duplicate-Stores seen w' (find_duplicate-fresh w fresh)
      where
        unless_duplicate-Stores :
            (seen : Option String) (w' : World sv)
            → stored w'.redis (request_key req) ≡ none
            → let (answer, w2) = unless_duplicate sv trace_id req seen w' in
              Stores req answer w2.redis
        unless_duplicate-Stores (some id) w' empty = inl (omega arith)
        unless_duplicate-Stores none w' empty = create_new-Stores w' empty

    pub create_bound-Stores :
        (w : World sv)
        → stored w.redis (request_key req) ≡ none
        → let (answer, w') = create_bound sv trace_id req w in Stores req answer w'.redis
    unfolding create_bound
    create_bound-Stores w fresh =
        let (row, d) = sv.query read (user_active req.user_id) w.db in
        elim (Bool-cases (exists row)) [
          | inl active ↦ rw active (create_active-Stores (record w { db = d }) fresh)
          | inr unknown ↦ rw unknown (inl (omega arith))
        ]
