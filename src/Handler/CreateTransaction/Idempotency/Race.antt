-- ===== src/Handler/CreateTransaction/Idempotency/Race.antt =====
-- Two calls of CreateTransaction with one idempotency key whose steps interleave: both look for the
-- key before either has stored it.
use mathlib.Core.Path.{subst}
use mathlib.Core.Option.{none-ne-some}
use exploding_user_data_scal.Prelude.{
  arith, String, ◌≡◌, ◌≢◌, refl, sym, ap, ◌∙◌, Option, none, some, is-ne,
}
use exploding_user_data_scal.Values.{Time, CreateTransactionRequest, text}
use exploding_user_data_scal.Cache
use exploding_user_data_scal.Services.{Services, Reply, found, missing, failed}
use exploding_user_data_scal.Services.Sql.{insert_pending}
use exploding_user_data_scal.Services.Action.{World}
use exploding_user_data_scal.Services.Laws.{DbLaws, BrokerLaws, BreakerLaws, RedisLaws, JsonLaws}
use exploding_user_data_scal.Tables.{Tables, apply}
use exploding_user_data_scal.Handler.{Response}
use exploding_user_data_scal.Handler.CreateTransaction.{
  request_key, new_transaction, hit_or_none, find_duplicate, unless_duplicate,
}
use exploding_user_data_scal.Handler.CreateTransaction.Queued.{find_duplicate-db}
use exploding_user_data_scal.Handler.CreateTransaction.Created.{
  Made, made, refused, reply_lost, create_new-Made,
}
use exploding_user_data_scal.Handler.CreateTransaction.Idempotency.First.{find_duplicate-fresh}

-- The schedule: both checks, then the rest of the first call, then the rest of the second.
abbrev pub checks_first :
    (sv : Services) (t t' : String) (req req' : CreateTransactionRequest)
    → World sv
    → (Response × Response) × World sv
checks_first sv t t' req req' w =
    let (seen, w1) = find_duplicate sv t req w in
    let (seen', w2) = find_duplicate sv t' req' w1 in
    let (answer, w3) = unless_duplicate sv t req seen w2 in
    let (answer', w4) = unless_duplicate sv t' req' seen' w3 in ((answer, answer'), w4)

module _ (sv : Services) (redis : RedisLaws sv) where
  open redis use {stored}

  -- A key that is not stored is no hit, whatever Redis replies.
  fetched-none :
      (k : String) (r : sv.Redis) (reply : Reply sv.Bytes)
      → stored r k ≡ none
      → ((b : sv.Bytes) → reply ≡ found b → stored r k ≡ some b)
      → hit_or_none (Cache.fetched sv text reply) ≡ none
  fetched-none k r (found b) empty h = absurd (none-ne-some b (sym empty ∙ h b refl))
  fetched-none k r missing empty h = refl
  fetched-none k r (failed e) empty h = refl

  find_duplicate-none :
      (t : String) (req : CreateTransactionRequest) (w : World sv)
      → req.idempotency ≢ ""
      → stored w.redis (request_key req) ≡ none
      → (find_duplicate sv t req w).0 ≡ none
  unfolding find_duplicate Cache.get
  find_duplicate-none t req w keyed fresh = rw (is-ne req.idempotency "" keyed) (
      fetched-none _ w.redis _ (rw (is-ne req.idempotency "" keyed) at fresh)
        (λ b. redis.get-found _ w.redis b))

module _ (sv : Services) (t t' : String) (db : DbLaws sv) (broker : BrokerLaws sv)
    (breaker : BreakerLaws sv) (redis : RedisLaws sv) (json : JsonLaws sv) where
  open db use {columns, tables}
  open redis use {stored}

  -- The row that one call has inserted.
  abbrev pub Inserted : String → CreateTransactionRequest → Tables → Tables → Type 0
  Inserted trace_id req before after =
      (id : String) × (ref : String) × (at : Time) × (after
        ≡ apply columns at (insert_pending (new_transaction sv trace_id req id ref)) before)

  Made-Inserted :
      (trace_id : String) (req : CreateTransactionRequest) (before : Tables) (queue : sv.Broker)
      (answer : Response) (w' : World sv)
      → Made sv trace_id db broker breaker req before queue answer w'
      → answer.code ≡ 202
      → Inserted trace_id req before (tables w'.db)
  Made-Inserted trace_id req before queue answer w' (made id ref at code rows queued) h =
      (id, ref, at, rows)
  Made-Inserted trace_id req before queue answer w' (refused code rows same) h = absurd (code h)
  Made-Inserted trace_id req before queue answer w' (reply_lost id ref at code rows same) h =
      absurd (omega (arith, code, h))

  -- The rest of the two calls, once neither check has found the key.
  rests-Inserted :
      (req req' : CreateTransactionRequest) (seen seen' : Option String) (w : World sv)
      → seen ≡ none
      → seen' ≡ none
      → let (answer, w3) = unless_duplicate sv t req seen w in
        let (answer', w4) = unless_duplicate sv t' req' seen' w3 in
        answer.code ≡ 202
        → answer'.code ≡ 202
        → Inserted t req (tables w.db) (tables w3.db)
          × Inserted t' req' (tables w3.db) (tables w4.db)
  rests-Inserted req req' none none w first second h h' =
      let (answer, w3) = unless_duplicate sv t req none w in
      let (answer', w4) = unless_duplicate sv t' req' none w3 in
      (
        Made-Inserted t req (tables w.db) w.broker answer w3
            (create_new-Made sv t db broker breaker req w) h,
        Made-Inserted t' req' (tables w3.db) w3.broker answer' w4
            (create_new-Made sv t' db broker breaker req' w3) h',
      )
  rests-Inserted req req' (some id) seen' w first second h h' = cc first
  rests-Inserted req req' none (some id) w first second h h' = cc second

  -- While a key is not in Redis, two calls with that key whose checks both come before the rest of
  -- either are no duplicates of each other: if both answer 202, each has inserted a row of its own,
  -- the first call's and then the second call's.
  pub checks_first-Inserted :
      (req req' : CreateTransactionRequest) (w : World sv)
      → req.idempotency ≢ ""
      → req'.idempotency ≢ ""
      → request_key req' ≡ request_key req
      → stored w.redis (request_key req) ≡ none
      → (checks_first sv t t' req req' w).0.0.code ≡ 202
      → (checks_first sv t t' req req' w).0.1.code ≡ 202
      → (between : Tables) × Inserted t req (tables w.db) between
        × Inserted t' req' between (tables (checks_first sv t t' req req' w).1.db)
  checks_first-Inserted req req' w keyed keyed' same fresh h h' =
      let (seen, w1) = find_duplicate sv t req w in
      let (seen', w2) = find_duplicate sv t' req' w1 in
      let still = find_duplicate-fresh sv t redis json req keyed w fresh in
      let first = find_duplicate-none sv redis t req w keyed fresh in
      let second =
        find_duplicate-none sv redis t' req' w1 keyed' (ap (stored w1.redis) same ∙ still) in
      let (one, other) = rests-Inserted req req' seen seen' w2 first second h h' in
      let rows =
        ap tables (find_duplicate-db sv t' req' w1).0
        ∙ ap tables (find_duplicate-db sv t req w).0 in
      (
        tables (unless_duplicate sv t req seen w2).1.db,
        subst (λ (x : Tables). Inserted t req x (tables (unless_duplicate sv t req seen w2).1.db))
            rows one,
        other,
      )
