-- ===== src/Handler/GetTransaction/Answers.antt =====
-- What GET /transactions/:id answers, from a cache whose entries are current.
use mathlib.Core.Path.{subst}
use exploding_user_data_scal.Prelude.{
  String, true, ◌≡◌, ◌≢◌, refl, ap, ◌∙◌, inl, inr, [], ◌∷◌, arith, Bool-cases, is-ne,
}
use exploding_user_data_scal.Prelude.Int.{ℤ}
use exploding_user_data_scal.Values.{
  GoError, no_rows, is_no_rows, Result, ok, err, TransactionResponse, transaction,
}
use exploding_user_data_scal.Metrics.{cache_misses_total}
use exploding_user_data_scal.Cache
use exploding_user_data_scal.Cache.{Fetched, hit, miss, error, default_ttl}
use exploding_user_data_scal.Cache.Coherent.{HoldsCurrent-set, HoldsCurrent-loss, fetched-Current}
use exploding_user_data_scal.Cache.Keys.{transaction_key, transaction_key_injective}
use exploding_user_data_scal.Services.{Services}
use exploding_user_data_scal.Services.Sql.{read, transaction_by_id}
use exploding_user_data_scal.Services.Action.{World, on_breaker}
use exploding_user_data_scal.Services.Laws.{
  DbLaws, ReplicaLaws, BreakerLaws, RedisLaws, JsonLaws, Answers,
}
use exploding_user_data_scal.Services.Laws.Reads.{Answers-ok, Answers-no_rows, on_breaker-Answers}
use exploding_user_data_scal.Tables.{Tables}
use exploding_user_data_scal.Handler.{Response, transaction_body}
use exploding_user_data_scal.Handler.GetTransaction.{
  query_transaction, transaction_error, keep_transaction, fetch_transaction, serve_transaction,
  get_transaction,
}
use exploding_user_data_scal.Handler.GetTransaction.Coherent.{
  view, query_transaction-Answers, IsCoherent,
}

module _ (sv : Services) (trace_id : String) (db : DbLaws sv) (replica : ReplicaLaws sv db)
    (breaker : BreakerLaws sv) (redis : RedisLaws sv) (json : JsonLaws sv) where
  open db use {tables}

  -- An answer that is right for these tables: the transaction with code 200, 404 where there is
  -- none, or 500.
  pub data Shows (t : Tables) (id : String) (answer : Response) : Type 0 where
    shown :
        (cached : String) (txn : TransactionResponse)
        → view sv db t id ≡ ok txn
        → answer
          ≡ record { code = 200; headers = ("X-Cache", cached) ∷ []; body = transaction_body txn }
        → Shows t id answer
    unknown : view sv db t id ≡ err no_rows → answer.code ≡ 404 → Shows t id answer
    broken : answer.code ≡ 500 → Shows t id answer

  -- A state that has these rows, and only current entries.
  abbrev pub IsCurrent : Tables → World sv → Type 0
  IsCurrent t w = (tables w.db ≡ t) × IsCoherent sv db redis json w.redis t

  Right : Tables → String → Response × World sv → Type 0
  Right t id (answer, w') = Shows t id answer × IsCurrent t w'

  query_transaction-tables :
      (id : String) (d : sv.Db) → tables (query_transaction sv id d).1 ≡ tables d
  unfolding query_transaction
  query_transaction-tables id d = db.query-tables read (transaction_by_id id) d

  set-db :
      (key : String) (txn : TransactionResponse) (ttl : ℤ) (w : World sv)
      → (Cache.set sv transaction key txn ttl w).1.db ≡ w.db
  unfolding Cache.set
  set-db key txn ttl w = ground arith

  error-Shows :
      (t : Tables) (id : String) (e : GoError)
      → (is_no_rows e ≡ true → view sv db t id ≡ err no_rows)
      → Shows t id (transaction_error sv trace_id e)
  error-Shows t id e h = elim (Bool-cases (is_no_rows e)) [
    | inl absent ↦ unknown (h absent) (rw absent refl)
    | inr plain ↦ broken (rw plain refl)
  ]

  keep_transaction-Right :
      (t : Tables) (id : String) (row : Result TransactionResponse) (w : World sv)
      → Answers row (view sv db t id)
      → IsCurrent t w
      → Right t id (keep_transaction sv trace_id id row w)
  unfolding Right
  keep_transaction-Right t id (ok txn) w row h =
      let current = Answers-ok txn (view sv db t id) row in
      (
        shown "MISS" txn current refl,
        (
          ap tables (set-db (transaction_key id) txn (default_ttl sv.getenv) w) ∙ h.0,
          HoldsCurrent-set sv redis transaction transaction_key (λ i v. view sv db t i ≡ ok v) json
              transaction_key_injective id txn (default_ttl sv.getenv) w current h.1,
        ),
      )
  keep_transaction-Right t id (err e) w row h =
      (error-Shows t id e (Answers-no_rows e (view sv db t id) row), h)

  fetch_transaction-Right :
      (t : Tables) (id : String) (w : World sv)
      → IsCurrent t w
      → Right t id (fetch_transaction sv trace_id id w)
  unfolding fetch_transaction
  fetch_transaction-Right t id w h =
      let w0 = record w { metrics = cache_misses_total "transaction" ∷ w.metrics } in
      let (row, w1) = on_breaker sv TransactionResponse (query_transaction sv id) w0 in
      let (answers, same) =
        on_breaker-Answers sv db breaker TransactionResponse (query_transaction sv id)
          (λ rows. view sv db rows id) (query_transaction-Answers sv db replica id)
          (query_transaction-tables id) w0 in
      keep_transaction-Right t id row w1
        (subst (λ (rows : Tables). Answers row (view sv db rows id)) h.0 answers) (same ∙ h.0, h.1)

  serve_transaction-Right :
      (t : Tables) (id : String) (cached : Fetched TransactionResponse) (w : World sv)
      → ((txn : TransactionResponse) → cached ≡ hit txn → view sv db t id ≡ ok txn)
      → IsCurrent t w
      → Right t id (serve_transaction sv trace_id id cached w)
  serve_transaction-Right t id (hit txn) w c h =
      unfold Right in (shown "HIT" txn (c txn refl) refl, h)
  serve_transaction-Right t id miss w c h = fetch_transaction-Right t id w h
  serve_transaction-Right t id (error e) w c h =
      fetch_transaction-Right t id
        (record w { metrics = cache_misses_total "transaction" ∷ w.metrics }) h

  -- While the read pool answers by the tables and every cached transaction is the one in the
  -- tables, GET /transactions/:id with an id shows the transaction that the tables hold, from the
  -- cache or not; or it answers 404, and the tables hold none; or 500. In each case no row has
  -- changed and every cached transaction is still the one in the tables.
  pub get_transaction-Shows :
      (id : String) (w : World sv)
      → id ≢ ""
      → IsCoherent sv db redis json w.redis (tables w.db)
      → let (answer, w') = get_transaction sv trace_id id w in
        Shows (tables w.db) id answer × IsCurrent (tables w.db) w'
  unfolding get_transaction Right Cache.get
  get_transaction-Shows id w named h =
      let key = transaction_key id in
      let (reply, r) = sv.redis_get key w.redis in
      let Current =
        λ (i : String) (txn : TransactionResponse). view sv db (tables w.db) i ≡ ok txn in
      rw (is-ne id "" named) (
        serve_transaction-Right (tables w.db) id (Cache.fetched sv transaction reply)
          (record w { redis = r })
          (fetched-Current sv redis transaction transaction_key Current id w.redis reply
            (λ b. redis.get-found key w.redis b) h)
          (
            refl,
            HoldsCurrent-loss sv redis transaction transaction_key Current w.redis r
                (λ k. redis.get-keeps key k w.redis) h,
          ))
