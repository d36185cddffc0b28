-- ===== src/Handler/GetTransaction/Late.antt =====
-- A GET of a transaction whose steps interleave with the worker: it reads the row before, and
-- stores it in the cache after the worker has deleted the entry.
use mathlib.Core.Option as Opt
use exploding_user_data_scal.Prelude.{
  String, ◌≡◌, ◌≢◌, refl, ap, ◌∙◌, inl, inr, Option, none, some, is-ne, arith, eq_iff,
}
use exploding_user_data_scal.Values.{
  GoError, Result, ok, TransactionResponse, transaction, TransactionMessage,
}
use exploding_user_data_scal.Metrics.{cache_misses_total}
use exploding_user_data_scal.Cache
use exploding_user_data_scal.Cache.{hit, default_ttl}
use exploding_user_data_scal.Cache.Keys.{transaction_key}
use exploding_user_data_scal.Services.{Services, failed}
use exploding_user_data_scal.Services.Action.{World, Action, pure, ◌>>=◌, ◌>>◌, count, on_breaker}
use exploding_user_data_scal.Services.Laws.{DbLaws, BreakerLaws, RedisLaws, JsonLaws}
use exploding_user_data_scal.Services.Sql.{read, transaction_by_id}
use exploding_user_data_scal.Services.Laws.Reads.{on_breaker-KeepsTables}
use exploding_user_data_scal.Worker.Ledger.{process_transaction_atomic}
use exploding_user_data_scal.Tables.Ledger.{status_of}
use exploding_user_data_scal.Handler.{Response}
use exploding_user_data_scal.Handler.GetTransaction.{
  query_transaction, keep_transaction, show_transaction, get_transaction,
}
use exploding_user_data_scal.Worker.{process_transaction}

-- What the query of `fetch_transaction` finds.
abbrev pub found_before : (sv : Services) → String → Action sv (Result TransactionResponse)
found_before sv id = do
  count (cache_misses_total "transaction")
  on_breaker sv TransactionResponse (query_transaction sv id)

-- `fetch_transaction`, with a run of the worker between the query and the write to the cache.
abbrev pub late :
    (sv : Services) → String → String → TransactionMessage → Action sv (Response × Option GoError)
late sv trace_id id msg = do
  found ← found_before sv id
  processed ← process_transaction sv msg
  answer ← keep_transaction sv trace_id id found
  pure (answer, processed)

module _ (sv : Services) (trace_id : String) (redis : RedisLaws sv) (json : JsonLaws sv) where
  -- A transaction that is stored is the answer while Redis answers.
  get_transaction-stored :
      (id : String) (old : TransactionResponse) (b : sv.Bytes) (w : World sv)
      → id ≢ ""
      → sv.marshal transaction old ≡ ok b
      → redis.stored w.redis (transaction_key id) ≡ some b
      → ((e : GoError) → (sv.redis_get (transaction_key id) w.redis).0 ≢ failed e)
      → (get_transaction sv trace_id id w).0 ≡ show_transaction sv trace_id "HIT" old
  unfolding get_transaction Cache.get
  get_transaction-stored id old b w named marshalled there answers =
      rw (is-ne id "" named) (elim (redis.get-stored (transaction_key id) w.redis b there) [
        | inl seen ↦ rw seen (rw (json.unmarshal-marshal transaction old b marshalled) refl)
        | inr (e, down) ↦ absurd (answers e down)
      ])

module _ (sv : Services) (trace_id : String) (db : DbLaws sv) (breaker : BreakerLaws sv)
    (redis : RedisLaws sv) (json : JsonLaws sv) where
  open db use {columns, tables}
  open redis use {stored}

  keep_transaction-db :
      (id : String) (found : Result TransactionResponse) (w : World sv)
      → (keep_transaction sv trace_id id found w).1.db ≡ w.db
  unfolding Cache.set
  keep_transaction-db id found w = ground arith

  late-completed :
      (id : String) (msg : TransactionMessage) (w : World sv)
      → (late sv trace_id id msg w).0.1 ≡ none
      → columns.canonical id ≡ columns.canonical msg.transaction_id
      → status_of (tables (late sv trace_id id msg w).1.db) (columns.canonical id)
        ≡ Opt.map (λ _. "completed") (status_of (tables w.db) (columns.canonical id))
  unfolding query_transaction
  late-completed id msg w fine same =
      let (found, w1) = found_before sv id w in
      let w2 = (process_transaction sv msg w1).1 in
      let j = columns.canonical id in
      let rows =
        on_breaker-KeepsTables sv db breaker TransactionResponse (query_transaction sv id)
          (db.query-tables read (transaction_by_id id)) w in
      ap (λ d. status_of (tables d) j) (keep_transaction-db id found w2)
      ∙ ((process_transaction_atomic sv db msg w1).0 fine j).1
      ∙ rw ((eq_iff j (columns.canonical msg.transaction_id)).1 same)
          (ap (λ t. Opt.map (λ _. "completed") (status_of t j)) rows)

  -- GET /transactions/:id reads a row; then the worker processes the row's message without an error;
  -- then the GET stores what it has read. If the write reached Redis, then as long as the entry is
  -- there and Redis answers, a later GET answers the old row from the cache, while the transaction
  -- in the tables is completed.
  pub late-stale :
      (id : String) (msg : TransactionMessage) (old : TransactionResponse) (b : sv.Bytes)
      (w later : World sv)
      → id ≢ ""
      → columns.canonical id ≡ columns.canonical msg.transaction_id
      → (found_before sv id w).0 ≡ ok old
      → (late sv trace_id id msg w).0.1 ≡ none
      → sv.marshal transaction old ≡ ok b
      → stored (late sv trace_id id msg w).1.redis (transaction_key id) ≡ some b
      → stored later.redis (transaction_key id)
        ≡ stored (late sv trace_id id msg w).1.redis (transaction_key id)
      → ((e : GoError) → (sv.redis_get (transaction_key id) later.redis).0 ≢ failed e)
      → ((get_transaction sv trace_id id later).0 ≡ show_transaction sv trace_id "HIT" old)
        × (status_of (tables (late sv trace_id id msg w).1.db) (columns.canonical id)
            ≡ Opt.map (λ _. "completed") (status_of (tables w.db) (columns.canonical id)))
  late-stale id msg old b w later named same found fine marshalled reached kept answers = (
    get_transaction-stored sv trace_id redis json id old b later named marshalled (kept ∙ reached)
        answers,
    late-completed id msg w fine same,
  )
