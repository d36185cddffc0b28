-- ===== src/Worker/Freshness.antt =====
-- The cached transactions after `processTransaction`.
use mathlib.Core.Path.{subst}
use exploding_user_data_scal.Prelude.{String, ◌≡◌, ◌≢◌, sym, ap, ◌∙◌, inl, inr, Option, none, arith}
use exploding_user_data_scal.Values.{transaction, ok, GoError, TransactionMessage}
use exploding_user_data_scal.Cache
use exploding_user_data_scal.Cache.Coherent.{HoldsCurrent-moves}
use exploding_user_data_scal.Cache.Keys.{transaction_key, user_balance_key}
use exploding_user_data_scal.Services.{Services}
use exploding_user_data_scal.Services.Action.{World}
use exploding_user_data_scal.Services.Laws.{DbLaws, RedisLaws, JsonLaws, StaysOrGoes}
use exploding_user_data_scal.Services.Sql.{set_processing, set_completed}
use exploding_user_data_scal.Tables.{Tables, apply, find_transaction, row_or_none, select}
use exploding_user_data_scal.Tables.Ledger.{transactions-payment, find_transaction-mark_ne}
use exploding_user_data_scal.Handler.GetTransaction.Coherent.{shown_row, IsCoherent, view}
use exploding_user_data_scal.Worker.{invalidate, complete, process_transaction}
use exploding_user_data_scal.Worker.Effects.{Processed, process_transaction-Processed}

module _ (sv : Services) (msg : TransactionMessage) where
  -- The two deletions, in their order.
  abbrev pub deleted : sv.Redis → sv.Redis
  deleted r =
      (sv.redis_del (transaction_key msg.transaction_id)
        (sv.redis_del (user_balance_key msg.user_id) r).1).1

  pub process_transaction-redis :
      (w : World sv)
      → (process_transaction sv msg w).0 ≡ none
      → (process_transaction sv msg w).1.redis ≡ deleted w.redis
  unfolding process_transaction complete invalidate Cache.delete
  process_transaction-redis w h = ground arith

module _ (sv : Services) (db : DbLaws sv) (redis : RedisLaws sv) where
  -- The keys of the cache are spelled as the database stores the ids.
  abbrev pub IsSpelled : (String → String) → sv.Redis → Type 0
  IsSpelled key r = (id : String) → redis.stored r (key id) ≢ none → db.columns.canonical id ≡ id

module _ (sv : Services) (redis : RedisLaws sv) (msg : TransactionMessage) where
  open redis use {stored}

  pub deleted-stays :
      (r : sv.Redis) (k : String) → StaysOrGoes (stored r k) (stored (deleted sv msg r) k)
  deleted-stays r k =
      let r1 = (sv.redis_del (user_balance_key msg.user_id) r).1 in
      elim (redis.del-keeps (transaction_key msg.transaction_id) k r1) [
        | inr gone ↦ inr gone
        | inl stays ↦ elim (redis.del-keeps (user_balance_key msg.user_id) k r) [
          | inl before ↦ inl (stays ∙ before)
          | inr gone ↦ inr (stays ∙ gone)
        ]
      ]

module _ (sv : Services) (db : DbLaws sv) (redis : RedisLaws sv) (json : JsonLaws sv)
    (msg : TransactionMessage) where
  open db use {columns, tables}
  open redis use {stored}

  view_eq :
      (t t' : Tables) (id : String)
      → find_transaction (columns.canonical id) t.transactions
        ≡ find_transaction (columns.canonical id) t'.transactions
      → view sv db t id ≡ view sv db t' id
  unfolding select
  view_eq t t' id h = ap (row_or_none (shown_row columns)) h

  -- The row of another transaction is the same after the worker.
  Processed-view :
      (before after : Tables) (id : String)
      → Processed sv db msg before none after
      → columns.canonical id ≢ columns.canonical msg.transaction_id
      → view sv db after id ≡ view sv db before id
  Processed-view before after id (at, at', e) other =
      let j = columns.canonical id in
      let m = columns.canonical msg.transaction_id in
      let processing = apply columns at (set_processing msg.transaction_id) before in
      let done = apply columns at' (set_completed msg.transaction_id) processing in
      view_eq after before id (
        ap (λ (t : Tables). find_transaction j t.transactions) e
        ∙ ap (find_transaction j)
            (transactions-payment columns at' msg.type msg.amount msg.user_id done)
        ∙ find_transaction-mark_ne at' "completed" m j processing.transactions other
        ∙ find_transaction-mark_ne at "processing" m j before.transactions other)

  Processed-IsCoherent :
      (before after : Tables) (r : sv.Redis)
      → Processed sv db msg before none after
      → columns.canonical msg.transaction_id ≡ msg.transaction_id
      → IsSpelled sv db redis transaction_key r
      → stored (deleted sv msg r) (transaction_key msg.transaction_id) ≡ none
      → IsCoherent sv db redis json r before
      → IsCoherent sv db redis json (deleted sv msg r) after
  Processed-IsCoherent before after r done plain spelled gone =
      HoldsCurrent-moves sv redis transaction transaction_key
        (λ id txn. view sv db before id ≡ ok txn) (λ id txn. view sv db after id ≡ ok txn) r
        (deleted sv msg r) (λ id. deleted-stays sv redis msg r (transaction_key id))
        λ id txn was there current.
          Processed-view before after id done (λ same. there (
            ap (λ i. stored (deleted sv msg r) (transaction_key i))
              (sym (spelled id was) ∙ same ∙ plain)
            ∙ gone))
          ∙ current

  -- If every cached transaction is the one in the tables, `processTransaction` returns no error and
  -- Redis deletes the transaction's entry, then every cached transaction is still the one in the
  -- tables, and the message's own is no longer cached. The id of the message and those of the
  -- cached transactions are spelled as the database stores them.
  pub process_transaction-IsCoherent :
      (w : World sv)
      → (process_transaction sv msg w).0 ≡ none
      → (let r1 = (sv.redis_del (user_balance_key msg.user_id) w.redis).1 in
          (sv.redis_del (transaction_key msg.transaction_id) r1).0 ≡ none)
      → columns.canonical msg.transaction_id ≡ msg.transaction_id
      → IsSpelled sv db redis transaction_key w.redis
      → IsCoherent sv db redis json w.redis (tables w.db)
      → let w' = (process_transaction sv msg w).1 in
        IsCoherent sv db redis json w'.redis (tables w'.db)
        × (stored w'.redis (transaction_key msg.transaction_id) ≡ none)
  process_transaction-IsCoherent w fine deletion plain spelled h =
      let (r, w') = process_transaction sv msg w in
      let done = process_transaction-Processed sv db msg w in
      let key = transaction_key msg.transaction_id in
      let r1 = (sv.redis_del (user_balance_key msg.user_id) w.redis).1 in
      let gone = redis.del_self key r1 deletion in
      rw (process_transaction-redis sv msg w fine) (
        Processed-IsCoherent (tables w.db) (tables w'.db) w.redis
            (subst (λ (o : Option GoError). Processed sv db msg (tables w.db) o (tables w'.db)) fine
              done)
            plain spelled gone h,
        gone,
      )
