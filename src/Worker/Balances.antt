-- ===== src/Worker/Balances.antt =====
-- The cached balances after `processTransaction`.
use mathlib.Core.Path.{subst}
use exploding_user_data_scal.Prelude.{String, ◌≡◌, ◌≢◌, sym, ap, ◌∙◌, inl, inr, Option, none}
use exploding_user_data_scal.Values.{GoError, TransactionMessage, user_balance}
use exploding_user_data_scal.Cache.Coherent.{HoldsCurrent-moves}
use exploding_user_data_scal.Cache.Keys.{user_balance_key, transaction_key}
use exploding_user_data_scal.Services.{Services}
use exploding_user_data_scal.Services.Action.{World}
use exploding_user_data_scal.Services.Laws.{DbLaws, RedisLaws}
use exploding_user_data_scal.Services.Sql.{set_processing, set_completed}
use exploding_user_data_scal.Tables.{Tables, apply, find_user, row_or_none, select}
use exploding_user_data_scal.Tables.Ledger.{find_user-payment_ne}
use exploding_user_data_scal.Handler.GetUserBalance.Answers.{shown_row, view, Matches, IsCoherent}
use exploding_user_data_scal.Worker.{process_transaction}
use exploding_user_data_scal.Worker.Effects.{Processed, process_transaction-Processed}
use exploding_user_data_scal.Worker.Freshness.{
  deleted, process_transaction-redis, deleted-stays, IsSpelled,
}

module _ (sv : Services) (db : DbLaws sv) (redis : RedisLaws sv) (msg : TransactionMessage) where
  open db use {columns, tables}
  open redis use {stored}

  -- The row of another user is the same after the worker.
  Processed-view :
      (before after : Tables) (id : String)
      → Processed sv db msg before none after
      → columns.canonical id ≢ columns.canonical msg.user_id
      → view sv db after id ≡ view sv db before id
  unfolding select
  Processed-view before after id (at, at', e) other =
      let j = columns.canonical id in
      let processing = apply columns at (set_processing msg.transaction_id) before in
      let finished = apply columns at' (set_completed msg.transaction_id) processing in
      ap (row_or_none (shown_row columns)) (
        ap (λ (t : Tables). find_user j t.users) e
        ∙ find_user-payment_ne columns at' msg.type msg.amount msg.user_id j finished other)

  -- If every cached balance is the one in the tables, `processTransaction` returns no error and Redis
  -- deletes the balance of the message's user, then every cached balance is still the one in the
  -- tables, and the user's own is no longer cached. The ids of the user and of the cached balances
  -- are spelled as the database stores them.
  pub process_transaction-balances :
      (w : World sv)
      → (process_transaction sv msg w).0 ≡ none
      → (sv.redis_del (user_balance_key msg.user_id) w.redis).0 ≡ none
      → columns.canonical msg.user_id ≡ msg.user_id
      → IsSpelled sv db redis user_balance_key w.redis
      → IsCoherent sv db redis w.redis (tables w.db)
      → let w' = (process_transaction sv msg w).1 in
        IsCoherent sv db redis w'.redis (tables w'.db)
        × (stored w'.redis (user_balance_key msg.user_id) ≡ none)
  process_transaction-balances w fine deletion plain spelled h =
      let (r, w') = process_transaction sv msg w in
      let key = user_balance_key msg.user_id in
      let done =
        subst (λ (o : Option GoError). Processed sv db msg (tables w.db) o (tables w'.db)) fine
          (process_transaction-Processed sv db msg w) in
      let r1 = (sv.redis_del key w.redis).1 in
      let first = redis.del_self key w.redis deletion in
      let gone : stored (deleted sv msg w.redis) key ≡ none =
        elim (redis.del-keeps (transaction_key msg.transaction_id) key r1) [
          | inl stays ↦ stays ∙ first
          | inr lost ↦ lost
        ] in
      rw (process_transaction-redis sv msg w fine) (
        HoldsCurrent-moves sv redis user_balance user_balance_key (Matches sv db (tables w.db))
            (Matches sv db (tables w'.db)) w.redis (deleted sv msg w.redis)
            (λ id. deleted-stays sv redis msg w.redis (user_balance_key id))
            (λ id resp was there current.
              Processed-view (tables w.db) (tables w'.db) id done (λ same. there (
                ap (λ i. stored (deleted sv msg w.redis) (user_balance_key i))
                  (sym (spelled id was) ∙ same ∙ plain)
                ∙ gone))
              ∙ current)
            h,
        gone,
      )
