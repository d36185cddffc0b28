-- ===== src/System/Caches/Current.antt =====
-- Reads and the worker keep the cache current, so every read shows the rows.
use mathlib.Core.Path.{subst}
use exploding_user_data_scal.Prelude.{String, ◌≡◌, refl, sym, none}
use exploding_user_data_scal.Values.{
  ok, Kind, Payload, transaction, user_balance, TransactionMessage,
}
use exploding_user_data_scal.Cache.Coherent.{HoldsCurrent, HoldsCurrent-moves}
use exploding_user_data_scal.Cache.Keys.{
  transaction_key, transaction_key_injective, user_balance_key, user_balance_key_injective,
  keys_disjoint,
}
use exploding_user_data_scal.Cache.Others.{OthersStay}
use exploding_user_data_scal.Services.{Services}
use exploding_user_data_scal.Services.Action.{World}
use exploding_user_data_scal.Services.Laws.{DbLaws, ReplicaLaws, BreakerLaws, RedisLaws, JsonLaws}
use exploding_user_data_scal.Tables.{Tables}
use exploding_user_data_scal.Handler.GetTransaction.{get_transaction}
use exploding_user_data_scal.Handler.GetTransaction.Coherent as TransactionCache
use exploding_user_data_scal.Handler.GetTransaction.Others.{get_transaction-OthersStay}
use exploding_user_data_scal.Handler.GetUserBalance.{get_user_balance}
use exploding_user_data_scal.Handler.GetUserBalance.Answers as Balances
use exploding_user_data_scal.Handler.GetUserBalance.Others.{get_user_balance-OthersStay}
use exploding_user_data_scal.Handler.Reads.{
  Read, a_transaction, a_balance, respond, Right, IsCoherent, respond-Kept,
}
use exploding_user_data_scal.Worker.{process_transaction}
use exploding_user_data_scal.Worker.Freshness.{
  IsSpelled, deleted, deleted-stays, process_transaction-redis, process_transaction-IsCoherent,
}
use exploding_user_data_scal.Worker.Balances.{process_transaction-balances}
use exploding_user_data_scal.System.Caches.{
  Apart, Step, reads, processes, elsewhere, Reach, here, next, id_of, IsSpelled-loss,
  IsSpelled-OthersStay,
}

module _ (sv : Services) (db : DbLaws sv) (replica : ReplicaLaws sv db) (breaker : BreakerLaws sv)
    (redis : RedisLaws sv) (json : JsonLaws sv) where
  open db use {columns, tables}
  open redis use {stored}

  -- The cached transactions and balances are those in the tables, under ids as the tables have them.
  pub record Current (w : World sv) : Type 0 where
    pub coherent : IsCoherent sv db replica breaker redis json w.redis (tables w.db)
    pub transactions_spelled : IsSpelled sv db redis transaction_key w.redis
    pub balances_spelled : IsSpelled sv db redis user_balance_key w.redis

  respond-IsSpelled :
      (key : String → String) (read : Read) (used : String) (w : World sv)
      → OthersStay sv redis used w.redis (respond sv read w).1.redis
      → ((id : String) → used ≡ key id → columns.canonical id ≡ id)
      → IsSpelled sv db redis key w.redis
      → IsSpelled sv db redis key (respond sv read w).1.redis
  respond-IsSpelled key read used w others plain =
      IsSpelled-OthersStay sv db redis key used w.redis (respond sv read w).1.redis plain others

  respond-Current :
      (read : Read) (w : World sv)
      → columns.canonical (id_of read) ≡ id_of read
      → Current w
      → Current (respond sv read w).1
  unfolding respond
  respond-Current (a_transaction trace_id id) w plain h =
      let read = a_transaction trace_id id in
      let others = get_transaction-OthersStay sv trace_id redis id w in
      let (right, (rows, kept)) =
        respond-Kept sv db replica breaker redis json (tables w.db) read w (refl, h.coherent) in
      record {
        coherent =
            subst
              (λ (t : Tables).
                IsCoherent sv db replica breaker redis json
                  (get_transaction sv trace_id id w).1.redis t)
              (sym rows) kept;
        transactions_spelled =
            respond-IsSpelled transaction_key read (transaction_key id) w others
              (λ i same.
                subst (λ (x : String). columns.canonical x ≡ x)
                  (transaction_key_injective id i same) plain)
              h.transactions_spelled;
        balances_spelled =
            respond-IsSpelled user_balance_key read (transaction_key id) w others
              (λ i same. absurd ((keys_disjoint id i "" "").0 same)) h.balances_spelled;
      }
  respond-Current (a_balance trace_id id) w plain h =
      let read = a_balance trace_id id in
      let others = get_user_balance-OthersStay sv trace_id redis id w in
      let (right, (rows, kept)) =
        respond-Kept sv db replica breaker redis json (tables w.db) read w (refl, h.coherent) in
      record {
        coherent =
            subst
              (λ (t : Tables).
                IsCoherent sv db replica breaker redis json
                  (get_user_balance sv trace_id id w).1.redis t)
              (sym rows) kept;
        transactions_spelled =
            respond-IsSpelled transaction_key read (user_balance_key id) w others
              (λ i same. absurd ((keys_disjoint i id "" "").0 (sym same))) h.transactions_spelled;
        balances_spelled =
            respond-IsSpelled user_balance_key read (user_balance_key id) w others
              (λ i same.
                subst (λ (x : String). columns.canonical x ≡ x)
                  (user_balance_key_injective id i same) plain)
              h.balances_spelled;
      }

  deleted-IsSpelled :
      (key : String → String) (msg : TransactionMessage) (w : World sv)
      → (process_transaction sv msg w).0 ≡ none
      → IsSpelled sv db redis key w.redis
      → IsSpelled sv db redis key (process_transaction sv msg w).1.redis
  deleted-IsSpelled key msg w fine spelled = rw (process_transaction-redis sv msg w fine) (
      IsSpelled-loss sv db redis key w.redis (deleted sv msg w.redis)
        (λ id. deleted-stays sv redis msg w.redis (key id)) spelled)

  Apart-HoldsCurrent :
      (k : Kind) (key : String → String) {V : Type 0} (view : Tables → String → V)
      (Matches : V → Payload k → Type 0) (w w' : World sv)
      → Apart sv db redis key view w w'
      → HoldsCurrent sv redis k key (λ id v. Matches (view (tables w.db) id) v) w.redis
      → HoldsCurrent sv redis k key (λ id v. Matches (view (tables w'.db) id) v) w'.redis
  Apart-HoldsCurrent k key view Matches w w' apart =
      HoldsCurrent-moves sv redis k key (λ id v. Matches (view (tables w.db) id) v)
        (λ id v. Matches (view (tables w'.db) id) v) w.redis w'.redis (λ id. (apart id).0)
        (λ id v was there current. subst (λ x. Matches x v) (sym ((apart id).1 there)) current)

  Step-Current : {w w' : World sv} → Step sv db redis w w' → Current w → Current w'
  Step-Current (reads read plain) h = respond-Current read _ plain h
  Step-Current {w} (processes msg fine first second plain plain') h = record {
    coherent = (
      (process_transaction-IsCoherent sv db redis json msg w fine second plain
          h.transactions_spelled h.coherent.0).0,
      (process_transaction-balances sv db redis msg w fine first plain' h.balances_spelled
          h.coherent.1).0,
    );
    transactions_spelled = deleted-IsSpelled transaction_key msg w fine h.transactions_spelled;
    balances_spelled = deleted-IsSpelled user_balance_key msg w fine h.balances_spelled;
  }
  Step-Current {w} {w'} (elsewhere transactions balances) h = record {
    coherent = (
      Apart-HoldsCurrent transaction transaction_key (TransactionCache.view sv db)
          (λ row txn. row ≡ ok txn) w w' transactions h.coherent.0,
      Apart-HoldsCurrent user_balance user_balance_key (Balances.view sv db)
          (λ row resp. row ≡ ok (Balances.unstamped resp)) w w' balances h.coherent.1,
    );
    transactions_spelled =
        IsSpelled-loss sv db redis transaction_key w.redis w'.redis (λ id. (transactions id).0)
          h.transactions_spelled;
    balances_spelled =
        IsSpelled-loss sv db redis user_balance_key w.redis w'.redis (λ id. (balances id).0)
          h.balances_spelled;
  }

  Reach-Current : {w w' : World sv} → Reach sv db redis w w' → Current w → Current w'
  Reach-Current here h = h
  Reach-Current (next r st) h = Step-Current st (Reach-Current r h)

  -- Take a state whose cached transactions and balances are those in the tables and stand under ids
  -- that are spelled as the database stores them, and let steps of three kinds follow each other in any
  -- order: reads whose id is spelled so; messages whose two ids are spelled so, which the worker
  -- processes without an error and whose two entries Redis deletes without an error; and steps
  -- elsewhere, which at most lose entries and leave the rows of the cached ids alone. The read pool
  -- answers by the tables. Then in every state on the way each GET of a transaction or a balance is
  -- answered by the rows as they are then, after the worker by its new rows: the row with 200, 404
  -- where there is none, 400 for an empty id, or 500.
  pub Reach-Right :
      {w w' : World sv} (read : Read)
      → Reach sv db redis w w'
      → Current w
      → Right sv db replica breaker redis json (tables w'.db) read (respond sv read w').0
  Reach-Right {w} {w'} read r h =
      (respond-Kept sv db replica breaker redis json (tables w'.db) read w'
        (refl, (Reach-Current r h).coherent)).0
