-- ===== src/System/Caches.antt =====
-- The cache in front of the reads, while reads and the worker alternate.
pub mod Current
use mathlib.Core.Path.{subst}
use exploding_user_data_scal.Prelude.{
  String, true, false, ◌≡◌, ◌≢◌, refl, sym, ap, ◌∙◌, inl, inr, Option, none, ◌==◌, eq_iff,
  Bool-cases, ne_text,
}
use exploding_user_data_scal.Values.{
  ok, Kind, Payload, transaction, user_balance, TransactionMessage,
}
use exploding_user_data_scal.Cache.Coherent.{HoldsCurrent, HoldsCurrent-moves}
use exploding_user_data_scal.Cache.Keys.{
  transaction_key, transaction_key_injective, user_balance_key, user_balance_key_injective,
  keys_disjoint,
}
use exploding_user_data_scal.Cache.Others.{OthersStay}
use exploding_user_data_scal.Services.{Services}
use exploding_user_data_scal.Services.Action.{World}
use exploding_user_data_scal.Services.Laws.{
  DbLaws, ReplicaLaws, BreakerLaws, RedisLaws, JsonLaws, StaysOrGoes,
}
use exploding_user_data_scal.Tables.{Tables}
use exploding_user_data_scal.Handler.GetTransaction.{get_transaction}
use exploding_user_data_scal.Handler.GetTransaction.Coherent as TransactionCache
use exploding_user_data_scal.Handler.GetTransaction.Others.{get_transaction-OthersStay}
use exploding_user_data_scal.Handler.GetUserBalance.{get_user_balance}
use exploding_user_data_scal.Handler.GetUserBalance.Answers as Balances
use exploding_user_data_scal.Handler.GetUserBalance.Others.{get_user_balance-OthersStay}
use exploding_user_data_scal.Handler.Reads.{
  Read, a_transaction, a_balance, respond, Right, IsCoherent, respond-Kept,
}
use exploding_user_data_scal.Worker.{process_transaction}
use exploding_user_data_scal.Worker.Freshness.{
  IsSpelled, deleted, deleted-stays, process_transaction-redis, process_transaction-IsCoherent,
}
use exploding_user_data_scal.Worker.Balances.{process_transaction-balances}

-- The id of a read.
abbrev pub id_of : Read → String
id_of (a_transaction trace_id id) = id
id_of (a_balance trace_id id) = id

module _ (sv : Services) (db : DbLaws sv) (redis : RedisLaws sv) where
  open db use {columns, tables}
  open redis use {stored}

  -- The entries of a family of keys, and the rows behind those that are left, are the same.
  abbrev pub Apart :
      {V : Type 0} → (String → String) → (Tables → String → V) → World sv → World sv → Type 0
  Apart key view w w' =
      (id : String)
      → StaysOrGoes (stored w.redis (key id)) (stored w'.redis (key id))
        × (stored w'.redis (key id) ≢ none → view (tables w'.db) id ≡ view (tables w.db) id)

  -- A step: a read, whose id is spelled as the database stores it; a message that the worker
  -- processes without an error, and whose two entries Redis deletes; or anything else that at most
  -- loses entries of the two families and leaves the rows of the cached ids alone.
  pub data Step : World sv → World sv → Type 0 where
    reads :
        {w : World sv} (read : Read)
        → columns.canonical (id_of read) ≡ id_of read
        → Step w (respond sv read w).1
    processes :
        {w : World sv} (msg : TransactionMessage)
        → (process_transaction sv msg w).0 ≡ none
        → (sv.redis_del (user_balance_key msg.user_id) w.redis).0 ≡ none
        → (sv.redis_del
            (transaction_key msg.transaction_id)
            (sv.redis_del (user_balance_key msg.user_id) w.redis).1).0
          ≡ none
        → columns.canonical msg.transaction_id ≡ msg.transaction_id
        → columns.canonical msg.user_id ≡ msg.user_id
        → Step w (process_transaction sv msg w).1
    elsewhere :
        {w w' : World sv}
        → Apart transaction_key (TransactionCache.view sv db) w w'
        → Apart user_balance_key (Balances.view sv db) w w'
        → Step w w'

  pub data Reach (w : World sv) : World sv → Type 0 where
    here : Reach w w
    next : {u v : World sv} → Reach w u → Step u v → Reach w v

  pub IsSpelled-loss :
      (key : String → String) (r r' : sv.Redis)
      → ((id : String) → StaysOrGoes (stored r (key id)) (stored r' (key id)))
      → IsSpelled sv db redis key r
      → IsSpelled sv db redis key r'
  IsSpelled-loss key r r' keeps spelled id there = elim (keeps id) [
    | inl stays ↦ spelled id (λ gone. there (stays ∙ gone))
    | inr gone ↦ absurd (there gone)
  ]

  -- A use of the cache under the key of an id, in a family of keys or beside it.
  pub IsSpelled-OthersStay :
      (key : String → String) (used : String) (r r' : sv.Redis)
      → ((id : String) → used ≡ key id → columns.canonical id ≡ id)
      → OthersStay sv redis used r r'
      → IsSpelled sv db redis key r
      → IsSpelled sv db redis key r'
  IsSpelled-OthersStay key used r r' plain others spelled id there =
      elim (Bool-cases (used == key id)) [
        | inl same ↦ plain id ((eq_iff used (key id)).0 same)
        | inr other ↦ elim (others (key id) (ne_text used (key id) other)) [
          | inl stays ↦ spelled id (λ gone. there (stays ∙ gone))
          | inr gone ↦ absurd (there gone)
        ]
      ]
