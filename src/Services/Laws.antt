-- ===== src/Services/Laws.antt =====
-- What the services document and the theorems use, as named hypotheses. Each record is about one
-- service; its first fields say how to read the service's state.
pub mod Transactions
pub mod Reads
use mathlib.Core.List.{Subset}
use exploding_user_data_scal.Prelude.{
  ℕ, Bool, String, ◌≡◌, ◌⊎◌, ◌≢◌, true, false, List, [], ◌∷◌, ◌++◌, Option, none, some,
}
use exploding_user_data_scal.Prelude.Int.{ℤ}
use exploding_user_data_scal.Values.{GoError, is_no_rows, Result, ok, err, Time, Kind, Payload}
use exploding_user_data_scal.Services.{Services, Reply, found, failed, Publishing}
use exploding_user_data_scal.Services.Sql.{Pool, write, Query, Row, Statement}
use exploding_user_data_scal.Tables.{Columns, Tables, apply, apply_all, select}

-- What an attempt leaves: its effect if it returned no error; with an error its effect or nothing,
-- since the reply can be lost after the server has acted.
abbrev pub Attempted {ℓ} : {A : Type ℓ} → Option GoError → A → A → A → Type ℓ
Attempted none after before now = now ≡ after
Attempted (some e) after before now = (now ≡ after) ⊎ (now ≡ before)

-- The answer of a query is the row that it selects, or an error that is not `sql.ErrNoRows`.
abbrev pub Answers {ℓ} : {A : Type ℓ} → Result A → Result A → Type ℓ
Answers r selected = (r ≡ selected) ⊎ ((e : GoError) × (r ≡ err e) × (is_no_rows e ≡ false))

-- PostgreSQL and database/sql, while no other client writes: a statement outside of a transaction
-- and a commit that return no error have had their effect; one that returns an error, as when the
-- connection is lost, has had its effect or none. A database transaction has its effect at its
-- commit alone, and all of it or nothing.
pub record DbLaws (sv : Services) : Type 0 where
  pub columns : Columns
  -- The committed rows.
  pub tables : sv.Db → Tables
  -- The server's time.
  pub clock : sv.Db → Time
  -- The statements that a database transaction has executed, and when it began.
  pub pending : sv.Tx → List Statement
  pub started : sv.Tx → Time
  pub query-tables : (p : Pool) (q : Query) (d : sv.Db) → tables (sv.query p q d).1 ≡ tables d
  pub query-answer :
      (q : Query) (d : sv.Db) → Answers (sv.query write q d).0 (select columns (tables d) q)
  pub exec-tables :
      (st : Statement) (d : sv.Db)
      → Attempted
          (sv.exec st d).0
          (apply columns (clock d) st (tables d))
          (tables d)
          (tables (sv.exec st d).1)
  pub ping-tables : (d : sv.Db) → tables (sv.db_ping d).1 ≡ tables d
  pub begin-tables : (d : sv.Db) → tables (sv.begin d).1 ≡ tables d
  pub begin-pending : (d : sv.Db) (tx : sv.Tx) → (sv.begin d).0 ≡ ok tx → pending tx ≡ []
  pub tx_exec-pending :
      (st : Statement) (tx : sv.Tx)
      → (sv.tx_exec st tx).0 ≡ none
      → pending (sv.tx_exec st tx).1 ≡ pending tx ++ (st ∷ [])
  pub tx_exec-started : (st : Statement) (tx : sv.Tx) → started (sv.tx_exec st tx).1 ≡ started tx
  pub commit-tables :
      (tx : sv.Tx) (d : sv.Db)
      → Attempted
          (sv.commit tx d).0
          (apply_all columns (started tx) (pending tx) (tables d))
          (tables d)
          (tables (sv.commit tx d).1)
  pub rollback-tables : (tx : sv.Tx) (d : sv.Db) → tables (sv.rollback tx d) ≡ tables d

-- The read pool answers like the primary: the replica has caught up.
pub record ReplicaLaws (sv : Services) (db : DbLaws sv) : Type 0 where
  pub replica-answer :
      (p : Pool) (q : Query) (d : sv.Db)
      → Answers (sv.query p q d).0 (select db.columns (db.tables d) q)

-- gobreaker: `Execute` rejects the request without running it, or returns what it returns. The
-- errors of a rejection are `ErrOpenState` and `ErrTooManyRequests`.
pub record BreakerLaws (sv : Services) : Type 1 where
  pub execute_cases :
      (A : Type 0) (f : sv.Db → Result A × sv.Db) (b : sv.Breaker) (d : sv.Db)
      → ((e : GoError) × (is_no_rows e ≡ false)
          × ((sv.cb_execute A f b d).0 ≡ err e)
          × ((sv.cb_execute A f b d).2 ≡ d))
        ⊎ (((sv.cb_execute A f b d).0 ≡ (f d).0) × ((sv.cb_execute A f b d).2 ≡ (f d).1))

-- An entry of a cache stays, or is gone: it expired or was evicted.
abbrev pub StaysOrGoes {ℓ} : {A : Type ℓ} → Option A → Option A → Type ℓ
StaysOrGoes before after = (after ≡ before) ⊎ (after ≡ none)

-- Redis: what is stored under a key now.
pub record RedisLaws (sv : Services) : Type 0 where
  pub stored : sv.Redis → String → Option sv.Bytes
  pub get-found :
      (k : String) (r : sv.Redis) (b : sv.Bytes)
      → (sv.redis_get k r).0 ≡ found b
      → stored r k ≡ some b
  pub get-stored :
      (k : String) (r : sv.Redis) (b : sv.Bytes)
      → stored r k ≡ some b
      → ((sv.redis_get k r).0 ≡ found b) ⊎ ((e : GoError) × ((sv.redis_get k r).0 ≡ failed e))
  pub get-keeps :
      (k j : String) (r : sv.Redis) → StaysOrGoes (stored r j) (stored (sv.redis_get k r).1 j)
  pub set_self :
      (k : String) (b : sv.Bytes) (ttl : ℤ) (r : sv.Redis)
      → (sv.redis_set k b ttl r).0 ≡ none
      → stored (sv.redis_set k b ttl r).1 k ≡ some b
  -- A write that failed may have reached the server.
  pub set-failed :
      (k : String) (b : sv.Bytes) (ttl : ℤ) (r : sv.Redis)
      → (stored (sv.redis_set k b ttl r).1 k ≡ some b)
        ⊎ StaysOrGoes (stored r k) (stored (sv.redis_set k b ttl r).1 k)
  pub set-keeps :
      (k j : String) (b : sv.Bytes) (ttl : ℤ) (r : sv.Redis)
      → k ≢ j
      → StaysOrGoes (stored r j) (stored (sv.redis_set k b ttl r).1 j)
  pub del_self :
      (k : String) (r : sv.Redis)
      → (sv.redis_del k r).0 ≡ none
      → stored (sv.redis_del k r).1 k ≡ none
  pub del-keeps :
      (k j : String) (r : sv.Redis) → StaysOrGoes (stored r j) (stored (sv.redis_del k r).1 j)

-- RabbitMQ: a publication is one more message at the end of the queue, or none. It is one more where
-- it gives no error and the queue has room: a queue at its `x-max-length` rejects it
-- (`reject-publish`), which without publisher confirms is no error of the publication. Settling a
-- delivery and looking at the queue make no message; `messages` has those that are delivered and
-- not settled too.
pub record BrokerLaws (sv : Services) : Type 0 where
  pub messages : sv.Broker → List (Publishing sv.Bytes)
  pub has_room : sv.Broker → Bool
  pub ack-messages : (tag : ℕ) (b : sv.Broker) → Subset (messages (sv.ack tag b)) (messages b)
  pub nack-messages :
      (tag : ℕ) (requeue : Bool) (b : sv.Broker)
      → Subset (messages (sv.nack tag requeue b)) (messages b)
  pub inspect-messages :
      (name : String) (b : sv.Broker) → Subset (messages (sv.queue_inspect name b).1) (messages b)
  pub publish-messages :
      (p : Publishing sv.Bytes) (b : sv.Broker)
      → (messages (sv.publish p b).1 ≡ messages b ++ (p ∷ []))
        ⊎ (messages (sv.publish p b).1 ≡ messages b)
  pub publish-taken :
      (p : Publishing sv.Bytes) (b : sv.Broker)
      → has_room b ≡ true
      → (sv.publish p b).0 ≡ none
      → messages (sv.publish p b).1 ≡ messages b ++ (p ∷ [])

-- encoding/json: what was encoded is decoded to the same value.
pub record JsonLaws (sv : Services) : Type 0 where
  pub unmarshal-marshal :
      (k : Kind) (v : Payload k) (b : sv.Bytes) → sv.marshal k v ≡ ok b → sv.unmarshal k b ≡ ok v
