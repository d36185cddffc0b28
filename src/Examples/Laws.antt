-- ===== src/Examples/Laws.antt =====
-- The services in memory meet every law.
use exploding_user_data_scal.Prelude.{
  ◌≡◌, refl, ◌⊎◌, ◌≢◌, inl, inr, true, false, [], ◌∷◌, ◌++◌, none, some, arith, eq_iff, eq_refl,
  Bool-cases, String,
}
use exploding_user_data_scal.Prelude.Int.{ℤ}
use exploding_user_data_scal.Values.{
  GoError, is_no_rows, Result, ok, err, text, transaction, user_balance, message, Kind, Payload,
}
use exploding_user_data_scal.Services.{
  open_state, closed, half_open, BreakerState, Publishing, found, failed,
}
use exploding_user_data_scal.Services.Sql.{Pool, Query, Statement}
use exploding_user_data_scal.Services.Laws.{
  DbLaws, ReplicaLaws, BreakerLaws, RedisLaws, BrokerLaws, JsonLaws, StaysOrGoes, Attempted,
  Answers,
}
use exploding_user_data_scal.Tables.{apply, apply_all, select}
use exploding_user_data_scal.Examples.Store.{
  services, columns, Encoded, Cached, Rows, Running, Queues, encode, decode, execute, refused,
}

pub query-tables : (p : Pool) (q : Query) (d : Rows) → (services.query p q d).1.tables ≡ d.tables
query-tables p q d = ground arith

pub query-answer :
    (p : Pool) (q : Query) (d : Rows) → Answers (services.query p q d).0 (select columns d.tables q)
query-answer p q d = ground arith

pub exec-tables :
    (st : Statement) (d : Rows)
    → Attempted
        (services.exec st d).0
        (apply columns d.time st d.tables)
        d.tables
        (services.exec st d).1.tables
exec-tables st d = elim (Bool-cases d.up) [ inl up ↦ rw up refl | inr down ↦ rw down (inr refl) ]

pub ping-tables : (d : Rows) → (services.db_ping d).1.tables ≡ d.tables
ping-tables d = ground arith

pub begin-tables : (d : Rows) → (services.begin d).1.tables ≡ d.tables
begin-tables d = ground arith

pub begin-pending : (d : Rows) (tx : Running) → (services.begin d).0 ≡ ok tx → tx.statements ≡ []
begin-pending d tx h = ground arith

pub commit-tables :
    (tx : Running) (d : Rows)
    → Attempted
        (services.commit tx d).0
        (apply_all columns tx.since tx.statements d.tables)
        d.tables
        (services.commit tx d).1.tables
commit-tables tx d = elim (Bool-cases d.up) [ inl up ↦ rw up refl | inr down ↦ rw down (inr refl) ]

abbrev pub db_laws : DbLaws services
db_laws = record {
  columns = columns;
  tables = λ d. d.tables;
  clock = λ d. d.time;
  pending = λ tx. tx.statements;
  started = λ tx. tx.since;
  query-tables = query-tables;
  query-answer = λ q d. query-answer Pool.write q d;
  exec-tables = exec-tables;
  ping-tables = ping-tables;
  begin-tables = begin-tables;
  begin-pending = begin-pending;
  tx_exec-pending = λ st tx h. refl;
  tx_exec-started = λ st tx. refl;
  commit-tables = commit-tables;
  rollback-tables = λ tx d. refl;
}

abbrev pub replica_laws : ReplicaLaws services db_laws
replica_laws = record { replica-answer = query-answer }

pub execute_cases :
    (A : Type 0) (f : Rows → Result A × Rows) (b : BreakerState) (d : Rows)
    → ((e : GoError) × (is_no_rows e ≡ false)
        × ((execute A f b d).0 ≡ err e)
        × ((execute A f b d).2 ≡ d))
      ⊎ (((execute A f b d).0 ≡ (f d).0) × ((execute A f b d).2 ≡ (f d).1))
execute_cases A f closed d = inr (refl, refl)
execute_cases A f half_open d = inr (refl, refl)
execute_cases A f open_state d = inl (_, refl, refl, refl)

abbrev pub breaker_laws : BreakerLaws services
breaker_laws = record { execute_cases = execute_cases }

pub get-found :
    (k : String) (r : Cached) (b : Encoded)
    → (services.redis_get k r).0 ≡ found b
    → r.entries k ≡ some b
get-found k r b h = ground arith

pub get-stored :
    (k : String) (r : Cached) (b : Encoded)
    → r.entries k ≡ some b
    → ((services.redis_get k r).0 ≡ found b)
      ⊎ ((e : GoError) × ((services.redis_get k r).0 ≡ failed e))
get-stored k r b h = elim (Bool-cases r.up) [
  | inl up ↦ inl (rw (up, h) refl)
  | inr down ↦ inr (refused, rw down refl)
]

pub set_self :
    (k : String) (b : Encoded) (ttl : ℤ) (r : Cached)
    → (services.redis_set k b ttl r).0 ≡ none
    → (services.redis_set k b ttl r).1.entries k ≡ some b
set_self k b ttl r h = ground (arith, eq_refl k)

pub set-failed :
    (k : String) (b : Encoded) (ttl : ℤ) (r : Cached)
    → ((services.redis_set k b ttl r).1.entries k ≡ some b)
      ⊎ StaysOrGoes (r.entries k) ((services.redis_set k b ttl r).1.entries k)
set-failed k b ttl r = ground (arith, eq_refl k)

pub set-keeps :
    (k j : String) (b : Encoded) (ttl : ℤ) (r : Cached)
    → k ≢ j
    → StaysOrGoes (r.entries j) ((services.redis_set k b ttl r).1.entries j)
set-keeps k j b ttl r h = ground (arith, eq_iff k j)

pub del_self :
    (k : String) (r : Cached)
    → (services.redis_del k r).0 ≡ none
    → (services.redis_del k r).1.entries k ≡ none
del_self k r h = ground (arith, eq_refl k)

pub del-keeps :
    (k j : String) (r : Cached) → StaysOrGoes (r.entries j) ((services.redis_del k r).1.entries j)
del-keeps k j r = ground arith

abbrev pub redis_laws : RedisLaws services
redis_laws = record {
  stored = λ r. r.entries;
  get-found = get-found;
  get-stored = get-stored;
  get-keeps = λ k j r. inl refl;
  set_self = set_self;
  set-failed = set-failed;
  set-keeps = set-keeps;
  del_self = del_self;
  del-keeps = del-keeps;
}

pub publish-messages :
    (p : Publishing Encoded) (b : Queues)
    → ((services.publish p b).1.queue ≡ b.queue ++ (p ∷ []))
      ⊎ ((services.publish p b).1.queue ≡ b.queue)
publish-messages p b = elim (Bool-cases b.up) [
  | inl up ↦ rw up (inl refl)
  | inr down ↦ rw down (inr refl)
]

pub publish-taken :
    (p : Publishing Encoded) (b : Queues)
    → b.up ≡ true
    → (services.publish p b).0 ≡ none
    → (services.publish p b).1.queue ≡ b.queue ++ (p ∷ [])
publish-taken p b up fine = rw up refl

abbrev pub broker_laws : BrokerLaws services
broker_laws = record {
  messages = λ b. b.queue;
  has_room = λ b. b.up;
  publish-messages = publish-messages;
  publish-taken = publish-taken;
  ack-messages = λ tag b p there. there;
  nack-messages = λ tag requeue b p there. there;
  inspect-messages = λ name b p there. there;
}

pub unmarshal-marshal :
    (k : Kind) (v : Payload k) (b : Encoded) → encode k v ≡ ok b → decode k b ≡ ok v
unmarshal-marshal text v b h = ground arith
unmarshal-marshal transaction v b h = ground arith
unmarshal-marshal user_balance v b h = ground arith
unmarshal-marshal message v b h = ground arith

abbrev pub json_laws : JsonLaws services
json_laws = record { unmarshal-marshal = unmarshal-marshal }
