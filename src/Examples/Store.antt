-- ===== src/Examples/Store.antt =====
-- Services in memory: Redis as a function, PostgreSQL as its tables, RabbitMQ as lists.
use exploding_user_data_scal.Prelude.{
  ℕ, ◌+◌, String, Bool, true, false, List, [], ◌∷◌, ◌++◌, Option, none, some, ◌==◌, if◌then◌else◌,
}
use exploding_user_data_scal.Prelude.Int.{pos, pos_part, ◌+ℤ◌, ◌-ℤ◌}
use exploding_user_data_scal.Values.{
  GoError, other, Result, ok, err, Time, CreateTransactionRequest, TransactionResponse,
  UserBalanceResponse, TransactionMessage, Kind, text, transaction, user_balance, message, Payload,
}
use exploding_user_data_scal.Services.{
  Services, Reply, found, missing, failed, Publishing, BreakerState, open_state,
}
use exploding_user_data_scal.Services.Sql.{Statement}
use exploding_user_data_scal.Tables.{Columns, Tables, apply, apply_all, select}

-- What was encoded, as a value.
pub data Encoded : Type 0 where
  of_text : String → Encoded
  of_transaction : TransactionResponse → Encoded
  of_user_balance : UserBalanceResponse → Encoded
  of_message : TransactionMessage → Encoded
  form : CreateTransactionRequest → Encoded
  garbage : Encoded

abbrev pub bad_json : GoError
bad_json = other "invalid character"

abbrev pub refused : GoError
refused = other "connection refused"

abbrev pub encode : (k : Kind) → Payload k → Result Encoded
encode text s = ok (of_text s)
encode transaction t = ok (of_transaction t)
encode user_balance u = ok (of_user_balance u)
encode message m = ok (of_message m)

abbrev pub decode : (k : Kind) → Encoded → Result (Payload k)
decode text (of_text s) = ok s
decode transaction (of_transaction t) = ok t
decode user_balance (of_user_balance u) = ok u
decode message (of_message m) = ok m
decode text _ = err bad_json
decode transaction _ = err bad_json
decode user_balance _ = err bad_json
decode message _ = err bad_json

abbrev pub decode_form : Encoded → Result CreateTransactionRequest
decode_form (form req) = ok req
decode_form _ = err bad_json

pub record Cached : Type 0 where
  pub up : Bool
  pub entries : String → Option Encoded

abbrev pub put : String → Option Encoded → Cached → Cached
put k v r = record r { entries = λ j. if k == j then v else r.entries j }

abbrev pub reply : Option Encoded → Reply Encoded
reply none = missing
reply (some b) = found b

pub record Rows : Type 0 where
  pub up : Bool
  pub tables : Tables
  pub time : Time

pub record Running : Type 0 where
  pub statements : List Statement
  pub since : Time

pub record Queues : Type 0 where
  pub up : Bool
  pub queue : List (Publishing Encoded)
  pub acked : List ℕ
  pub nacked : List (ℕ × Bool)

-- Amounts are whole hundredths, written as the bits of the float64.
abbrev pub columns : Columns
columns = record {
  canonical = λ id. id;
  cents = λ x. pos x.bits;
  to_float = λ n. record { bits = pos_part n };
  plus = λ b x. b +ℤ pos x.bits;
  minus = λ b x. b -ℤ pos x.bits;
}

abbrev pub attempt {ℓ} : {A : Type ℓ} → Bool → A → A → Option GoError × A
attempt true after before = (none, after)
attempt false after before = (some refused, before)

abbrev pub answer {ℓ κ} : {A : Type ℓ} {D : Type κ} → Bool → Result A → D → Result A × D
answer true r d = (r, d)
answer false r d = (err refused, d)

abbrev pub execute :
    (A : Type 0) → (Rows → Result A × Rows) → BreakerState → Rows → Result A × BreakerState × Rows
execute A f open_state d = (err (other "circuit breaker is open"), open_state, d)
execute A f b d = let (r, d') = f d in (r, b, d')

abbrev pub services : Services
services = record {
  Bytes = Encoded;
  Redis = Cached;
  Db = Rows;
  Tx = Running;
  Broker = Queues;
  Breaker = BreakerState;
  Host = ℕ;
  marshal = encode;
  unmarshal = decode;
  decode_create = decode_form;
  invalid_create = λ req. other "validation failed";
  redis_get = λ k r. (if r.up then reply (r.entries k) else failed refused, r);
  redis_set = λ k b ttl r. attempt r.up (put k (some b) r) r;
  redis_del = λ k r. attempt r.up (put k none r) r;
  redis_ping = λ r. attempt r.up r r;
  query = λ p q d. answer d.up (select columns d.tables q) d;
  exec = λ st d. attempt d.up (record d { tables = apply columns d.time st d.tables }) d;
  begin = λ d. answer d.up (ok (record { statements = []; since = d.time })) d;
  tx_exec = λ st tx. (none, record tx { statements = tx.statements ++ (st ∷ []) });
  commit = λ tx d.
      attempt d.up (record d { tables = apply_all columns tx.since tx.statements d.tables }) d;
  rollback = λ tx d. d;
  db_ping = λ d. attempt d.up d d;
  publish = λ p b. attempt b.up (record b { queue = b.queue ++ (p ∷ []) }) b;
  queue_inspect = λ name b. (ok 0, b);
  ack = λ tag b. record b { acked = tag ∷ b.acked };
  nack = λ tag requeue b. record b { nacked = (tag, requeue) ∷ b.nacked };
  cb_execute = execute;
  cb_state = λ b. (b, b);
  cb_changes = λ b b'. [];
  now = λ h. (h, h + 1);
  uuid = λ h. ("0b7e3f6a-52c1-4b1e-9d0a-6f2f5a8c1d11", h + 1);
  sleep = λ n h. h + n;
  getenv = λ name. "";
  format_date = λ t. "20260105";
}
