-- ===== src/Handler/GetTransaction/Coherent.antt =====
-- The cache in front of GET /transactions/:id: while every entry is current, a request shows what
-- the tables hold and keeps every entry current.
use mathlib.Core.Path.{subst}
use exploding_user_data_scal.Prelude.{String, Option, none, some, ◌≡◌, refl}
use exploding_user_data_scal.Values.{Result, ok, TransactionResponse, transaction}
use exploding_user_data_scal.Cache.Coherent.{HoldsCurrent}
use exploding_user_data_scal.Cache.Keys.{transaction_key}
use exploding_user_data_scal.Services.{Services}
use exploding_user_data_scal.Services.Sql.{read, transaction_by_id}
use exploding_user_data_scal.Services.Laws.{DbLaws, ReplicaLaws, RedisLaws, JsonLaws, Answers}
use exploding_user_data_scal.Services.Laws.Reads.{Answers-map_ok}
use exploding_user_data_scal.Tables.{
  Columns, Transaction, Tables, transaction_row, row_or_none, find_transaction, select,
}
use exploding_user_data_scal.Handler.{map_ok}
use exploding_user_data_scal.Handler.GetTransaction.{null_string, to_response, query_transaction}

-- "" for NULL.
abbrev pub text_of : Option String → String
text_of none = ""
text_of (some s) = s

-- A stored row of `transactions`, column by column, as a client sees it.
abbrev pub shown_row : Columns → Transaction → TransactionResponse
shown_row c r = record {
  id = r.id;
  user_id = r.user_id;
  type = r.type;
  amount = c.to_float r.amount;
  status = r.status;
  reference_id = text_of r.reference_id;
  description = text_of r.description;
  created_at = r.created_at;
  updated_at = r.updated_at;
}

null_string-text_of : (o : Option String) → null_string o ≡ text_of o
null_string-text_of none = refl
null_string-text_of (some s) = refl

to_response-shown_row :
    (c : Columns) (o : Option Transaction)
    → map_ok to_response (row_or_none (transaction_row c) o) ≡ row_or_none (shown_row c) o
to_response-shown_row c none = refl
to_response-shown_row c (some r) =
    rw (null_string-text_of r.reference_id, null_string-text_of r.description) refl

module _ (sv : Services) (db : DbLaws sv) where
  open db use {columns}

  -- What the tables say of a transaction.
  abbrev pub view : Tables → String → Result TransactionResponse
  view t id =
      row_or_none (shown_row columns) (find_transaction (columns.canonical id) t.transactions)

  select-view :
      (t : Tables) (id : String)
      → map_ok to_response (select columns t (transaction_by_id id)) ≡ view t id
  unfolding select
  select-view t id =
      to_response-shown_row columns (find_transaction (columns.canonical id) t.transactions)

  -- `queryTransaction` answers by the tables, or with an error that is not `sql.ErrNoRows`.
  pub query_transaction-Answers :
      ReplicaLaws sv db
      → (id : String) (d : sv.Db) → Answers (query_transaction sv id d).0 (view (db.tables d) id)
  unfolding query_transaction
  query_transaction-Answers replica id d =
      let found = (sv.query read (transaction_by_id id) d).0 in
      subst (Answers (map_ok to_response found)) (select-view (db.tables d) id)
        (Answers-map_ok to_response _ _ (replica.replica-answer read (transaction_by_id id) d))

  -- Every cached transaction is the one in the tables.
  abbrev pub IsCoherent : (redis : RedisLaws sv) → JsonLaws sv → sv.Redis → Tables → Type 0
  IsCoherent redis json r t =
      HoldsCurrent sv redis transaction transaction_key (λ id txn. view t id ≡ ok txn) r
