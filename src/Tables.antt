-- ===== src/Tables.antt =====
-- The two tables of migrations/init.sql and what the SQL texts of the program do to them. Balances
-- are NUMERIC(18, 2), here in hundredths. Left out are the columns that no SQL text of the
-- program reads or writes: email, metadata, and the times of a user. PostgreSQL's own
-- conversions are a parameter, `Columns`.
pub mod Ledger
pub mod Payments
use exploding_user_data_scal.Prelude.{
  String, Bool, ◌&&◌, List, [], ◌∷◌, Option, none, some, map, ◌==◌, if◌then◌else◌,
}
use exploding_user_data_scal.Prelude.Int.{ℤ}
use exploding_user_data_scal.Values.{Float64, Time, Result, ok, err, no_rows}
use exploding_user_data_scal.Services.Sql.{
  Query, user_active, transaction_by_id, user_by_id, Row, TransactionRow, UserRow, NewTransaction,
  Statement, insert_pending, insert_completed, set_processing, set_completed, add_balance,
  sub_balance,
}

-- How PostgreSQL reads and writes the columns' types.
pub record Columns : Type 0 where
  -- The stored form of a UUID's text.
  pub canonical : String → String
  -- A float64 stored as NUMERIC(18, 2), and such a number scanned into a float64.
  pub cents : Float64 → ℤ
  pub to_float : ℤ → Float64
  -- `balance + $1` and `balance - $1`, stored as NUMERIC(18, 2).
  pub plus : ℤ → Float64 → ℤ
  pub minus : ℤ → Float64 → ℤ

pub record User : Type 0 where
  pub id : String
  pub username : String
  pub balance : ℤ
  pub status : String

pub record Transaction : Type 0 where
  pub id : String
  pub user_id : String
  pub type : String
  pub amount : ℤ
  pub status : String
  pub reference_id : Option String
  pub description : Option String
  pub created_at : Time
  pub updated_at : Time

pub record Tables : Type 0 where
  pub users : List User
  pub transactions : List Transaction

-- The row that an INSERT adds, at the server's time.
abbrev pub new_row : Columns → Time → String → NewTransaction → Transaction
new_row c now status n = record {
  id = c.canonical n.id;
  user_id = c.canonical n.user_id;
  type = n.type;
  amount = c.cents n.amount;
  status = status;
  reference_id = some n.reference_id;
  description = some n.description;
  created_at = now;
  updated_at = now;
}

-- SET status, for one row. The trigger sets `updated_at`.
abbrev pub mark : Time → String → String → Transaction → Transaction
mark now status id r = if r.id == id then record r { status = status; updated_at = now } else r

-- SET balance, for one row.
abbrev pub adjust : (ℤ → ℤ) → String → User → User
adjust f id u = if u.id == id then record u { balance = f u.balance } else u

abbrev pub apply : Columns → Time → Statement → Tables → Tables
apply c now (insert_pending n) t = record t {
  transactions = new_row c now "pending" n ∷ t.transactions;
}
apply c now (insert_completed n) t = record t {
  transactions = new_row c now "completed" n ∷ t.transactions;
}
apply c now (set_processing id) t = record t {
  transactions = map (mark now "processing" (c.canonical id)) t.transactions;
}
apply c now (set_completed id) t = record t {
  transactions = map (mark now "completed" (c.canonical id)) t.transactions;
}
apply c now (add_balance amount id) t = record t {
  users = map (adjust (λ b. c.plus b amount) (c.canonical id)) t.users;
}
apply c now (sub_balance amount id) t = record t {
  users = map (adjust (λ b. c.minus b amount) (c.canonical id)) t.users;
}

-- The statements of a database transaction, the first one first.
abbrev pub apply_all : Columns → Time → List Statement → Tables → Tables
apply_all c now [] t = t
apply_all c now (st ∷ sts) t = apply_all c now sts (apply c now st t)

-- The first row with an id.
unfoldable pub find_user : String → List User → Option User
find_user id [] = none
find_user id (u ∷ us) = if u.id == id then some u else find_user id us

unfoldable pub find_transaction : String → List Transaction → Option Transaction
find_transaction id [] = none
find_transaction id (r ∷ rs) = if r.id == id then some r else find_transaction id rs

abbrev pub is_active : Option User → Bool
is_active none = Bool.false
is_active (some u) = u.status == "active"

abbrev pub transaction_row : Columns → Transaction → TransactionRow
transaction_row c r = record {
  id = r.id;
  user_id = r.user_id;
  type = r.type;
  amount = c.to_float r.amount;
  status = r.status;
  reference_id = r.reference_id;
  description = r.description;
  created_at = r.created_at;
  updated_at = r.updated_at;
}

abbrev pub user_row : Columns → User → UserRow
user_row c u = record {
  id = u.id;
  username = u.username;
  balance = c.to_float u.balance;
  status = u.status;
}

abbrev pub row_or_none {ℓ κ} : {A : Type ℓ} {B : Type κ} → (A → B) → Option A → Result B
row_or_none f none = err no_rows
row_or_none f (some a) = ok (f a)

-- What a query finds: `sql.ErrNoRows` where it selects no row.
unfoldable pub select : Columns → Tables → (q : Query) → Result (Row q)
unfolding find_user find_transaction
select c t (user_active id) = ok (is_active (find_user (c.canonical id) t.users))
select c t (transaction_by_id id) =
    row_or_none (transaction_row c) (find_transaction (c.canonical id) t.transactions)
select c t (user_by_id id) = row_or_none (user_row c) (find_user (c.canonical id) t.users)
