-- ===== src/Services/Sql.antt =====
-- The SQL texts of the program, a constructor each, and the rows that its queries scan.
use exploding_user_data_scal.Prelude.{String, Bool, Option, none, some, ◌||◌, ◌==◌, if◌then◌else◌}
use exploding_user_data_scal.Values.{Float64, Time}

-- `db.DB.Write` and `db.DB.Read`.
pub data Pool : Type 0 where
  write read : Pool

pub data Query : Type 0 where
  -- SELECT EXISTS(SELECT 1 FROM users WHERE id = $1 AND status = 'active')
  user_active : String → Query
  -- SELECT id, user_id, … FROM transactions WHERE id = $1
  transaction_by_id : String → Query
  -- SELECT id, username, balance, status FROM users WHERE id = $1
  user_by_id : String → Query

-- The columns of `transaction_by_id`; two of them may be NULL.
pub record TransactionRow : Type 0 where
  pub id : String
  pub user_id : String
  pub type : String
  pub amount : Float64
  pub status : String
  pub reference_id : Option String
  pub description : Option String
  pub created_at : Time
  pub updated_at : Time

pub record UserRow : Type 0 where
  pub id : String
  pub username : String
  pub balance : Float64
  pub status : String

abbrev pub Row : Query → Type 0
Row (user_active id) = Bool
Row (transaction_by_id id) = TransactionRow
Row (user_by_id id) = UserRow

-- The parameters of the INSERT into transactions.
pub record NewTransaction : Type 0 where
  pub id : String
  pub user_id : String
  pub type : String
  pub amount : Float64
  pub reference_id : String
  pub description : String

pub data Statement : Type 0 where
  -- INSERT INTO transactions (…) VALUES ($1, $2, $3, $4, 'pending', $5, $6)
  insert_pending : NewTransaction → Statement
  -- INSERT INTO transactions (…) VALUES ($1, $2, $3, $4, 'completed', $5, $6)
  insert_completed : NewTransaction → Statement
  -- UPDATE transactions SET status = 'processing' WHERE id = $1
  set_processing : String → Statement
  -- UPDATE transactions SET status = 'completed' WHERE id = $1
  set_completed : String → Statement
  -- UPDATE users SET balance = balance + $1 WHERE id = $2
  add_balance : Float64 → String → Statement
  -- UPDATE users SET balance = balance - $1 WHERE id = $2
  sub_balance : Float64 → String → Statement

-- The `switch` over the type that chooses `balanceQuery`, which the worker and the baseline handler
-- both have; `none` is "".
unfoldable pub balance_query : String → Float64 → String → Option Statement
balance_query type amount user_id =
    if type == "credit"
    then some (add_balance amount user_id)
    else (if type == "debit" || type == "transfer" then some (sub_balance amount user_id) else none)
