-- ===== src/Handler.antt =====
-- What the handlers of api/handler answer: the arguments of `c.JSON` and `c.Header`.
pub mod CreateTransaction
pub mod GetTransaction
pub mod GetUserBalance
pub mod Baseline
pub mod Reads
pub mod Versions
use exploding_user_data_scal.Prelude.{ℕ, String, Bool, List, [], ◌∷◌}
use exploding_user_data_scal.Values.{
  Time, Result, ok, err, TransactionResponse, UserBalanceResponse,
}

pub data Field : Type 0 where
  str : String → Field
  flag : Bool → Field
  num : ℕ → Field
  instant : Time → Field

-- A `gin.H`, or one of the response types.
pub data Body : Type 0 where
  object : List (String × Field) → Body
  transaction_body : TransactionResponse → Body
  user_balance_body : UserBalanceResponse → Body

pub record Response : Type 0 where
  pub code : ℕ
  pub headers : List (String × String)
  pub body : Body

-- `c.JSON(code, gin.H{…})` with no header set.
abbrev pub json : ℕ → List (String × Field) → Response
json code fields = record { code = code; headers = []; body = object fields }

-- A conversion of a result, which an error passes by.
abbrev pub map_ok {ℓ κ} : {A : Type ℓ} {B : Type κ} → (A → B) → Result A → Result B
map_ok f (ok a) = ok (f a)
map_ok f (err e) = err e
