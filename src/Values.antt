-- ===== src/Values.antt =====
-- The values that the packages exchange: errors, float64, the request and response types of
-- api/handler/transaction.go and api/handler/user.go, and the message of api/queue/rabbitmq.go.
use exploding_user_data_scal.Prelude.{
  ℕ, String, Bool, ◌&&◌, ltb, leb, ◌≡◌, refl, ◌⊎◌, inl, inr, false, true,
}
use Prim.Native.String.{◌++◌ as append}

-- A Go `error`: `sql.ErrNoRows`, the one that the handlers compare with; an error that
-- `fmt.Errorf` wraps by "%w"; and any other one, by its text.
pub data GoError : Type 0 where
  no_rows : GoError
  wrapped : String → GoError → GoError
  other : String → GoError

-- `err.Error()`.
pub error_text : GoError → String
error_text no_rows = "sql: no rows in result set"
error_text (wrapped what e) = append what (append ": " (error_text e))
error_text (other text) = text

-- `err == sql.ErrNoRows`, which a wrapped error does not pass.
abbrev pub is_no_rows : GoError → Bool
is_no_rows no_rows = true
is_no_rows (wrapped what e) = false
is_no_rows (other text) = false

-- What a function that returns `(A, error)` gives: the value counts only without an error.
pub data Result {ℓ} (A : Type ℓ) : Type ℓ where
  ok : A → Result A
  err : GoError → Result A

pub Result-cases {ℓ} :
    {A : Type ℓ} (r : Result A) → ((a : A) × (r ≡ ok a)) ⊎ ((e : GoError) × (r ≡ err e))
Result-cases (ok a) = inl (a, refl)
Result-cases (err e) = inr (e, refl)

pub ok-injective {ℓ} : {A : Type ℓ} {a b : A} → ok a ≡ ok b → a ≡ b
ok-injective e = cc

-- A float64 by its 64 bits. The program does no arithmetic on amounts; it compares one with 0.
pub record Float64 : Type 0 where
  pub bits : ℕ

-- `x > 0`: the sign bit is clear, and the rest is neither zero nor above the pattern of +Inf.
unfoldable pub is_positive : Float64 → Bool
is_positive x = ltb 0 x.bits && leb x.bits 0x7ff0000000000000

-- The instants of `time.Time`, in nanoseconds.
abbrev pub Time : Type 0
Time = ℕ

pub record CreateTransactionRequest : Type 0 where
  pub user_id : String
  pub type : String
  pub amount : Float64
  pub description : String
  pub idempotency : String

pub record TransactionResponse : Type 0 where
  pub id : String
  pub user_id : String
  pub type : String
  pub amount : Float64
  pub status : String
  pub reference_id : String
  pub description : String
  pub created_at : Time
  pub updated_at : Time

pub record UserBalanceResponse : Type 0 where
  pub user_id : String
  pub username : String
  pub balance : Float64
  pub status : String
  pub fetched_at : Time

pub record TransactionMessage : Type 0 where
  pub transaction_id : String
  pub user_id : String
  pub type : String
  pub amount : Float64
  pub description : String
  pub trace_id : String
  pub created_at : Time

-- The types that the program hands to encoding/json, in `cache.Set`, `cache.Get`, `queue.Publish`
-- and `queue.StartConsumer`.
pub data Kind : Type 0 where
  text transaction user_balance message : Kind

-- The values of each.
abbrev pub Payload : Kind → Type 0
Payload text = String
Payload transaction = TransactionResponse
Payload user_balance = UserBalanceResponse
Payload message = TransactionMessage

positive_example : is_positive (record { bits = 0x3ff0000000000000 }) ≡ true
unfolding is_positive
positive_example = refl
