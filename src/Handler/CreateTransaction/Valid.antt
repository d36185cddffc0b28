-- ===== src/Handler/CreateTransaction/Valid.antt =====
-- The `binding` tags of CreateTransactionRequest in api/handler/transaction.go.
use exploding_user_data_scal.Prelude.{true, ◌≡◌, ◌≢◌, ◌⊎◌, ◌<◌, ◌≤◌, arith, eq_iff}
use exploding_user_data_scal.Values.{is_positive, CreateTransactionRequest}
use exploding_user_data_scal.Handler.CreateTransaction.{validate}

-- A user, one of the three types, and an amount above 0: the largest number here is the bit
-- pattern of +Inf, and negative numbers and NaN lie above it.
abbrev pub Valid : CreateTransactionRequest → Type 0
Valid req =
    (req.user_id ≢ "")
    × ((req.type ≡ "credit") ⊎ (req.type ≡ "debit") ⊎ (req.type ≡ "transfer"))
    × (0 < req.amount.bits)
    × (req.amount.bits ≤ 9218868437227405312)

pub validate-Valid : (req : CreateTransactionRequest) → validate req ≡ true → Valid req
unfolding validate is_positive
validate-Valid req h = (
  ground (arith, eq_iff req.user_id "", h),
  ground (arith, eq_iff req.type "credit", eq_iff req.type "debit", eq_iff req.type "transfer", h),
  ground (arith, h),
  ground (arith, h),
)
