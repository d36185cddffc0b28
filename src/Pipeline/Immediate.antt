-- ===== src/Pipeline/Immediate.antt =====
-- POST /v0/transactions against the specification of an executed request.
use mathlib.Core.Path.{subst}
use exploding_user_data_scal.Prelude.{arith, String, ◌≡◌, sym, inl, inr}
use exploding_user_data_scal.Values.{ok, Time, CreateTransactionRequest}
use exploding_user_data_scal.Services.{Services}
use exploding_user_data_scal.Services.Action.{World}
use exploding_user_data_scal.Services.Laws.{DbLaws}
use exploding_user_data_scal.Tables.{Tables}
use exploding_user_data_scal.Tables.Ledger.{payment, balance-adjust, status-insert}
use exploding_user_data_scal.Handler.{Response}
use exploding_user_data_scal.Handler.CreateTransaction.{new_transaction}
use exploding_user_data_scal.Handler.Baseline.{create_transaction_v0, completed}
use exploding_user_data_scal.Handler.Baseline.Effects as V0
use exploding_user_data_scal.Pipeline.{Executed}

module _ (sv : Services) (trace_id : String) (db : DbLaws sv) where
  open db use {columns, tables}

  V0-Executed :
      (req : CreateTransactionRequest) (id ref : String) (at : Time) (before : Tables)
      → Executed columns req id before (V0.with_payment sv trace_id db req id ref at before)
  V0-Executed req id ref at before j = (
    balance-adjust (payment columns req.type req.amount) (columns.canonical req.user_id) j
        before.users,
    status-insert columns at "completed" (new_transaction sv trace_id req id ref)
        before.transactions j,
  )

  -- A call of CreateTransactionV0 with code 200 has executed the request of its body, under the id
  -- of its answer.
  pub create_transaction_v0-Executed :
      (body : sv.Bytes) (w : World sv)
      → (create_transaction_v0 sv trace_id body w).0.code ≡ 200
      → let (answer, w') = create_transaction_v0 sv trace_id body w in
        (req : CreateTransactionRequest) × (id : String) × (ref : String) × (sv.decode_create body
          ≡ ok req)
        × (answer ≡ completed sv trace_id id ref)
        × Executed columns req id (tables w.db) (tables w'.db)
  create_transaction_v0-Executed body w success =
      from_Created (V0.create_transaction_v0-Created sv trace_id db body w) success
    where
      from_Created :
          {answer : Response} {after : Tables}
          → V0.Created sv trace_id db body (tables w.db) answer after
          → answer.code ≡ 200
          → (req : CreateTransactionRequest) × (id : String) × (ref : String) × (sv.decode_create
                body
              ≡ ok req)
            × (answer ≡ completed sv trace_id id ref)
            × Executed columns req id (tables w.db) after
      from_Created (inr (other, same)) h = absurd (other h)
      from_Created (inl (req, decoded, V0.refused other same)) h = absurd (other h)
      from_Created (inl (req, decoded, V0.reply_lost id ref at code moved)) h =
          absurd (omega (arith, code, h))
      from_Created (inl (req, decoded, V0.paid id ref at said moved)) h = (
        req,
        id,
        ref,
        decoded,
        said,
        subst (λ (t : Tables). Executed columns req id (tables w.db) t) (sym moved)
            (V0-Executed req id ref at (tables w.db)),
      )
