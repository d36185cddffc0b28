-- ===== src/Handler/Baseline.antt =====
-- api/handler/v0_transaction.go: the handlers without cache, queue and circuit breaker.
pub mod Effects
pub mod Stale
use exploding_user_data_scal.Prelude.{
  String, Option, none, some, [], ◌∷◌, ◌==◌, ◌||◌, if◌then◌else◌, List,
}
use exploding_user_data_scal.Values.{
  GoError, error_text, is_no_rows, Result, ok, err, CreateTransactionRequest, Float64,
}
use exploding_user_data_scal.Services.{Services}
use exploding_user_data_scal.Services.Sql.{
  write, user_active, NewTransaction, Statement, insert_completed, balance_query,
}
use exploding_user_data_scal.Services.Action.{Action, pure, ◌>>=◌, ◌>>◌, on_db, on_host, exec_if}
use exploding_user_data_scal.Handler.{
  Response, Field, str, transaction_body, user_balance_body, json, map_ok,
}
use exploding_user_data_scal.Handler.CreateTransaction.{bind, exists, reference, new_transaction}
use exploding_user_data_scal.Handler.GetTransaction.{query_transaction}
use exploding_user_data_scal.Handler.GetUserBalance.{query_user_balance}

module _ (sv : Services) (trace_id : String) where
  -- The last two fields of every answer with an object.
  abbrev pub version : List (String × Field)
  version = ("trace_id", str trace_id) ∷ ("version", str "v0-no-optimization") ∷ []

  abbrev pub server_error : String → Response
  server_error what = json 500 (("error", str what) ∷ version)

  abbrev pub invalid_user : Response
  invalid_user =
      json 422
        (("error", str "invalid user") ∷ ("message", str "User not found or inactive") ∷ version)

  abbrev pub completed : String → String → Response
  completed id ref = json 200 (
      ("id", str id)
      ∷ ("status", str "completed")
      ∷ ("reference_id", str ref)
      ∷ ("message", str "Transaction processed synchronously")
      ∷ version)

  abbrev pub after_commit : String → String → Option GoError → Response
  after_commit id ref (some e) = server_error "failed to commit transaction"
  after_commit id ref none = completed id ref

  -- From `time.Sleep` on: the answer, and the transaction that the deferred call rolls back.
  abbrev pub finish : String → String → Option GoError → sv.Tx → Action sv (Response × sv.Tx)
  finish id ref (some e) tx = pure (server_error "failed to update balance", tx)
  finish id ref none tx = do
    on_host sv (λ h. (tt, sv.sleep 100000000 h))
    failed ← on_db sv (sv.commit tx)
    pure (after_commit id ref failed, tx)

  -- From the `switch` on.
  abbrev pub pay :
      CreateTransactionRequest
      → String
      → String
      → Option GoError
      → sv.Tx
      → Action sv (Response × sv.Tx)
  pay req id ref (some e) tx = pure (server_error "failed to insert transaction", tx)
  pay req id ref none tx =
      let (failed, tx') = exec_if sv (balance_query req.type req.amount req.user_id) tx in
      finish id ref failed tx'

  -- From `defer tx.Rollback()` on.
  abbrev pub in_transaction :
      CreateTransactionRequest → String → String → Result sv.Tx → Action sv Response
  in_transaction req id ref (err e) = pure (server_error "failed to begin transaction")
  in_transaction req id ref (ok tx) = do
    let (failed, tx') = sv.tx_exec (insert_completed (new_transaction sv trace_id req id ref)) tx
    (answer, last) ← pay req id ref failed tx'
    on_db sv (λ d. (tt, sv.rollback last d))
    pure answer

  -- From `uuid.New()` on.
  unfoldable pub create_new : CreateTransactionRequest → Action sv Response
  create_new req = do
    id ← on_host sv sv.uuid
    date ← on_host sv sv.now
    begun ← on_db sv sv.begin
    in_transaction req id (reference (sv.format_date date) id) begun

  -- From the check of the user, on the primary, on.
  unfoldable pub create_bound : CreateTransactionRequest → Action sv Response
  create_bound req = do
    found ← on_db sv (sv.query write (user_active req.user_id))
    if exists found then create_new req else pure invalid_user

  abbrev pub after_bind : Result CreateTransactionRequest → Action sv Response
  after_bind (err e) =
      pure (json 400 (("error", str "invalid request") ∷ ("message", str (error_text e)) ∷ version))
  after_bind (ok req) = create_bound req

  -- `CreateTransactionV0`.
  unfoldable pub create_transaction_v0 : sv.Bytes → Action sv Response
  create_transaction_v0 body = after_bind (bind sv body)

  abbrev pub lookup_error : String → String → GoError → Response
  lookup_error unknown broken e =
      if is_no_rows e then json 404 (("error", str unknown) ∷ version) else server_error broken

  -- The headers of an answer with a row.
  abbrev pub uncached : List (String × String)
  uncached = ("X-Cache", "DISABLED") ∷ ("X-Version", "v0-no-optimization") ∷ []

  -- `GetTransactionV0`.
  unfoldable pub get_transaction_v0 : String → Action sv Response
  get_transaction_v0 id =
      if id == "" then pure (json 400 (("error", str "missing transaction id") ∷ version)) else (do
        found ← on_db sv (query_transaction sv id)
        pure (elim found [
          | err e ↦ lookup_error "transaction not found" "failed to fetch transaction" e
          | ok txn ↦ record { code = 200; headers = uncached; body = transaction_body txn }
        ]))

  -- `GetUserBalanceV0`.
  unfoldable pub get_user_balance_v0 : String → Action sv Response
  get_user_balance_v0 id =
      if id == "" then pure (json 400 (("error", str "missing user id") ∷ version)) else (do
        found ← on_db sv (query_user_balance sv id)
        elim found [
          | err e ↦ pure (lookup_error "user not found" "failed to fetch user balance" e)
          | ok row ↦ (do
            at ← on_host sv sv.now
            pure (record {
              code = 200;
              headers = uncached;
              body = user_balance_body (record row { fetched_at = at });
            }))
        ])
