-- ===== src/Handler/Baseline/Effects.antt =====
-- What CreateTransactionV0 has written, by what it answers.
use mathlib.Core.Path.{subst}
use exploding_user_data_scal.Prelude.{
  String, ◌≡◌, ◌≢◌, refl, ◌∙◌, List, [], ◌∷◌, map, ◌++◌, inl, inr, ◌⊎◌, Option, none, some, arith,
  Bool-cases,
}
use exploding_user_data_scal.Values.{GoError, Result, ok, err, Time, CreateTransactionRequest}
use exploding_user_data_scal.Services.{Services}
use exploding_user_data_scal.Services.Sql.{
  Statement, insert_completed, balance_query, user_active, write,
}
use exploding_user_data_scal.Services.Action.{World, exec_if}
use exploding_user_data_scal.Services.Laws.{DbLaws, Attempted}
use exploding_user_data_scal.Services.Laws.Transactions.{exec_if-pending}
use exploding_user_data_scal.Tables.{Tables, Transaction, adjust, apply, apply_all}
use exploding_user_data_scal.Tables.Ledger.{statements, payment, tables-payment}
use exploding_user_data_scal.Handler.{Response}
use exploding_user_data_scal.Handler.CreateTransaction.{exists, reference, new_transaction}
use exploding_user_data_scal.Handler.CreateTransaction.Queued.{bind-cases}
use exploding_user_data_scal.Handler.Baseline.{
  completed, after_commit, finish, pay, in_transaction, create_new, create_bound,
  create_transaction_v0,
}

module _ (sv : Services) (trace_id : String) (db : DbLaws sv) where
  open db use {columns, tables, pending, started}

  -- The statements of the database transaction.
  abbrev pub payment_statements : CreateTransactionRequest → String → String → List Statement
  payment_statements req id ref =
      insert_completed (new_transaction sv trace_id req id ref)
      ∷ statements (balance_query req.type req.amount req.user_id)

  -- The row of a request.
  abbrev pub completed_row : CreateTransactionRequest → String → String → Time → Transaction
  completed_row req id ref at = record {
    id = columns.canonical id;
    user_id = columns.canonical req.user_id;
    type = req.type;
    amount = columns.cents req.amount;
    status = "completed";
    reference_id = some ref;
    description = some req.description;
    created_at = at;
    updated_at = at;
  }

  -- The tables with it and with the payment: a credit added to the user's balance, a debit or a
  -- transfer taken from it.
  abbrev pub with_payment : CreateTransactionRequest → String → String → Time → Tables → Tables
  with_payment req id ref at before = record {
    users =
        map (adjust (payment columns req.type req.amount) (columns.canonical req.user_id))
          before.users;
    transactions = completed_row req id ref at ∷ before.transactions;
  }

  -- What a request has done: with the answer `completed` its row and its payment; with any other
  -- code than 200 nothing, but for 500, where all may be done if the reply of the Commit was lost.
  pub data Paid (req : CreateTransactionRequest) (before : Tables) (answer : Response)
      (after : Tables) : Type 0 where
    paid :
        (id ref : String) (at : Time)
        → answer ≡ completed sv trace_id id ref
        → after ≡ with_payment req id ref at before
        → Paid req before answer after
    reply_lost :
        (id ref : String) (at : Time)
        → answer.code ≡ 500
        → after ≡ with_payment req id ref at before
        → Paid req before answer after
    refused : answer.code ≢ 200 → after ≡ before → Paid req before answer after

  module _ (req : CreateTransactionRequest) (id ref : String) where
    statements-with_payment :
        (at : Time) (before : Tables)
        → apply_all columns at (payment_statements req id ref) before
          ≡ with_payment req id ref at before
    statements-with_payment at before =
        tables-payment columns at req.type req.amount req.user_id
          (apply columns at (insert_completed (new_transaction sv trace_id req id ref)) before)

    after_commit-Paid :
        (at : Time) (failed : Option GoError) (before after : Tables)
        → Attempted failed
            (apply_all columns at (payment_statements req id ref) before)
            before
            after
        → Paid req before (after_commit sv trace_id id ref failed) after
    after_commit-Paid at none before after h =
        paid id ref at refl (h ∙ statements-with_payment at before)
    after_commit-Paid at (some e) before after (inl all) =
        reply_lost id ref at refl (all ∙ statements-with_payment at before)
    after_commit-Paid at (some e) before after (inr nothing) = refused (omega arith) nothing

    finish-Paid :
        (failed : Option GoError) (tx : sv.Tx) (w : World sv)
        → (failed ≡ none → pending tx ≡ payment_statements req id ref)
        → let ((answer, last), w') = finish sv trace_id id ref failed tx w in
          Paid req (tables w.db) answer (tables w'.db)
    finish-Paid (some e) tx w h = refused (omega arith) refl
    finish-Paid none tx w h =
        after_commit-Paid (started tx) (sv.commit tx w.db).0 (tables w.db)
          (tables (sv.commit tx w.db).1) (rw (← h refl) (db.commit-tables tx w.db))

    pay-Paid :
        (failed : Option GoError) (tx : sv.Tx) (w : World sv)
        → (failed ≡ none
            → pending tx ++ statements (balance_query req.type req.amount req.user_id)
              ≡ payment_statements req id ref)
        → let ((answer, last), w') = pay sv trace_id req id ref failed tx w in
          Paid req (tables w.db) answer (tables w'.db)
    pay-Paid (some e) tx w h = refused (omega arith) refl
    pay-Paid none tx w h =
        let st = balance_query req.type req.amount req.user_id in
        finish-Paid (exec_if sv st tx).0 (exec_if sv st tx).1 w
          (λ fine. exec_if-pending sv db st tx fine ∙ h refl)

    in_transaction-Paid :
        (begun : Result sv.Tx) (w : World sv)
        → ((tx : sv.Tx) → begun ≡ ok tx → pending tx ≡ [])
        → let (answer, w') = in_transaction sv trace_id req id ref begun w in
          Paid req (tables w.db) answer (tables w'.db)
    in_transaction-Paid (err e) w h = refused (omega arith) refl
    in_transaction-Paid (ok tx) w h =
        let st = insert_completed (new_transaction sv trace_id req id ref) in
        let (failed, tx') = sv.tx_exec st tx in
        let ((answer, last), w') = pay sv trace_id req id ref failed tx' w in
        rw (db.rollback-tables last w'.db)
          (pay-Paid failed tx' w (λ fine. rw (db.tx_exec-pending st tx fine, h tx refl)))

  create_new-Paid :
      (req : CreateTransactionRequest) (w : World sv)
      → let (answer, w') = create_new sv trace_id req w in
        Paid req (tables w.db) answer (tables w'.db)
  unfolding create_new
  create_new-Paid req w =
      let (id, h) = sv.uuid w.host in
      let (date, h') = sv.now h in
      let (begun, d) = sv.begin w.db in
      rw (← db.begin-tables w.db) (
        in_transaction-Paid req id (reference (sv.format_date date) id) begun
          (record w { host = h'; db = d }) (db.begin-pending w.db))

  -- What a call has done: `Paid` for the request of its body, or nothing.
  abbrev pub Created : sv.Bytes → Tables → Response → Tables → Type 0
  Created body before answer after =
      ((req : CreateTransactionRequest) × (sv.decode_create body ≡ ok req)
        × Paid req before answer after)
      ⊎ ((answer.code ≢ 200) × (after ≡ before))

  create_bound-Created :
      (body : sv.Bytes) (req : CreateTransactionRequest) (w : World sv)
      → sv.decode_create body ≡ ok req
      → let (answer, w') = create_bound sv trace_id req w in
        Created body (tables w.db) answer (tables w'.db)
  unfolding create_bound
  create_bound-Created body req w decoded =
      let q = user_active req.user_id in
      let (found, d) = sv.query write q w.db in
      let w1 = record w { db = d } in
      let same = db.query-tables write q w.db in
      elim (Bool-cases (exists found)) [
        | inl active ↦
            let (answer, w') = create_new sv trace_id req w1 in
            rw active (
              inl (
                req,
                decoded,
                subst (λ (t : Tables). Paid req t answer (tables w'.db)) same
                    (create_new-Paid req w1),
              ))
        | inr unknown ↦ rw unknown (inr (omega arith, same))
      ]

  pub create_transaction_v0-Created :
      (body : sv.Bytes) (w : World sv)
      → let (answer, w') = create_transaction_v0 sv trace_id body w in
        Created body (tables w.db) answer (tables w'.db)
  unfolding create_transaction_v0
  create_transaction_v0-Created body w = elim (bind-cases sv body) [
    | inl (req, bound, decoded, valid) ↦ rw bound (create_bound-Created body req w decoded)
    | inr (e, bad) ↦ rw bad (inr (omega arith, refl))
  ]
