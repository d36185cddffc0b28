-- ===== src/Worker/Effects.antt =====
-- What `processTransaction` leaves in the tables, on every path.
use exploding_user_data_scal.Prelude.{
  ◌≡◌, refl, ◌∙◌, ◌⊎◌, inl, inr, List, [], ◌∷◌, ◌++◌, Option, none, some,
}
use exploding_user_data_scal.Values.{GoError, Result, ok, err, Time, TransactionMessage}
use exploding_user_data_scal.Services.{Services}
use exploding_user_data_scal.Services.Sql.{Statement, balance_query, set_processing, set_completed}
use exploding_user_data_scal.Services.Action.{World, exec_if}
use exploding_user_data_scal.Services.Laws.{DbLaws, Attempted}
use exploding_user_data_scal.Services.Laws.Transactions.{exec_if-pending}
use exploding_user_data_scal.Tables.{Tables, apply, apply_all}
use exploding_user_data_scal.Tables.Ledger.{statements}
use exploding_user_data_scal.Cache
use exploding_user_data_scal.Worker.{
  invalidate, after_commit, finish, pay, in_transaction, complete, process_transaction,
}

-- The statements of the database transaction.
abbrev pub completion : TransactionMessage → List Statement
completion msg =
    set_completed msg.transaction_id ∷ statements (balance_query msg.type msg.amount msg.user_id)

module _ (sv : Services) (db : DbLaws sv) where
  open db use {columns, tables, pending, started}

  invalidate-db : (msg : TransactionMessage) (w : World sv) → (invalidate sv msg w).1.db ≡ w.db
  unfolding invalidate Cache.delete
  invalidate-db msg w = refl

  -- The error is one that a Commit has returned.
  abbrev pub CommitFailed : GoError → Type 0
  CommitFailed e = (tx : sv.Tx) × (d : sv.Db) × ((sv.commit tx d).0 ≡ some e)

  -- All that a database transaction with these statements has done at its end: on an error nothing,
  -- or, if the error is the Commit's, perhaps all.
  abbrev Committed : List Statement → Tables → Option GoError → Tables → Type 0
  Committed sts before none after = (at : Time) × (after ≡ apply_all columns at sts before)
  Committed sts before (some e) after =
      (after ≡ before) ⊎ (CommitFailed e × (at : Time) × (after ≡ apply_all columns at sts before))

  after_commit-Committed :
      (sts : List Statement) (before : Tables) (at : Time) (msg : TransactionMessage)
      (failed : Option GoError) (tx : sv.Tx) (d : sv.Db) (w : World sv)
      → (sv.commit tx d).0 ≡ failed
      → Attempted failed (apply_all columns at sts before) before (tables w.db)
      → let (r, w') = after_commit sv msg failed w in Committed sts before r (tables w'.db)
  after_commit-Committed sts before at msg none tx d w is h = (at, rw (invalidate-db msg w) h)
  after_commit-Committed sts before at msg (some e) tx d w is (inl all) = inr ((tx, d, is), at, all)
  after_commit-Committed sts before at msg (some e) tx d w is (inr nothing) = inl nothing

  finish-Committed :
      (sts : List Statement) (msg : TransactionMessage) (failed : Option GoError) (tx : sv.Tx)
      (w : World sv)
      → (failed ≡ none → pending tx ≡ sts)
      → let ((r, last), w') = finish sv msg failed tx w in
        Committed sts (tables w.db) r (tables w'.db)
  finish-Committed sts msg (some e) tx w h = inl refl
  finish-Committed sts msg none tx w h =
      after_commit-Committed sts (tables w.db) (started tx) msg (sv.commit tx w.db).0 tx w.db
        (record w { db = (sv.commit tx w.db).1 }) refl (rw (← h refl) (db.commit-tables tx w.db))

  pay-Committed :
      (sts : List Statement) (msg : TransactionMessage) (failed : Option GoError) (tx : sv.Tx)
      (w : World sv)
      → (failed ≡ none
          → pending tx ++ statements (balance_query msg.type msg.amount msg.user_id) ≡ sts)
      → let ((r, last), w') = pay sv msg failed tx w in Committed sts (tables w.db) r (tables w'.db)
  pay-Committed sts msg (some e) tx w h = inl refl
  pay-Committed sts msg none tx w h =
      let st = balance_query msg.type msg.amount msg.user_id in
      finish-Committed sts msg (exec_if sv st tx).0 (exec_if sv st tx).1 w
        (λ fine. exec_if-pending sv db st tx fine ∙ h refl)

  in_transaction-Committed :
      (msg : TransactionMessage) (begun : Result sv.Tx) (w : World sv)
      → ((tx : sv.Tx) → begun ≡ ok tx → pending tx ≡ [])
      → let (r, w') = in_transaction sv msg begun w in
        Committed (completion msg) (tables w.db) r (tables w'.db)
  in_transaction-Committed msg (err e) w h = inl refl
  in_transaction-Committed msg (ok tx) w h =
      let st = set_completed msg.transaction_id in
      let (failed, tx') = sv.tx_exec st tx in
      let ((r, last), w') = pay sv msg failed tx' w in
      rw (db.rollback-tables last w'.db) (
        pay-Committed (completion msg) msg failed tx' w
          (λ fine. rw (db.tx_exec-pending st tx fine, h tx refl)))

  complete-Committed :
      (msg : TransactionMessage) (w : World sv)
      → let (r, w') = complete sv msg none w in
        Committed (completion msg) (tables w.db) r (tables w'.db)
  unfolding complete
  complete-Committed msg w =
      let h = sv.sleep 50000000 w.host in
      let (begun, d) = sv.begin w.db in
      rw (← db.begin-tables w.db)
        (in_transaction-Committed msg begun (record w { host = h; db = d }) (db.begin-pending w.db))

  -- Both UPDATEs of the status, and the one of the balance.
  abbrev pub Completed : TransactionMessage → Tables → Tables → Type 0
  Completed msg before after =
      (at : Time) × (at' : Time) × (after
        ≡ apply_all columns at' (completion msg)
            (apply columns at (set_processing msg.transaction_id) before))

  -- What a call has done by how it ended: everything, or at most the first UPDATE; but everything,
  -- too, if the error is the Commit's and its reply was lost.
  abbrev pub Processed : TransactionMessage → Tables → Option GoError → Tables → Type 0
  Processed msg before none after = Completed msg before after
  Processed msg before (some e) after =
      (after ≡ before)
      ⊎ ((at : Time) × (after ≡ apply columns at (set_processing msg.transaction_id) before))
      ⊎ (CommitFailed e × Completed msg before after)

  complete-Processed :
      (msg : TransactionMessage) (before : Tables) (at : Time) (failed : Option GoError)
      (w : World sv)
      → Attempted failed
          (apply columns at (set_processing msg.transaction_id) before)
          before
          (tables w.db)
      → let (r, w') = complete sv msg failed w in Processed msg before r (tables w'.db)
  complete-Processed msg before at (some e) w (inl done) = unfold complete in inr (inl (at, done))
  complete-Processed msg before at (some e) w (inr nothing) = unfold complete in inl nothing
  complete-Processed msg before at none w h = from_Committed _ _ (complete-Committed msg w)
    where
      from_Committed :
          (r : Option GoError) (after : Tables)
          → Committed (completion msg) (tables w.db) r after
          → Processed msg before r after
      from_Committed none after c = (at, c.0, rw (← h) c.1)
      from_Committed (some e) after (inl nothing) = inr (inl (at, nothing ∙ h))
      from_Committed (some e) after (inr (lost, at', all)) =
          inr (inr (lost, (at, at', rw (← h) all)))

  pub process_transaction-Processed :
      (msg : TransactionMessage) (w : World sv)
      → let (r, w') = process_transaction sv msg w in Processed msg (tables w.db) r (tables w'.db)
  unfolding process_transaction
  process_transaction-Processed msg w =
      let st = set_processing msg.transaction_id in
      let (failed, d) = sv.exec st w.db in
      complete-Processed msg (tables w.db) (db.clock w.db) failed (record w { db = d })
        (db.exec-tables st w.db)
