-- ===== src/Services/Laws/Transactions.antt =====
-- The optional statement of a database transaction, under the laws.
use mathlib.Core.List.{append-nil}
use exploding_user_data_scal.Prelude.{◌≡◌, sym, ◌++◌, Option, none, some}
use exploding_user_data_scal.Services.{Services}
use exploding_user_data_scal.Services.Sql.{Statement}
use exploding_user_data_scal.Services.Action.{exec_if}
use exploding_user_data_scal.Services.Laws.{DbLaws}
use exploding_user_data_scal.Tables.Ledger.{statements}

pub exec_if-pending :
    (sv : Services) (db : DbLaws sv) (st : Option Statement) (tx : sv.Tx)
    → (exec_if sv st tx).0 ≡ none
    → db.pending (exec_if sv st tx).1 ≡ db.pending tx ++ statements st
exec_if-pending sv db none tx h = sym (append-nil (db.pending tx))
exec_if-pending sv db (some st) tx h = db.tx_exec-pending st tx h
