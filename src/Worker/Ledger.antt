-- ===== src/Worker/Ledger.antt =====
-- Balances and statuses after `processTransaction`.
use mathlib.Core.Option as Opt
use mathlib.Core.Path.{subst}
use exploding_user_data_scal.Prelude.{
  String, ◌≡◌, refl, ap, ◌∙◌, ◌⊎◌, inl, inr, Option, none, some, ◌==◌, eq_iff, if◌then◌else◌,
  Bool-cases,
}
use exploding_user_data_scal.Values.{GoError, Time, TransactionMessage}
use exploding_user_data_scal.Services.{Services}
use exploding_user_data_scal.Services.Sql.{set_processing, set_completed}
use exploding_user_data_scal.Services.Action.{World}
use exploding_user_data_scal.Services.Laws.{DbLaws}
use exploding_user_data_scal.Tables.{Tables, apply, apply_all}
use exploding_user_data_scal.Tables.Ledger.{
  balance_of, status_of, payment, balance-payment, status-mark, transactions-payment,
}
use exploding_user_data_scal.Worker.{process_transaction}
use exploding_user_data_scal.Worker.Effects.{
  completion, CommitFailed, Processed, process_transaction-Processed,
}

-- The last status that is set stands.
marked_twice :
    (s s' : String) (o : Option String)
    → Opt.map (λ _. s') (Opt.map (λ _. s) o) ≡ Opt.map (λ _. s') o
marked_twice s s' none = refl
marked_twice s s' (some x) = refl

module _ (sv : Services) (db : DbLaws sv) where
  open db use {columns, tables}

  -- Every balance and every status after a completed message.
  abbrev pub Paid : TransactionMessage → Tables → Tables → Type 0
  Paid msg before after =
      (j : String)
      → (balance_of after j ≡ (
          if j == columns.canonical msg.user_id
          then Opt.map (payment columns msg.type msg.amount) (balance_of before j)
          else balance_of before j))
        × (status_of after j ≡ (
            if j == columns.canonical msg.transaction_id
            then Opt.map (λ _. "completed") (status_of before j)
            else status_of before j))

  -- No balance has changed, nor any status but perhaps that of the message's transaction, which
  -- may be "processing" now.
  abbrev pub Unpaid : TransactionMessage → Tables → Tables → Type 0
  Unpaid msg before after =
      (j : String)
      → (balance_of after j ≡ balance_of before j)
        × ((status_of after j ≡ status_of before j)
            ⊎ ((j ≡ columns.canonical msg.transaction_id)
                × (status_of after j ≡ Opt.map (λ _. "processing") (status_of before j))))

  balance-completion :
      (msg : TransactionMessage) (at at' : Time) (t : Tables) (j : String)
      → balance_of
          (apply_all columns at'
            (completion msg)
            (apply columns at (set_processing msg.transaction_id) t))
          j
        ≡ (if j == columns.canonical msg.user_id
            then Opt.map (payment columns msg.type msg.amount) (balance_of t j)
            else balance_of t j)
  balance-completion msg at at' t j =
      balance-payment columns at' msg.type msg.amount msg.user_id j (
        apply columns at' (set_completed msg.transaction_id)
          (apply columns at (set_processing msg.transaction_id) t))

  status-completion :
      (msg : TransactionMessage) (at at' : Time) (t : Tables) (j : String)
      → status_of
          (apply_all columns at'
            (completion msg)
            (apply columns at (set_processing msg.transaction_id) t))
          j
        ≡ (if j == columns.canonical msg.transaction_id
            then Opt.map (λ _. "completed") (status_of t j)
            else status_of t j)
  status-completion msg at at' t j =
      let id = columns.canonical msg.transaction_id in
      let processing = apply columns at (set_processing msg.transaction_id) t in
      let done = apply columns at' (set_completed msg.transaction_id) processing in
      rw (transactions-payment columns at' msg.type msg.amount msg.user_id done)
        (elim (Bool-cases (j == id)) [
          | inl same ↦
              status-mark at' "completed" id j processing.transactions
              ∙ rw same (
                  ap (Opt.map (λ _. "completed")) (status-mark at "processing" id j t.transactions)
                  ∙ rw same (marked_twice "processing" "completed" (status_of t j)))
          | inr other ↦
              status-mark at' "completed" id j processing.transactions
              ∙ rw other (status-mark at "processing" id j t.transactions ∙ rw other refl)
        ])

  Processed-Paid :
      (msg : TransactionMessage) (before after : Tables)
      → Processed sv db msg before none after
      → Paid msg before after
  Processed-Paid msg before after (at, at', e) j = (
    ap (λ t. balance_of t j) e ∙ balance-completion msg at at' before j,
    ap (λ t. status_of t j) e ∙ status-completion msg at at' before j,
  )

  status-processing :
      (msg : TransactionMessage) (at : Time) (t : Tables) (j : String)
      → let after = apply columns at (set_processing msg.transaction_id) t in
        (status_of after j ≡ status_of t j)
        ⊎ ((j ≡ columns.canonical msg.transaction_id)
            × (status_of after j ≡ Opt.map (λ _. "processing") (status_of t j)))
  status-processing msg at t j =
      let id = columns.canonical msg.transaction_id in
      let step = status-mark at "processing" id j t.transactions in
      elim (Bool-cases (j == id)) [
        | inl same ↦ inr ((eq_iff j id).0 same, step ∙ rw same refl)
        | inr other ↦ inl (step ∙ rw other refl)
      ]

  -- What an error leaves: nothing paid, or, if it is the error of a Commit, perhaps all.
  abbrev pub Failed : TransactionMessage → GoError → Tables → Tables → Type 0
  Failed msg e before after =
      Unpaid msg before after ⊎ (CommitFailed sv db e × Paid msg before after)

  Processed-Failed :
      (msg : TransactionMessage) (before after : Tables) (e : GoError)
      → Processed sv db msg before (some e) after
      → Failed msg e before after
  Processed-Failed msg before after e (inl same) =
      inl (λ j. (ap (λ t. balance_of t j) same, inl (ap (λ t. status_of t j) same)))
  Processed-Failed msg before after e (inr (inl (at, moved))) =
      inl (λ j. rw moved (refl, status-processing msg at before j))
  Processed-Failed msg before after e (inr (inr (lost, done))) =
      inr (lost, Processed-Paid msg before after done)

  -- A run of `processTransaction` is all or nothing for the balances. Without an error the user of
  -- the message has been paid once, the transaction is completed, and every other balance and
  -- status is as before. With an error no balance has changed, nor any status but perhaps that of
  -- the message's transaction, which is then "processing"; unless the error is one that a Commit
  -- returned: then all may have been done as without an error.
  pub process_transaction_atomic :
      (msg : TransactionMessage) (w : World sv)
      → let (r, w') = process_transaction sv msg w in
        (r ≡ none → Paid msg (tables w.db) (tables w'.db))
        × ((e : GoError) → r ≡ some e → Failed msg e (tables w.db) (tables w'.db))
  process_transaction_atomic msg w =
      let (r, w') = process_transaction sv msg w in
      let done = process_transaction-Processed sv db msg w in
      (
        λ fine. Processed-Paid msg (tables w.db) (tables w'.db) (
            subst (λ (o : Option GoError). Processed sv db msg (tables w.db) o (tables w'.db)) fine
              done),
        λ e bad. Processed-Failed msg (tables w.db) (tables w'.db) e (
            subst (λ (o : Option GoError). Processed sv db msg (tables w.db) o (tables w'.db)) bad
              done),
      )
