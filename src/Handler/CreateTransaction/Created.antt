-- ===== src/Handler/CreateTransaction/Created.antt =====
-- What CreateTransaction has written and sent, by what it answers.
use mathlib.Core.Path.{subst, subst₂}
use exploding_user_data_scal.Prelude.{
  String, Bool, true, ◌≡◌, ◌≢◌, refl, ap, ◌∙◌, ◌⊎◌, inl, inr, ◌∷◌, Option, none, some, arith,
  Bool-cases,
}
use exploding_user_data_scal.Values.{GoError, Result, ok, err, Time, CreateTransactionRequest}
use exploding_user_data_scal.Services.{Services}
use exploding_user_data_scal.Services.Sql.{insert_pending, user_active, read}
use exploding_user_data_scal.Services.Action.{World}
use exploding_user_data_scal.Services.Laws.{DbLaws, BrokerLaws, BreakerLaws, Attempted}
use exploding_user_data_scal.Tables.{Tables, Transaction, apply}
use exploding_user_data_scal.Handler.{Response}
use exploding_user_data_scal.Handler.CreateTransaction.{
  validate, exists, nil_or, reference, new_transaction, find_duplicate, remember, enqueue,
  after_insert, insert, create_new, unless_duplicate, create_active, create_bound,
  create_transaction,
}
use exploding_user_data_scal.Handler.CreateTransaction.Valid.{Valid, validate-Valid}
use exploding_user_data_scal.Handler.CreateTransaction.Queued.{
  Queued, taken, dropped, warned, bind-cases, remember-db, find_duplicate-db, enqueue-Queued,
}

module _ (sv : Services) (trace_id : String) (db : DbLaws sv) (broker : BrokerLaws sv)
    (breaker : BreakerLaws sv) where
  open db use {columns, tables}

  -- The row of a request.
  abbrev pub pending_row : CreateTransactionRequest → String → String → Time → Transaction
  pending_row req id ref at = record {
    id = columns.canonical id;
    user_id = columns.canonical req.user_id;
    type = req.type;
    amount = columns.cents req.amount;
    status = "pending";
    reference_id = some ref;
    description = some req.description;
    created_at = at;
    updated_at = at;
  }

  -- The tables with it.
  abbrev pub with_row : CreateTransactionRequest → String → String → Time → Tables → Tables
  with_row req id ref at before = record {
    users = before.users;
    transactions = pending_row req id ref at ∷ before.transactions;
  }

  -- What a request has done, from these rows and this queue: with code 202 one pending row, the
  -- request's, under the id that the answer names, and the message as `Queued` says; with any
  -- other code nothing, but for 500, where the row may be there if the reply of the INSERT was
  -- lost.
  pub data Made (req : CreateTransactionRequest) (before : Tables) (queue : sv.Broker)
      (answer : Response) (w' : World sv) : Type 0 where
    made :
        (id ref : String) (at : Time)
        → answer.code ≡ 202
        → tables w'.db ≡ with_row req id ref at before
        → Queued sv trace_id broker req id ref answer queue w'.broker
        → Made req before queue answer w'
    refused :
        answer.code ≢ 202
        → tables w'.db ≡ before
        → w'.broker ≡ queue
        → Made req before queue answer w'
    reply_lost :
        (id ref : String) (at : Time)
        → answer.code ≡ 500
        → tables w'.db ≡ with_row req id ref at before
        → w'.broker ≡ queue
        → Made req before queue answer w'

  Queued-code :
      (req : CreateTransactionRequest) (id ref : String) (answer : Response) (b b' : sv.Broker)
      → Queued sv trace_id broker req id ref answer b b'
      → answer.code ≡ 202
  Queued-code req id ref answer b b' (taken said sent) = ap (λ (r : Response). r.code) said
  Queued-code req id ref answer b b' (dropped said full same) = ap (λ (r : Response). r.code) said
  Queued-code req id ref answer b b' (warned said sent) = ap (λ (r : Response). r.code) said

  -- The rows after the INSERT in the breaker, by its result.
  abbrev Inserted : Result (Unit {0}) → Tables → Tables → Tables → Type 0
  Inserted (ok done) after before now = now ≡ after
  Inserted (err e) after before now = (now ≡ after) ⊎ (now ≡ before)

  Attempted-Inserted :
      (o : Option GoError) (after before now : Tables)
      → Attempted o after before now
      → Inserted (nil_or o) after before now
  Attempted-Inserted none after before now h = h
  Attempted-Inserted (some e) after before now h = h

  after_insert-Made :
      (req : CreateTransactionRequest) (id ref : String) (at : Time) (inserted : Result (Unit {0}))
      (before : Tables) (w : World sv)
      → Inserted inserted (with_row req id ref at before) before (tables w.db)
      → let (answer, w') = after_insert sv trace_id req id ref inserted w in
        Made req before w.broker answer w'
  after_insert-Made req id ref at (err e) before w (inl row) = reply_lost id ref at refl row refl
  after_insert-Made req id ref at (err e) before w (inr none_of) =
      refused (omega arith) none_of refl
  after_insert-Made req id ref at (ok done) before w h =
      let w1 = (remember sv trace_id req id w).1 in
      let (answer, w2) = enqueue sv trace_id req id ref w1 in
      let same = remember-db sv trace_id req id w in
      let queued = enqueue-Queued sv trace_id broker req id ref w1 in
      made id ref at (Queued-code req id ref answer w1.broker w2.broker queued.1)
        (ap tables (queued.0 ∙ same.0) ∙ h)
        (subst (λ (b : sv.Broker). Queued sv trace_id broker req id ref answer b w2.broker) same.1
          queued.1)

  -- The INSERT in the breaker adds the row if it gives no error.
  insert-rows :
      (req : CreateTransactionRequest) (id ref : String) (w : World sv)
      → let n = new_transaction sv trace_id req id ref in
        let (inserted, w') = insert sv trace_id n w in
        Inserted inserted
          (with_row req id ref (db.clock w.db) (tables w.db))
          (tables w.db)
          (tables w'.db)
  insert-rows req id ref w =
      let n = new_transaction sv trace_id req id ref in
      let st = insert_pending n in
      let f : sv.Db → Result (Unit {0}) × sv.Db =
        λ d. let (e, d') = sv.exec st d in (nil_or e, d') in
      elim (breaker.execute_cases (Unit {0}) f w.breaker w.db) [
        | inl (e, plain, rejected, same) ↦ rw rejected (inr (ap tables same))
        | inr (result, moved) ↦ rw result (
            rw moved (
              Attempted-Inserted (sv.exec st w.db).0
                (apply columns (db.clock w.db) st (tables w.db)) (tables w.db) _
                (db.exec-tables st w.db)))
      ]

  pub create_new-Made :
      (req : CreateTransactionRequest) (w : World sv)
      → let (answer, w') = create_new sv trace_id req w in Made req (tables w.db) w.broker answer w'
  unfolding create_new
  create_new-Made req w =
      let (id, h) = sv.uuid w.host in
      let (date, h') = sv.now h in
      let ref = reference (sv.format_date date) id in
      let w1 = record w { host = h' } in
      let (inserted, w2) = insert sv trace_id (new_transaction sv trace_id req id ref) w1 in
      after_insert-Made req id ref (db.clock w.db) inserted (tables w.db) w2
        (insert-rows req id ref w1)

  create_active-Made :
      (req : CreateTransactionRequest) (w : World sv)
      → let (answer, w') = create_active sv trace_id req w in
        Made req (tables w.db) w.broker answer w'
  unfolding create_active
  create_active-Made req w =
      let (seen, w') = find_duplicate sv trace_id req w in
      let same = find_duplicate-db sv trace_id req w in
      unless_duplicate-Made seen w' (ap tables same.0) same.1
    where
      unless_duplicate-Made :
          (seen : Option String) (w' : World sv)
          → tables w'.db ≡ tables w.db
          → w'.broker ≡ w.broker
          → let (answer, w2) = unless_duplicate sv trace_id req seen w' in
            Made req (tables w.db) w.broker answer w2
      unless_duplicate-Made (some id) w' rows queue = refused (omega arith) rows queue
      unless_duplicate-Made none w' rows queue =
          let (answer, w2) = create_new sv trace_id req w' in
          subst₂ (λ (t : Tables) (b : sv.Broker). Made req t b answer w2) rows queue
            (create_new-Made req w')

  -- What a call has done: `Made` for the request of a body that decodes and passes the tags, whose
  -- user the read pool calls active; nothing for any other call.
  pub data Created (body : sv.Bytes) (w : World sv) (answer : Response) (w' : World sv)
      : Type 0 where
    handled :
        (req : CreateTransactionRequest)
        → sv.decode_create body ≡ ok req
        → Valid req
        → (sv.query read (user_active req.user_id) w.db).0 ≡ ok true
        → Made req (tables w.db) w.broker answer w'
        → Created body w answer w'
    rejected :
        (answer.code ≡ 400) ⊎ (answer.code ≡ 422)
        → tables w'.db ≡ tables w.db
        → w'.broker ≡ w.broker
        → Created body w answer w'

  exists_true : (r : Result Bool) → exists r ≡ true → r ≡ ok true
  exists_true (ok b) h = ap ok h
  exists_true (err e) h = cc

  create_bound-Created :
      (body : sv.Bytes) (req : CreateTransactionRequest) (w : World sv)
      → sv.decode_create body ≡ ok req
      → validate req ≡ true
      → let (answer, w') = create_bound sv trace_id req w in Created body w answer w'
  unfolding create_bound
  create_bound-Created body req w decoded valid =
      let q = user_active req.user_id in
      let (found, d) = sv.query read q w.db in
      let w1 = record w { db = d } in
      let same = db.query-tables read q w.db in
      elim (Bool-cases (exists found)) [
        | inl active ↦
            let (answer, w') = create_active sv trace_id req w1 in
            rw active (
              handled req decoded (validate-Valid req valid) (exists_true found active) (
                subst (λ (t : Tables). Made req t w.broker answer w') same
                  (create_active-Made req w1)))
        | inr unknown ↦ rw unknown (rejected (inr refl) same refl)
      ]

  pub create_transaction-Created :
      (body : sv.Bytes) (w : World sv)
      → let (answer, w') = create_transaction sv trace_id body w in Created body w answer w'
  unfolding create_transaction
  create_transaction-Created body w = elim (bind-cases sv body) [
    | inl (req, bound, decoded, valid) ↦ rw bound (create_bound-Created body req w decoded valid)
    | inr (e, bad) ↦ rw bad (rejected (inl refl) refl refl)
  ]
