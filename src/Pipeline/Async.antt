-- ===== src/Pipeline/Async.antt =====
-- POST /transactions and the consumer of its message, against the specification of an executed
-- request.
use mathlib.Core.Option as Opt
use mathlib.Core.Path.{subst}
use mathlib.Core.List.{append_cancel_left}
use exploding_user_data_scal.Prelude.{
  ℕ, String, Bool, true, false, ◌≡◌, ◌≢◌, sym, ap, ◌∙◌, ◌⊎◌, inl, inr, List, [], ◌∷◌, ◌++◌, Option,
  some, arith, ◌==◌, if◌then◌else◌, length, length-append,
}
use exploding_user_data_scal.Values.{
  GoError, ok, ok-injective, err, Time, CreateTransactionRequest, message,
}
use exploding_user_data_scal.Queue.{Delivery, consume}
use exploding_user_data_scal.Services.{Services, Publishing}
use exploding_user_data_scal.Services.Sql.{insert_pending}
use exploding_user_data_scal.Services.Action.{World}
use exploding_user_data_scal.Services.Laws.{DbLaws, BrokerLaws, BreakerLaws, JsonLaws}
use exploding_user_data_scal.Tables.{Tables, apply}
use exploding_user_data_scal.Tables.Ledger.{balance_of, status_of, status-insert}
use exploding_user_data_scal.Handler.{Response}
use exploding_user_data_scal.Handler.CreateTransaction.{
  new_transaction, new_message, create_transaction, accepted, queue_unavailable,
}
use exploding_user_data_scal.Handler.CreateTransaction.Queued.{Sent, Queued, taken, dropped, warned}
use exploding_user_data_scal.Handler.CreateTransaction.Created.{
  with_row, reply_lost, made, refused, Created, handled, rejected, create_transaction-Created,
}
use exploding_user_data_scal.Worker.{process_transaction}
use exploding_user_data_scal.Worker.Effects.{CommitFailed}
use exploding_user_data_scal.Worker.Ledger.{Paid}
use exploding_user_data_scal.Worker.Consumer.{
  Settled, discarded, acknowledged, requeued, paid_requeued, consume-Settled,
}
use exploding_user_data_scal.Pipeline.{Executed}

-- A status that was set to "completed" after it was set to "pending".
completes :
    (b : Bool) (o o' before : Option String)
    → o' ≡ (if b then Opt.map (λ _. "completed") o else o)
    → o ≡ (if b then some "pending" else before)
    → o' ≡ (if b then some "completed" else before)
completes true o o' before h k = h ∙ ap (Opt.map (λ _. "completed")) k
completes false o o' before h k = h ∙ k

ok-ne-err {ℓ} : {A : Type ℓ} {a : A} {e : GoError} → ok a ≢ err e
ok-ne-err h = cc

single-injective {ℓ} : {A : Type ℓ} {a b : A} → a ∷ [] ≡ b ∷ [] → a ≡ b
single-injective e = cc

-- A list is not itself with one element more.
append_ne {ℓ} : {A : Type ℓ} (xs : List A) (a : A) → xs ≢ xs ++ (a ∷ [])
append_ne xs a e = omega (arith, ap length e, length-append xs (a ∷ []))

module _ (sv : Services) (trace_id : String) (db : DbLaws sv) (broker : BrokerLaws sv)
    (breaker : BreakerLaws sv) (json : JsonLaws sv) where
  open db use {columns, tables}
  open broker use {messages}

  -- How the message of an accepted request ends at the consumer, from the state before the
  -- request, by the id in the answer: acknowledged, with the request executed; back in the
  -- queue, with no balance changed; or back in the queue, with the request executed, after an
  -- error of a Commit.
  abbrev pub Consumed :
      CreateTransactionRequest → String → Tables → ℕ → World sv → World sv → Type 0
  Consumed req id before tag w1 w2 =
      ((w2.broker ≡ sv.ack tag w1.broker) × Executed columns req id before (tables w2.db))
      ⊎ ((w2.broker ≡ sv.nack tag true w1.broker)
          × ((j : String) → balance_of (tables w2.db) j ≡ balance_of before j))
      ⊎ ((w2.broker ≡ sv.nack tag true w1.broker)
          × ((e : GoError) × CommitFailed sv db e)
          × Executed columns req id before (tables w2.db))

  Paid-Executed :
      (req : CreateTransactionRequest) (id ref : String) (at at' : Time)
      (before middle after : Tables)
      → middle ≡ apply columns at (insert_pending (new_transaction sv trace_id req id ref)) before
      → Paid sv db (new_message sv trace_id req id at') middle after
      → Executed columns req id before after
  Paid-Executed req id ref at at' before middle after inserted paid j =
      let n = new_transaction sv trace_id req id ref in
      let status =
        ap (λ (t : Tables). status_of t j) inserted
        ∙ status-insert columns at "pending" n before.transactions j in
      let same = ap (λ (t : Tables). balance_of t j) inserted in
      (rw (← same) (paid j).0, completes (j == columns.canonical id) _ _ _ (paid j).1 status)

  -- The message of an accepted request, after the request, at the consumer.
  message-Consumed :
      (req : CreateTransactionRequest) (id ref : String) (at at' sent : Time) (b : sv.Bytes)
      (tag : ℕ) (before : Tables) (w1 : World sv)
      → sv.marshal message (new_message sv trace_id req id at') ≡ ok b
      → tables w1.db
        ≡ apply columns at (insert_pending (new_transaction sv trace_id req id ref)) before
      → Consumed req id before tag w1
          (consume sv (process_transaction sv) (record { tag = tag; body = b }) w1).1
  message-Consumed req id ref at at' sent b tag before w1 marshalled inserted =
      by_end (consume-Settled sv db d w1)
    where
      d : Delivery sv
      d = record { tag = tag; body = b }

      decoded : sv.unmarshal message b ≡ ok (new_message sv trace_id req id at')
      decoded = json.unmarshal-marshal message (new_message sv trace_id req id at') b marshalled

      by_end : {w2 : World sv} → Settled sv db d w1 w2 → Consumed req id before tag w1 w2
      by_end (discarded e bad queue rows) = absurd (ok-ne-err (sym decoded ∙ bad))
      by_end {w2} (acknowledged msg good queue fine paid) = inl (
        queue,
        Paid-Executed req id ref at at' before (tables w1.db) (tables w2.db) inserted (
            subst (λ m. Paid sv db m (tables w1.db) (tables w2.db))
              (ok-injective (sym good ∙ decoded)) paid),
      )
      by_end (requeued msg e good queue failed unpaid) =
          inr (inl (queue, λ j. (unpaid j).0 ∙ ap (λ (t : Tables). balance_of t j) inserted))
      by_end {w2} (paid_requeued msg e good queue lost failed paid) = inr (
          inr (
            queue,
            (e, lost),
            Paid-Executed req id ref at at' before (tables w1.db) (tables w2.db) inserted (
                subst (λ m. Paid sv db m (tables w1.db) (tables w2.db))
                  (ok-injective (sym good ∙ decoded)) paid),
          ))

  -- POST /transactions with code 202, whose message the queue has taken, and then the consumer on
  -- that message, in one of three ways. The request is executed under the id of the answer, as POST
  -- /v0/transactions would, and the message is acknowledged. Or the message is back in the queue and
  -- no balance has changed since before the request. Or a Commit returned an error after it had its
  -- effect: the request is executed and the message is back in the queue.
  pub create_transaction-Consumed :
      (body : sv.Bytes) (w : World sv) (p : Publishing sv.Bytes) (tag : ℕ)
      → let (answer, w1) = create_transaction sv trace_id body w in
        answer.code ≡ 202
        → messages w1.broker ≡ messages w.broker ++ (p ∷ [])
        → (req : CreateTransactionRequest) × (id : String) × (ref : String) × (sv.decode_create body
            ≡ ok req)
          × ((answer ≡ accepted sv trace_id id ref)
              ⊎ (answer ≡ queue_unavailable sv trace_id id ref))
          × Consumed req id
              (tables w.db)
              tag
              w1
              (consume sv (process_transaction sv) (record { tag = tag; body = p.body }) w1).1
  create_transaction-Consumed body w p tag success queued =
      from_Created (create_transaction-Created sv trace_id db broker breaker body w) success queued
    where
      from_Sent :
          (req : CreateTransactionRequest) (id ref : String) (at : Time) (w1 : World sv)
          → tables w1.db ≡ with_row sv trace_id db broker breaker req id ref at (tables w.db)
          → Sent sv trace_id broker req id w.broker w1.broker
          → messages w1.broker ≡ messages w.broker ++ (p ∷ [])
          → Consumed req id
              (tables w.db)
              tag
              w1
              (consume sv (process_transaction sv) (record { tag = tag; body = p.body }) w1).1
      from_Sent req id ref at w1 rows (at', sent, b, marshalled, sent_one) more =
          let same =
            single-injective (append_cancel_left (messages w.broker) _ _ (sym more ∙ sent_one)) in
          message-Consumed req id ref at at' sent p.body tag (tables w.db) w1
            (rw (ap (λ (q : Publishing sv.Bytes). q.body) same) marshalled) rows

      from_Queued :
          (req : CreateTransactionRequest) (id ref : String) (at : Time) {answer : Response}
          (w1 : World sv)
          → tables w1.db ≡ with_row sv trace_id db broker breaker req id ref at (tables w.db)
          → Queued sv trace_id broker req id ref answer w.broker w1.broker
          → messages w1.broker ≡ messages w.broker ++ (p ∷ [])
          → ((answer ≡ accepted sv trace_id id ref)
              ⊎ (answer ≡ queue_unavailable sv trace_id id ref))
            × Consumed req id
                (tables w.db)
                tag
                w1
                (consume sv (process_transaction sv) (record { tag = tag; body = p.body }) w1).1
      from_Queued req id ref at w1 rows (taken said one_sent) more =
          (inl said, from_Sent req id ref at w1 rows one_sent more)
      from_Queued req id ref at w1 rows (dropped said full none_sent) more =
          absurd (append_ne (messages w.broker) p (sym none_sent ∙ more))
      from_Queued req id ref at w1 rows (warned said (inl one_sent)) more =
          (inr said, from_Sent req id ref at w1 rows one_sent more)
      from_Queued req id ref at w1 rows (warned said (inr none_sent)) more =
          absurd (append_ne (messages w.broker) p (sym none_sent ∙ more))

      from_Created :
          {answer : Response} {w1 : World sv}
          → Created sv trace_id db broker breaker body w answer w1
          → answer.code ≡ 202
          → messages w1.broker ≡ messages w.broker ++ (p ∷ [])
          → (req : CreateTransactionRequest) × (id : String) × (ref : String) × (sv.decode_create
                body
              ≡ ok req)
            × ((answer ≡ accepted sv trace_id id ref)
                ⊎ (answer ≡ queue_unavailable sv trace_id id ref))
            × Consumed req id
                (tables w.db)
                tag
                w1
                (consume sv (process_transaction sv) (record { tag = tag; body = p.body }) w1).1
      from_Created (rejected code rows queue) h more = absurd (omega arith)
      from_Created (handled req decoded valid active (refused other rows queue)) h more =
          absurd (other h)
      from_Created (handled req decoded valid active (reply_lost id ref at code rows same)) h more =
          absurd (omega (arith, code, h))
      from_Created {w1} (handled req decoded valid active (made id ref at code rows queue)) h more =
          let (said, consumed) = from_Queued req id ref at w1 rows queue more in
          (req, id, ref, decoded, said, consumed)
