-- ===== src/Handler/GetTransaction/Versions.antt =====
-- The two versions of the read of a transaction: GET /transactions/:id, behind cache and circuit
-- breaker, and GET /v0/transactions/:id, without either.
use mathlib.Core.Path.{subst}
use exploding_user_data_scal.Prelude.{
  String, ◌≡◌, ◌≢◌, refl, sym, ap, ◌∙◌, ◌∷◌, inl, inr, ◌==◌, arith, Bool-cases, ne_text, is-ne,
}
use exploding_user_data_scal.Values.{Result, ok, err, TransactionResponse}
use exploding_user_data_scal.Services.{Services}
use exploding_user_data_scal.Services.Action.{World}
use exploding_user_data_scal.Services.Laws.{
  DbLaws, ReplicaLaws, BreakerLaws, RedisLaws, JsonLaws, Answers,
}
use exploding_user_data_scal.Services.Laws.Reads.{Answers-ok, Answers-no_rows}
use exploding_user_data_scal.Tables.{Tables}
use exploding_user_data_scal.Handler.{Response, transaction_body, json, str}
use exploding_user_data_scal.Handler.Versions.{
  Agrees, Outcome, row, no_row, failure, Outcome-Agrees, error-Outcome,
}
use exploding_user_data_scal.Handler.GetTransaction.{query_transaction, get_transaction}
use exploding_user_data_scal.Handler.GetTransaction.Coherent.{
  view, query_transaction-Answers, IsCoherent,
}
use exploding_user_data_scal.Handler.GetTransaction.Answers.{
  Shows, shown, unknown, broken, get_transaction-Shows,
}
use exploding_user_data_scal.Handler.Baseline.{
  get_transaction_v0, lookup_error, uncached, version, server_error,
}

abbrev pub SameBody : Response → Response → Type 0
SameBody a b = a.body ≡ b.body

abbrev HasBody : TransactionResponse → Response → Type 0
HasBody txn a = a.body ≡ transaction_body txn

module _ (sv : Services) (trace_id : String) (db : DbLaws sv) where
  -- The answer of the baseline by what the query found.
  abbrev answer_v0 : Result TransactionResponse → Response
  answer_v0 found = elim found [
    | err e ↦ lookup_error sv trace_id "transaction not found" "failed to fetch transaction" e
    | ok txn ↦ record { code = 200; headers = uncached sv trace_id; body = transaction_body txn }
  ]

  answer_v0-Outcome :
      (current found : Result TransactionResponse)
      → Answers found current
      → Outcome current HasBody (answer_v0 found)
  answer_v0-Outcome current (ok txn) answers = row txn (Answers-ok txn current answers) refl refl
  answer_v0-Outcome current (err e) answers =
      error-Outcome current HasBody e
        (json 404 (("error", str "transaction not found") ∷ version sv trace_id))
        (server_error sv trace_id "failed to fetch transaction") (Answers-no_rows e current answers)
        refl refl

  get_transaction_v0-Outcome :
      ReplicaLaws sv db
      → (id : String) (w : World sv) → id ≢ ""
      → Outcome (view sv db (db.tables w.db) id) HasBody (get_transaction_v0 sv trace_id id w).0
  unfolding get_transaction_v0
  get_transaction_v0-Outcome replica id w named = rw (is-ne id "" named) (
      answer_v0-Outcome (view sv db (db.tables w.db) id) (query_transaction sv id w.db).0
        (query_transaction-Answers sv db replica id w.db))

module _ (sv : Services) (trace_id : String) (db : DbLaws sv) (replica : ReplicaLaws sv db)
    (breaker : BreakerLaws sv) (redis : RedisLaws sv) (json : JsonLaws sv) where
  Shows-Outcome :
      (t : Tables) (id : String) (a : Response)
      → Shows sv trace_id db replica breaker redis json t id a
      → Outcome (view sv db t id) HasBody a
  Shows-Outcome t id a (broken h) = failure h
  Shows-Outcome t id a (unknown v h) = no_row v h
  Shows-Outcome t id a (shown cached txn v e) =
      row txn v (ap (λ (x : Response). x.code) e) (ap (λ (x : Response). x.body) e)

  -- While the read pool answers by the tables and every cached transaction is the one in the
  -- tables, GET /transactions/:id and GET /v0/transactions/:id, in states that have the same rows,
  -- agree: they answer with the same code, and at 200 with the same body, unless one of the two
  -- answers 500.
  pub get_transaction-Agrees :
      (id : String) (w w0 : World sv)
      → IsCoherent sv db redis json w.redis (db.tables w.db)
      → db.tables w0.db ≡ db.tables w.db
      → Agrees SameBody
          (get_transaction sv trace_id id w).0
          (get_transaction_v0 sv trace_id id w0).0
  unfolding get_transaction get_transaction_v0
  get_transaction-Agrees id w w0 h same = elim (Bool-cases (id == "")) [
    | inl empty ↦ rw empty (inr (inr (refl, λ found. ground arith)))
    | inr other ↦
        let named = ne_text id "" other in
        let a = (get_transaction sv trace_id id w).0 in
        let b = (get_transaction_v0 sv trace_id id w0).0 in
        Outcome-Agrees (view sv db (db.tables w.db) id) HasBody HasBody SameBody a b
          (λ txn here there. here ∙ sym there)
          (Shows-Outcome (db.tables w.db) id a
            (get_transaction-Shows sv trace_id db replica breaker redis json id w named h).0)
          (subst (λ (t : Tables). Outcome (view sv db t id) HasBody b) same
            (get_transaction_v0-Outcome sv trace_id db replica id w0 named))
  ]
