-- ===== src/Handler/GetUserBalance/Versions.antt =====
-- The two versions of the read of a balance: GET /users/:id/balance, behind cache and circuit
-- breaker, and GET /v0/users/:id/balance, without either.
use mathlib.Core.Path.{subst}
use exploding_user_data_scal.Prelude.{
  String, ◌≡◌, ◌≢◌, refl, sym, ap, ◌∙◌, ◌∷◌, inl, inr, ◌==◌, arith, Bool-cases, ne_text, is-ne,
}
use exploding_user_data_scal.Values.{Result, ok, err, UserBalanceResponse}
use exploding_user_data_scal.Services.{Services}
use exploding_user_data_scal.Services.Action.{World, Action, pure, ◌>>=◌, on_host}
use exploding_user_data_scal.Services.Laws.{
  DbLaws, ReplicaLaws, BreakerLaws, RedisLaws, JsonLaws, Answers,
}
use exploding_user_data_scal.Services.Laws.Reads.{Answers-ok, Answers-no_rows}
use exploding_user_data_scal.Tables.{Tables, find_user}
use exploding_user_data_scal.Handler.{Response, user_balance_body, json, str}
use exploding_user_data_scal.Handler.Versions.{
  Agrees, Outcome, row, no_row, failure, Outcome-Agrees, error-Outcome,
}
use exploding_user_data_scal.Handler.GetUserBalance.{query_user_balance, get_user_balance}
use exploding_user_data_scal.Handler.GetUserBalance.Answers.{
  unstamped, unstamped_row, view, query_user_balance-Answers, IsCoherent, Shows, shown, unknown,
  broken, get_user_balance-Shows,
}
use exploding_user_data_scal.Handler.Baseline.{
  get_user_balance_v0, lookup_error, uncached, version, server_error,
}

-- The body of a row, with any time at which it was fetched.
abbrev HasRow : UserBalanceResponse → Response → Type 0
HasRow v a = (resp : UserBalanceResponse) × (unstamped resp ≡ v) × (a.body ≡ user_balance_body resp)

-- The bodies of two rows that differ in nothing but the time at which they were fetched.
abbrev pub SameRow : Response → Response → Type 0
SameRow a b =
    (here : UserBalanceResponse) × (there : UserBalanceResponse) × (a.body ≡ user_balance_body here)
    × (b.body ≡ user_balance_body there)
    × (unstamped here ≡ unstamped there)

module _ (sv : Services) (trace_id : String) (db : DbLaws sv) (replica : ReplicaLaws sv db)
    (breaker : BreakerLaws sv) (redis : RedisLaws sv) (json_laws : JsonLaws sv) where
  Shows-Outcome :
      (t : Tables) (id : String) (a : Response)
      → Shows sv trace_id db replica breaker redis json_laws t id a
      → Outcome (view sv db t id) HasRow a
  Shows-Outcome t id a (broken h) = failure h
  Shows-Outcome t id a (unknown v h) = no_row v h
  Shows-Outcome t id a (shown cached resp v e) =
      row (unstamped resp) v (ap (λ (x : Response). x.code) e)
        (resp, refl, ap (λ (x : Response). x.body) e)

  -- The answer of the baseline by what the query found.
  abbrev answer_v0 : Result UserBalanceResponse → Action sv Response
  answer_v0 found = elim found [
    | err e ↦ pure (lookup_error sv trace_id "user not found" "failed to fetch user balance" e)
    | ok found_row ↦ (do
      at ← on_host sv sv.now
      pure (record {
        code = 200;
        headers = uncached sv trace_id;
        body = user_balance_body (record found_row { fetched_at = at });
      }))
  ]

  answer_v0-Outcome :
      (t : Tables) (id : String) (found : Result UserBalanceResponse) (w : World sv)
      → Answers found (view sv db t id)
      → Outcome (view sv db t id) HasRow (answer_v0 found w).0
  answer_v0-Outcome t id (ok resp) w answers =
      let at = (sv.now w.host).0 in
      row (unstamped resp)
        (unstamped_row db.columns (find_user (db.columns.canonical id) t.users) resp at
          (Answers-ok resp (view sv db t id) answers))
        refl (record resp { fetched_at = at }, refl, refl)
  answer_v0-Outcome t id (err e) w answers =
      error-Outcome (view sv db t id) HasRow e
        (json 404 (("error", str "user not found") ∷ version sv trace_id))
        (server_error sv trace_id "failed to fetch user balance")
        (Answers-no_rows e (view sv db t id) answers) refl refl

  get_user_balance_v0-Outcome :
      (id : String) (w : World sv)
      → id ≢ ""
      → Outcome (view sv db (db.tables w.db) id) HasRow (get_user_balance_v0 sv trace_id id w).0
  unfolding get_user_balance_v0
  get_user_balance_v0-Outcome id w named = rw (is-ne id "" named) (
      answer_v0-Outcome (db.tables w.db) id (query_user_balance sv id w.db).0
        (record w { db = (query_user_balance sv id w.db).1 })
        (query_user_balance-Answers sv trace_id db replica breaker redis json_laws id w.db))

  -- While the read pool answers by the tables and every cached balance is the one in the tables,
  -- GET /users/:id/balance and GET /v0/users/:id/balance, in states that have the same rows, agree:
  -- they answer with the same code, and at 200 with bodies that differ in nothing but the time at
  -- which the row was fetched, unless one of the two answers 500.
  pub get_user_balance-Agrees :
      (id : String) (w w0 : World sv)
      → IsCoherent sv db redis w.redis (db.tables w.db)
      → db.tables w0.db ≡ db.tables w.db
      → Agrees SameRow
          (get_user_balance sv trace_id id w).0
          (get_user_balance_v0 sv trace_id id w0).0
  unfolding get_user_balance get_user_balance_v0
  get_user_balance-Agrees id w w0 h same = elim (Bool-cases (id == "")) [
    | inl empty ↦ rw empty (inr (inr (refl, λ found. ground arith)))
    | inr other ↦
        let named = ne_text id "" other in
        let a = (get_user_balance sv trace_id id w).0 in
        let b = (get_user_balance_v0 sv trace_id id w0).0 in
        Outcome-Agrees (view sv db (db.tables w.db) id) HasRow HasRow SameRow a b
          (λ v here there. (here.0, there.0, here.2, there.2, here.1 ∙ sym there.1))
          (Shows-Outcome (db.tables w.db) id a
            (get_user_balance-Shows sv trace_id db replica breaker redis json_laws id w named h).0)
          (subst (λ (t : Tables). Outcome (view sv db t id) HasRow b) same
            (get_user_balance_v0-Outcome id w0 named))
  ]
