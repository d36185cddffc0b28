-- ===== src/Routes/Payments.antt =====
-- What the requests at the server do to the balances.
use mathlib.Core.Option as Opt
use exploding_user_data_scal.Prelude.{
  ℕ, String, ◌≡◌, ◌≢◌, ◌⊎◌, refl, sym, ap, ◌∙◌, inl, inr, List, [], ◌∷◌, eqb, arith, if◌then◌else◌,
}
use exploding_user_data_scal.Values.{Result, ok, err, Time, CreateTransactionRequest}
use exploding_user_data_scal.Services.{Services}
use exploding_user_data_scal.Services.Action.{World, Action, breaker_state}
use exploding_user_data_scal.Services.Laws.{DbLaws, BrokerLaws, BreakerLaws}
use exploding_user_data_scal.Tables.{Tables}
use exploding_user_data_scal.Tables.Ledger.{balance_of, payment, balance-adjust}
use exploding_user_data_scal.Tables.Payments.{
  Payment, of_request, pay_all, map-pay_nil, map-pay_one,
}
use exploding_user_data_scal.Handler.{Response}
use exploding_user_data_scal.Handler.CreateTransaction.{create_transaction}
use exploding_user_data_scal.Handler.CreateTransaction.Created.{
  handled, rejected, Made, made, refused, reply_lost, create_transaction-Created,
}
use exploding_user_data_scal.Handler.GetTransaction.{get_transaction}
use exploding_user_data_scal.Handler.GetUserBalance.{get_user_balance}
use exploding_user_data_scal.Handler.Baseline.{create_transaction_v0}
use exploding_user_data_scal.Handler.Baseline.Effects as V0
use exploding_user_data_scal.Middleware.CircuitBreaker.Gate.{
  Gated, in_test, passed, stopped, circuit_breaker-Gated,
}
use exploding_user_data_scal.Server.{
  Route, get_health, get_metrics, post_transactions, post_transactions_v0, unrouted,
  get_transactions, get_users_balance, get_transactions_v0, get_users_balance_v0, Web, WebLaws,
}
use exploding_user_data_scal.Routes.{endpoint}
use exploding_user_data_scal.Routes.Unpaid.{
  get_transaction-KeepsTables, get_user_balance-KeepsTables, get_transaction_v0-KeepsTables,
  get_user_balance_v0-KeepsTables, health_check-KeepsTables,
}

-- The payment of a call of CreateTransactionV0, by its code and its body.
abbrev pub paid_by_code : ℕ → Result CreateTransactionRequest → List Payment
paid_by_code code (err e) = []
paid_by_code code (ok req) = if eqb code 200 then of_request req ∷ [] else []

-- The payment of a request, by its route.
abbrev pub paid_on : Route → ℕ → Result CreateTransactionRequest → List Payment
paid_on post_transactions_v0 code decoded = paid_by_code code decoded
paid_on other code decoded = []

paid_by_code_ne :
    (code : ℕ) (r : Result CreateTransactionRequest) → code ≢ 200 → paid_by_code code r ≡ []
paid_by_code_ne code (err e) h = refl
paid_by_code_ne code (ok req) h = ground arith

-- What a request may have paid: `paid_on`, or, where a call of CreateTransactionV0 is answered by
-- 500, perhaps its payment.
abbrev pub PayingCode : ℕ → Result CreateTransactionRequest → List Payment → Type 0
PayingCode code (err e) ps = ps ≡ []
PayingCode code (ok req) ps =
    (ps ≡ paid_by_code code (ok req)) ⊎ ((code ≡ 500) × (ps ≡ of_request req ∷ []))

abbrev pub Paying : Route → ℕ → Result CreateTransactionRequest → List Payment → Type 0
Paying post_transactions_v0 code decoded ps = PayingCode code decoded ps
Paying other code decoded ps = ps ≡ []

PayingCode-ne : (code : ℕ) (r : Result CreateTransactionRequest) → code ≢ 200 → PayingCode code r []
PayingCode-ne code (err e) h = refl
PayingCode-ne code (ok req) h = inl (sym (paid_by_code_ne code (ok req) h))

-- Only an answer with code 200 or 500 pays.
pub Paying-ne :
    (route : Route) (code : ℕ) (r : Result CreateTransactionRequest)
    → code ≢ 200
    → Paying route code r []
Paying-ne post_transactions_v0 code r h = PayingCode-ne code r h
Paying-ne other code r h = refl

module _ (sv : Services) (db : DbLaws sv) where
  open db use {columns, tables}

  -- The balances have moved by these payments.
  abbrev pub Moved : List Payment → Tables → Tables → Type 0
  Moved ps before after =
      (j : String) → balance_of after j ≡ Opt.map (pay_all columns j ps) (balance_of before j)

  pub same-Moved : (before after : Tables) → after ≡ before → Moved [] before after
  same-Moved before after e j =
      ap (λ t. balance_of t j) e ∙ sym (map-pay_nil columns j (balance_of before j))

module _ (sv : Services) (db : DbLaws sv) (breaker : BreakerLaws sv) where
  open db use {columns, tables}

  Made-Moved :
      (t : String) (broker : BrokerLaws sv) (req : CreateTransactionRequest) (before : Tables)
      (queue : sv.Broker) (answer : Response) (w' : World sv)
      → Made sv t db broker breaker req before queue answer w'
      → Moved sv db [] before (tables w'.db)
  Made-Moved t broker req before queue answer w' (refused code rows same) j =
      same-Moved sv db before (tables w'.db) rows j
  Made-Moved t broker req before queue answer w' (made id ref at code rows queued) j =
      ap (λ x. balance_of x j) rows ∙ sym (map-pay_nil columns j (balance_of before j))
  Made-Moved t broker req before queue answer w' (reply_lost id ref at code rows same) j =
      ap (λ x. balance_of x j) rows ∙ sym (map-pay_nil columns j (balance_of before j))

  create_transaction-Moved :
      (t : String) (broker : BrokerLaws sv) (body : sv.Bytes) (w : World sv)
      → Moved sv db [] (tables w.db) (tables (create_transaction sv t body w).1.db)
  create_transaction-Moved t broker body w =
      elim (create_transaction-Created sv t db broker breaker body w) [
        | handled req decoded valid active done ↦ Made-Moved t broker req _ _ _ _ done
        | rejected code rows same ↦ same-Moved sv db _ _ rows
      ]

  with_payment-Moved :
      (t : String) (req : CreateTransactionRequest) (id ref : String) (at : Time)
      (before after : Tables)
      → after ≡ V0.with_payment sv t db req id ref at before
      → Moved sv db (of_request req ∷ []) before after
  with_payment-Moved t req id ref at before after moved j =
      ap (λ x. balance_of x j) moved
      ∙ balance-adjust (payment columns req.type req.amount) (columns.canonical req.user_id) j
          before.users
      ∙ sym (map-pay_one columns j (of_request req) (balance_of before j))

  -- What a call of CreateTransactionV0 does to the balances.
  V0Moved : sv.Bytes → Tables → Response → Tables → Type 0
  V0Moved body before answer after =
      (ps : List Payment) × PayingCode answer.code (sv.decode_create body) ps
      × Moved sv db ps before after

  V0-Moved :
      (t : String) (body : sv.Bytes) (before after : Tables) (answer : Response)
      → V0.Created sv t db body before answer after
      → V0Moved body before answer after
  unfolding V0Moved
  V0-Moved t body before after answer (inr (other, same)) =
      ([], PayingCode-ne answer.code _ other, same-Moved sv db before after same)
  V0-Moved t body before after answer (inl (req, decoded, V0.refused other same)) =
      ([], PayingCode-ne answer.code _ other, same-Moved sv db before after same)
  V0-Moved t body before after answer (inl (req, decoded, V0.paid id ref at said moved)) = (
    of_request req ∷ [],
    rw (decoded, ap (λ (a : Response). a.code) said) (inl refl),
    with_payment-Moved t req id ref at before after moved,
  )
  V0-Moved t body before after answer (inl (req, decoded, V0.reply_lost id ref at code moved)) = (
    of_request req ∷ [],
    rw decoded (inr (code, refl)),
    with_payment-Moved t req id ref at before after moved,
  )

  create_transaction_v0-Moved :
      (t : String) (body : sv.Bytes) (w : World sv)
      → let (answer, w') = create_transaction_v0 sv t body w in
        V0Moved body (tables w.db) answer (tables w'.db)
  create_transaction_v0-Moved t body w =
      V0-Moved t body (tables w.db) (tables (create_transaction_v0 sv t body w).1.db)
        (create_transaction_v0 sv t body w).0 (V0.create_transaction_v0-Created sv t db body w)

  -- The circuit breaker moves no row by itself.
  Gated-Moved :
      (t : String) (rest : Action sv Response) (w : World sv) (r : Response × World sv)
      → ((v : World sv) → Moved sv db [] (tables v.db) (tables (rest v).1.db))
      → Gated sv t rest w r
      → Moved sv db [] (tables w.db) (tables r.1.db)
  Gated-Moved t rest w r moves (in_test test) = moves w
  Gated-Moved t rest w r moves (passed works) = moves (breaker_state sv w).1
  Gated-Moved t rest w r moves (stopped broken) = same-Moved sv db (tables w.db) (tables w.db) refl

  module _ (web : Web sv) (laws : WebLaws sv web) (broker : BrokerLaws sv) where
    -- What a route's handlers do to the balances.
    pub endpoint-Moved :
        (route : Route) (t : String) (body : sv.Bytes) (w : World sv)
        → let (answer, w') = endpoint sv web route t body w in
          (ps : List Payment) × Paying route answer.code (sv.decode_create body) ps
          × Moved sv db ps (tables w.db) (tables w'.db)
    unfolding endpoint V0Moved
    endpoint-Moved get_health t body w =
        ([], refl, same-Moved sv db _ _ (health_check-KeepsTables sv db breaker t w))
    endpoint-Moved get_metrics t body w = (
      [],
      refl,
      same-Moved sv db _ _ (ap (λ (v : World sv). tables v.db) (laws.metrics_page-world w)),
    )
    endpoint-Moved post_transactions t body w = (
      [],
      refl,
      Gated-Moved t _ w _ (create_transaction-Moved t broker body)
          (circuit_breaker-Gated sv t (create_transaction sv t body) w),
    )
    endpoint-Moved (get_transactions id) t body w = (
      [],
      refl,
      Gated-Moved t _ w _
          (λ v. same-Moved sv db _ _ (get_transaction-KeepsTables sv db breaker t id v))
          (circuit_breaker-Gated sv t (get_transaction sv t id) w),
    )
    endpoint-Moved (get_users_balance id) t body w = (
      [],
      refl,
      Gated-Moved t _ w _
          (λ v. same-Moved sv db _ _ (get_user_balance-KeepsTables sv db breaker t id v))
          (circuit_breaker-Gated sv t (get_user_balance sv t id) w),
    )
    endpoint-Moved post_transactions_v0 t body w = create_transaction_v0-Moved t body w
    endpoint-Moved (get_transactions_v0 id) t body w =
        ([], refl, same-Moved sv db _ _ (get_transaction_v0-KeepsTables sv db breaker t id w))
    endpoint-Moved (get_users_balance_v0 id) t body w =
        ([], refl, same-Moved sv db _ _ (get_user_balance_v0-KeepsTables sv db breaker t id w))
    endpoint-Moved unrouted t body w = ([], refl, same-Moved sv db (tables w.db) (tables w.db) refl)
