-- ===== src/Routes/Passing.antt =====
-- The two ways of a request through the middleware: refused by the limiter, or on to its route.
use mathlib.Core.Path.{subst}
use exploding_user_data_scal.Prelude.{◌≡◌, refl, ap, List, [], ◌⊎◌, inl, inr, arith, Bool-cases}
use exploding_user_data_scal.Services.{Services}
use exploding_user_data_scal.Tables.Payments.{Payment}
use exploding_user_data_scal.Services.Action.{World}
use exploding_user_data_scal.Services.Laws.{DbLaws, BrokerLaws, BreakerLaws}
use exploding_user_data_scal.Middleware.RateLimit.{Rates, get_limiter, rate_limit}
use exploding_user_data_scal.Middleware.RequestContext.{begin_request, request_context}
use exploding_user_data_scal.Middleware.Logger.{report, logger}
use exploding_user_data_scal.Server.{Request, Web, WebLaws, Server}
use exploding_user_data_scal.Routes.{endpoint, limited, serve}
use exploding_user_data_scal.Routes.Refusals.{begin_request-Untouched}
use exploding_user_data_scal.Routes.Payments.{Paying, Paying-ne, Moved, same-Moved, endpoint-Moved}

module _ (sv : Services) (web : Web sv) (rates : Rates sv) (req : Request sv.Bytes)
    (s : Server sv rates) where
  -- The route of the request, from the state that it finds, or no change of the rows.
  pub serve_cases :
      let (answer, s') = serve sv web rates req s in
      let trace_id = (begin_request sv web req.trace_header s.world).0 in
      ((answer.code ≡ 429) × (s'.world.db ≡ s.world.db) × (s'.world.broker ≡ s.world.broker))
      ⊎ ((w : World sv) × (w.db ≡ s.world.db)
          × (w.broker ≡ s.world.broker)
          × (answer.code ≡ (endpoint sv web req.route trace_id req.body w).0.code)
          × (s'.world.db ≡ (endpoint sv web req.route trace_id req.body w).1.db)
          × (s'.world.broker ≡ (endpoint sv web req.route trace_id req.body w).1.broker))
  unfolding serve request_context logger report limited rate_limit
  serve_cases =
      let (trace_id, w0) = begin_request sv web req.trace_header s.world in
      let (r, d, b, k) = begin_request-Untouched sv web rates req.trace_header s.world in
      let (a, s1, h1) = get_limiter sv rates req.client_ip s.limiters (sv.now w0.host).1 in
      let (allowed, l, h2) = rates.allow (s1.heap a) h1 in
      elim (Bool-cases allowed) [
        | inl yes_token ↦ rw yes_token (inr (record w0 { host = h2 }, d, b, refl, refl, refl))
        | inr no_token ↦ rw no_token (inl (refl, d, b))
      ]

  -- What a request does to the balances: the payment of a call of CreateTransactionV0 that is
  -- answered by 200, perhaps that of one answered by 500, and nothing else.
  pub serve-Moved :
      (db : DbLaws sv)
      → BreakerLaws sv
      → BrokerLaws sv
      → WebLaws sv web
      → let (answer, s') = serve sv web rates req s in
        (ps : List Payment) × Paying req.route answer.code (sv.decode_create req.body) ps
        × Moved sv db ps (db.tables s.world.db) (db.tables s'.world.db)
  serve-Moved db breaker broker laws = elim serve_cases [
    | inl (code, same, same') ↦ (
      [],
      Paying-ne req.route (serve sv web rates req s).0.code (sv.decode_create req.body)
          (λ e. omega (arith, code, e)),
      same-Moved sv db _ _ (ap db.tables same),
    )
    | inr (w, from, from', code, to, to') ↦
        let trace_id = (begin_request sv web req.trace_header s.world).0 in
        let (inner, w') = endpoint sv web req.route trace_id req.body w in
        let (ps, paying, moved) =
          endpoint-Moved sv db breaker web laws broker req.route trace_id req.body w in
        (
          ps,
          rw code paying,
          rw to (subst (λ (d : sv.Db). Moved sv db ps (db.tables d) (db.tables w'.db)) from moved),
        )
  ]
