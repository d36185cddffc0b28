-- ===== src/Handler/GetUserBalance/Answers.antt =====
-- What GET /users/:id/balance answers, from a cache whose balances are current.
use mathlib.Core.Path.{subst}
use exploding_user_data_scal.Prelude.{
  String, true, ◌≡◌, ◌≢◌, refl, ap, ◌∙◌, inl, inr, [], ◌∷◌, arith, Bool-cases, is-ne, Option, none,
  some,
}
use exploding_user_data_scal.Prelude.Int.{ℤ}
use exploding_user_data_scal.Values.{
  GoError, no_rows, is_no_rows, Result, ok, ok-injective, err, Time, UserBalanceResponse,
  user_balance,
}
use exploding_user_data_scal.Metrics.{cache_misses_total}
use exploding_user_data_scal.Cache
use exploding_user_data_scal.Cache.{Fetched, hit, miss, error, default_ttl}
use exploding_user_data_scal.Cache.Coherent.{
  HoldsCurrent, HoldsCurrent-set, HoldsCurrent-loss, fetched-Current,
}
use exploding_user_data_scal.Cache.Keys.{user_balance_key, user_balance_key_injective}
use exploding_user_data_scal.Services.{Services}
use exploding_user_data_scal.Services.Sql.{read, user_by_id}
use exploding_user_data_scal.Services.Action.{World, on_breaker}
use exploding_user_data_scal.Services.Laws.{
  DbLaws, ReplicaLaws, BreakerLaws, RedisLaws, JsonLaws, Answers,
}
use exploding_user_data_scal.Services.Laws.Reads.{
  Answers-ok, Answers-no_rows, Answers-map_ok, on_breaker-Answers,
}
use exploding_user_data_scal.Tables.{
  Columns, User, Tables, user_row, row_or_none, find_user, select,
}
use exploding_user_data_scal.Handler.{Response, user_balance_body, map_ok}
use exploding_user_data_scal.Handler.GetUserBalance.{
  to_balance, query_user_balance, balance_error, keep_balance, fetch_balance, serve_balance,
  get_user_balance,
}

-- A stored row of `users`, column by column, as a client sees it, before it is stamped.
abbrev pub shown_row : Columns → User → UserBalanceResponse
shown_row c u = record {
  user_id = u.id;
  username = u.username;
  balance = c.to_float u.balance;
  status = u.status;
  fetched_at = 0;
}

to_balance-shown_row :
    (c : Columns) (o : Option User)
    → map_ok to_balance (row_or_none (user_row c) o) ≡ row_or_none (shown_row c) o
to_balance-shown_row c none = refl
to_balance-shown_row c (some u) = refl

-- An answer without the time at which it was fetched, as `queryUserBalance` leaves it.
abbrev pub unstamped : UserBalanceResponse → UserBalanceResponse
unstamped resp = record resp { fetched_at = 0 }

-- A stamp does not change what the tables say.
pub unstamped_row :
    (c : Columns) (o : Option User) (row : UserBalanceResponse) (at : Time)
    → row_or_none (shown_row c) o ≡ ok row
    → row_or_none (shown_row c) o ≡ ok (unstamped (record row { fetched_at = at }))
unstamped_row c (some u) row at h = ap (λ x. ok (unstamped x)) (ok-injective h)
unstamped_row c none row at h = cc

module _ (sv : Services) (db : DbLaws sv) where
  -- What the tables say of a user.
  abbrev pub view : Tables → String → Result UserBalanceResponse
  view t id = row_or_none (shown_row db.columns) (find_user (db.columns.canonical id) t.users)

  select-view :
      (t : Tables) (id : String)
      → map_ok to_balance (select db.columns t (user_by_id id)) ≡ view t id
  unfolding select
  select-view t id = to_balance-shown_row db.columns (find_user (db.columns.canonical id) t.users)

  -- The answer shows the user's row.
  abbrev pub Matches : Tables → String → UserBalanceResponse → Type 0
  Matches t id resp = view t id ≡ ok (unstamped resp)

  -- Every cached balance is the one in the tables.
  abbrev pub IsCoherent : RedisLaws sv → sv.Redis → Tables → Type 0
  IsCoherent redis r t = HoldsCurrent sv redis user_balance user_balance_key (Matches t) r

module _ (sv : Services) (trace_id : String) (db : DbLaws sv) (replica : ReplicaLaws sv db)
    (breaker : BreakerLaws sv) (redis : RedisLaws sv) (json : JsonLaws sv) where
  open db use {tables}

  -- An answer that is right for these tables: the user's balance with code 200, 404 where there is
  -- no such user, or 500.
  pub data Shows (t : Tables) (id : String) (answer : Response) : Type 0 where
    shown :
        (cached : String) (resp : UserBalanceResponse)
        → Matches sv db t id resp
        → answer
          ≡ record { code = 200; headers = ("X-Cache", cached) ∷ []; body = user_balance_body resp }
        → Shows t id answer
    unknown : view sv db t id ≡ err no_rows → answer.code ≡ 404 → Shows t id answer
    broken : answer.code ≡ 500 → Shows t id answer

  -- A state that has these rows, and only current balances.
  abbrev pub IsCurrent : Tables → World sv → Type 0
  IsCurrent t w = (tables w.db ≡ t) × IsCoherent sv db redis w.redis t

  Right : Tables → String → Response × World sv → Type 0
  Right t id (answer, w') = Shows t id answer × IsCurrent t w'

  pub query_user_balance-Answers :
      (id : String) (d : sv.Db) → Answers (query_user_balance sv id d).0 (view sv db (tables d) id)
  unfolding query_user_balance
  query_user_balance-Answers id d =
      let found = (sv.query read (user_by_id id) d).0 in
      subst (Answers (map_ok to_balance found)) (select-view sv db (tables d) id)
        (Answers-map_ok to_balance _ _ (replica.replica-answer read (user_by_id id) d))

  query_user_balance-tables :
      (id : String) (d : sv.Db) → tables (query_user_balance sv id d).1 ≡ tables d
  unfolding query_user_balance
  query_user_balance-tables id d = db.query-tables read (user_by_id id) d

  set-db :
      (key : String) (resp : UserBalanceResponse) (ttl : ℤ) (w : World sv)
      → (Cache.set sv user_balance key resp ttl w).1.db ≡ w.db
  unfolding Cache.set
  set-db key resp ttl w = ground arith

  error-Shows :
      (t : Tables) (id : String) (e : GoError)
      → (is_no_rows e ≡ true → view sv db t id ≡ err no_rows)
      → Shows t id (balance_error sv trace_id e)
  error-Shows t id e h = elim (Bool-cases (is_no_rows e)) [
    | inl absent ↦ unknown (h absent) (rw absent refl)
    | inr plain ↦ broken (rw plain refl)
  ]

  keep_balance-Right :
      (t : Tables) (id : String) (row : Result UserBalanceResponse) (w : World sv)
      → Answers row (view sv db t id)
      → IsCurrent t w
      → Right t id (keep_balance sv trace_id id row w)
  unfolding Right
  keep_balance-Right t id (ok row) w answers h =
      let (at, h1) = sv.now w.host in
      let resp = record row { fetched_at = at } in
      let w1 = record w { host = h1 } in
      let current =
        unstamped_row db.columns (find_user (db.columns.canonical id) t.users) row at
          (Answers-ok row (view sv db t id) answers) in
      (
        shown "MISS" resp current refl,
        (
          ap tables (set-db (user_balance_key id) resp (default_ttl sv.getenv) w1) ∙ h.0,
          HoldsCurrent-set sv redis user_balance user_balance_key (Matches sv db t) json
              user_balance_key_injective id resp (default_ttl sv.getenv) w1 current h.1,
        ),
      )
  keep_balance-Right t id (err e) w answers h =
      (error-Shows t id e (Answers-no_rows e (view sv db t id) answers), h)

  fetch_balance-Right :
      (t : Tables) (id : String) (w : World sv)
      → IsCurrent t w
      → Right t id (fetch_balance sv trace_id id w)
  unfolding fetch_balance
  fetch_balance-Right t id w h =
      let w0 = record w { metrics = cache_misses_total "user_balance" ∷ w.metrics } in
      let (row, w1) = on_breaker sv UserBalanceResponse (query_user_balance sv id) w0 in
      let (answers, same) =
        on_breaker-Answers sv db breaker UserBalanceResponse (query_user_balance sv id)
          (λ rows. view sv db rows id) (query_user_balance-Answers id)
          (query_user_balance-tables id) w0 in
      keep_balance-Right t id row w1
        (subst (λ (rows : Tables). Answers row (view sv db rows id)) h.0 answers) (same ∙ h.0, h.1)

  serve_balance-Right :
      (t : Tables) (id : String) (cached : Fetched UserBalanceResponse) (w : World sv)
      → ((resp : UserBalanceResponse) → cached ≡ hit resp → Matches sv db t id resp)
      → IsCurrent t w
      → Right t id (serve_balance sv trace_id id cached w)
  serve_balance-Right t id (hit resp) w c h =
      unfold Right in (shown "HIT" resp (c resp refl) refl, h)
  serve_balance-Right t id miss w c h = fetch_balance-Right t id w h
  serve_balance-Right t id (error e) w c h =
      fetch_balance-Right t id
        (record w { metrics = cache_misses_total "user_balance" ∷ w.metrics }) h

  -- While the read pool answers by the tables and every cached balance is the one in the tables, GET
  -- /users/:id/balance with an id shows the user's row, from the cache or not, but for the time at
  -- which it was fetched; or it answers 404, and there is no such user; or 500. In each case no row
  -- has changed and every cached balance is still the one in the tables.
  pub get_user_balance-Shows :
      (id : String) (w : World sv)
      → id ≢ ""
      → IsCoherent sv db redis w.redis (tables w.db)
      → let (answer, w') = get_user_balance sv trace_id id w in
        Shows (tables w.db) id answer × IsCurrent (tables w.db) w'
  unfolding get_user_balance Right Cache.get
  get_user_balance-Shows id w named h =
      let key = user_balance_key id in
      let (reply, r) = sv.redis_get key w.redis in
      let Current = Matches sv db (tables w.db) in
      rw (is-ne id "" named) (
        serve_balance-Right (tables w.db) id (Cache.fetched sv user_balance reply)
          (record w { redis = r })
          (fetched-Current sv redis user_balance user_balance_key Current id w.redis reply
            (λ b. redis.get-found key w.redis b) h)
          (
            refl,
            HoldsCurrent-loss sv redis user_balance user_balance_key Current w.redis r
                (λ k. redis.get-keeps key k w.redis) h,
          ))
