-- ===== src/Handler/GetUserBalance.antt =====
-- api/handler/user.go: GetUserBalance and queryUserBalance.
pub mod Answers
pub mod Others
pub mod Versions
use exploding_user_data_scal.Prelude.{String, [], ◌∷◌, ◌==◌, if◌then◌else◌}
use exploding_user_data_scal.Values.{
  GoError, is_no_rows, Result, ok, err, UserBalanceResponse, user_balance,
}
use exploding_user_data_scal.Metrics.{cache_hits_total, cache_misses_total}
use exploding_user_data_scal.Cache.{Fetched, hit, miss, error, default_ttl}
use exploding_user_data_scal.Cache
use exploding_user_data_scal.Cache.Keys.{user_balance_key}
use exploding_user_data_scal.Services.{Services}
use exploding_user_data_scal.Services.Sql.{read, user_by_id, UserRow}
use exploding_user_data_scal.Services.Action.{Action, pure, ◌>>=◌, ◌>>◌, count, on_breaker, on_host}
use exploding_user_data_scal.Handler.{Response, str, user_balance_body, json, map_ok}

-- The scanned row; `FetchedAt` is still the zero time.
abbrev pub to_balance : UserRow → UserBalanceResponse
to_balance r = record {
  user_id = r.id;
  username = r.username;
  balance = r.balance;
  status = r.status;
  fetched_at = 0;
}

-- `queryUserBalance`, on the read pool.
unfoldable pub query_user_balance :
    (sv : Services) → String → sv.Db → Result UserBalanceResponse × sv.Db
query_user_balance sv id d =
    let (r, d') = sv.query read (user_by_id id) d in (map_ok to_balance r, d')

module _ (sv : Services) (trace_id : String) where
  abbrev pub missing_user_id : Response
  missing_user_id = json 400 (("error", str "missing user id") ∷ ("trace_id", str trace_id) ∷ [])

  abbrev pub balance_error : GoError → Response
  balance_error e =
      if is_no_rows e
      then json 404 (("error", str "user not found") ∷ ("trace_id", str trace_id) ∷ [])
      else json 500
          (("error", str "failed to fetch user balance") ∷ ("trace_id", str trace_id) ∷ [])

  abbrev pub show_balance : String → UserBalanceResponse → Response
  show_balance cached resp = record {
    code = 200;
    headers = ("X-Cache", cached) ∷ [];
    body = user_balance_body resp;
  }

  abbrev pub keep_balance : String → Result UserBalanceResponse → Action sv Response
  keep_balance id (err e) = pure (balance_error e)
  keep_balance id (ok row) = do
    at ← on_host sv sv.now
    let resp = record row { fetched_at = at }
    Cache.set sv user_balance (user_balance_key id) resp (default_ttl sv.getenv)
    pure (show_balance "MISS" resp)

  -- From the second count of a miss on.
  unfoldable pub fetch_balance : String → Action sv Response
  fetch_balance id = do
    count (cache_misses_total "user_balance")
    found ← on_breaker sv UserBalanceResponse (query_user_balance sv id)
    keep_balance id found

  abbrev pub serve_balance : String → Fetched UserBalanceResponse → Action sv Response
  serve_balance id (hit resp) = do
    count (cache_hits_total "user_balance")
    pure (show_balance "HIT" resp)
  serve_balance id miss = fetch_balance id
  serve_balance id (error e) = do count (cache_misses_total "user_balance"); fetch_balance id

  -- `GetUserBalance`, for the path's parameter.
  unfoldable pub get_user_balance : String → Action sv Response
  get_user_balance id =
      if id == ""
      then pure missing_user_id
      else (do cached ← Cache.get sv user_balance (user_balance_key id); serve_balance id cached)
