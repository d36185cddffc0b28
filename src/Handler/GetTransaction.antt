-- ===== src/Handler/GetTransaction.antt =====
-- api/handler/transaction.go: GetTransaction and queryTransaction.
pub mod Coherent
pub mod Answers
pub mod Counting
pub mod Late
pub mod Others
pub mod Versions
use exploding_user_data_scal.Prelude.{String, Option, none, some, [], ◌∷◌, ◌==◌, if◌then◌else◌}
use exploding_user_data_scal.Values.{
  GoError, is_no_rows, Result, ok, err, TransactionResponse, transaction,
}
use exploding_user_data_scal.Metrics.{cache_hits_total, cache_misses_total}
use exploding_user_data_scal.Cache.{Fetched, hit, miss, error, default_ttl}
use exploding_user_data_scal.Cache
use exploding_user_data_scal.Cache.Keys.{transaction_key}
use exploding_user_data_scal.Services.{Services}
use exploding_user_data_scal.Services.Sql.{read, transaction_by_id, TransactionRow}
use exploding_user_data_scal.Services.Action.{Action, pure, ◌>>=◌, ◌>>◌, count, on_breaker}
use exploding_user_data_scal.Handler.{Response, str, transaction_body, json, map_ok}

-- `refID.String` and `desc.String`: "" for NULL.
abbrev pub null_string : Option String → String
null_string none = ""
null_string (some s) = s

abbrev pub to_response : TransactionRow → TransactionResponse
to_response r = record {
  id = r.id;
  user_id = r.user_id;
  type = r.type;
  amount = r.amount;
  status = r.status;
  reference_id = null_string r.reference_id;
  description = null_string r.description;
  created_at = r.created_at;
  updated_at = r.updated_at;
}

-- `queryTransaction`, on the read pool.
unfoldable pub query_transaction :
    (sv : Services) → String → sv.Db → Result TransactionResponse × sv.Db
query_transaction sv id d =
    let (r, d') = sv.query read (transaction_by_id id) d in (map_ok to_response r, d')

module _ (sv : Services) (trace_id : String) where
  abbrev pub missing_transaction_id : Response
  missing_transaction_id =
      json 400 (("error", str "missing transaction id") ∷ ("trace_id", str trace_id) ∷ [])

  abbrev pub transaction_error : GoError → Response
  transaction_error e =
      if is_no_rows e
      then json 404 (("error", str "transaction not found") ∷ ("trace_id", str trace_id) ∷ [])
      else json 500 (("error", str "failed to fetch transaction") ∷ ("trace_id", str trace_id) ∷ [])

  -- The answer with a transaction, by the header X-Cache.
  abbrev pub show_transaction : String → TransactionResponse → Response
  show_transaction cached txn = record {
    code = 200;
    headers = ("X-Cache", cached) ∷ [];
    body = transaction_body txn;
  }

  abbrev pub keep_transaction : String → Result TransactionResponse → Action sv Response
  keep_transaction id (err e) = pure (transaction_error e)
  keep_transaction id (ok txn) = do
    Cache.set sv transaction (transaction_key id) txn (default_ttl sv.getenv)
    pure (show_transaction "MISS" txn)

  -- From the second count of a miss on.
  unfoldable pub fetch_transaction : String → Action sv Response
  fetch_transaction id = do
    count (cache_misses_total "transaction")
    found ← on_breaker sv TransactionResponse (query_transaction sv id)
    keep_transaction id found

  abbrev pub serve_transaction : String → Fetched TransactionResponse → Action sv Response
  serve_transaction id (hit txn) = do
    count (cache_hits_total "transaction")
    pure (show_transaction "HIT" txn)
  serve_transaction id miss = fetch_transaction id
  serve_transaction id (error e) = do count (cache_misses_total "transaction"); fetch_transaction id

  -- `GetTransaction`, for the path's parameter.
  unfoldable pub get_transaction : String → Action sv Response
  get_transaction id =
      if id == ""
      then pure missing_transaction_id
      else (do cached ← Cache.get sv transaction (transaction_key id); serve_transaction id cached)
