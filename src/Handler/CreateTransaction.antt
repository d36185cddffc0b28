-- ===== src/Handler/CreateTransaction.antt =====
-- api/handler/transaction.go: CreateTransaction, in the stages between its early returns.
pub mod Valid
pub mod Queued
pub mod Created
pub mod Idempotency
use Prim.Native.String.{◌++◌, slice}
use exploding_user_data_scal.Prelude.{
  String, Bool, true, false, not, ◌&&◌, ◌||◌, Option, none, some, [], ◌∷◌, ◌==◌, if◌then◌else◌,
}
use exploding_user_data_scal.Prelude.Int.{ℤ, pos}
use exploding_user_data_scal.Values.{
  GoError, error_text, Result, ok, err, is_positive, Time, CreateTransactionRequest,
  TransactionMessage, text,
}
use exploding_user_data_scal.Metrics.{
  queue_published_total, transactions_created_total, idempotency_hits_total,
}
use exploding_user_data_scal.Cache.{Fetched, hit, miss, error}
use exploding_user_data_scal.Cache
use exploding_user_data_scal.Cache.Keys.{idempotency_key}
use exploding_user_data_scal.Queue
use exploding_user_data_scal.Services.{Services}
use exploding_user_data_scal.Services.Sql.{read, user_active, NewTransaction, insert_pending}
use exploding_user_data_scal.Services.Action.{
  Action, pure, ◌>>=◌, ◌>>◌, count, on_db, on_host, on_breaker,
}
use exploding_user_data_scal.Handler.{Response, str, flag, json}

-- The `binding` tags of CreateTransactionRequest; `gt=0` implies `required` on the amount.
unfoldable pub validate : CreateTransactionRequest → Bool
unfolding is_positive
validate req =
    not (req.user_id == "")
    && (req.type == "credit" || req.type == "debit" || req.type == "transfer")
    && is_positive req.amount

-- `err != nil || !userExists`, negated.
abbrev pub exists : Result Bool → Bool
exists (ok b) = b
exists (err e) = false

-- The error of a closure that returns `nil, err`.
abbrev pub nil_or : Option GoError → Result (Unit {0})
nil_or none = ok tt
nil_or (some e) = err e

abbrev pub hit_or_none : {A : Type 0} → Fetched A → Option A
hit_or_none (hit a) = some a
hit_or_none miss = none
hit_or_none (error e) = none

-- 24*time.Hour
abbrev pub idempotency_ttl : ℤ
idempotency_ttl = pos 86400000000000

-- `refID`.
unfoldable pub reference : String → String → String
reference date id = "REF-" ++ (date ++ ("-" ++ slice id 0 8))

-- `idempotencyKey`, "" without a client key.
abbrev pub request_key : CreateTransactionRequest → String
request_key req = if req.idempotency == "" then "" else idempotency_key req.user_id req.idempotency

-- `c.ShouldBindJSON(&req)`: decoding, then the tags.
unfoldable pub bind : (sv : Services) → sv.Bytes → Result CreateTransactionRequest
bind sv body = elim (sv.decode_create body) [
  | err e ↦ err e
  | ok req ↦ if validate req then ok req else err (sv.invalid_create req)
]

module _ (sv : Services) (trace_id : String) where
  abbrev pub invalid_request : GoError → Response
  invalid_request e = json 400 (
      ("error", str "invalid request")
      ∷ ("message", str (error_text e))
      ∷ ("trace_id", str trace_id)
      ∷ [])

  abbrev pub invalid_user : Response
  invalid_user = json 422 (
      ("error", str "invalid user")
      ∷ ("message", str "User not found or inactive")
      ∷ ("trace_id", str trace_id)
      ∷ [])

  abbrev pub already_processed : String → Response
  already_processed id = json 200 (
      ("id", str id)
      ∷ ("status", str "already_processed")
      ∷ ("message", str "Duplicate request detected, returning previous transaction ID")
      ∷ ("trace_id", str trace_id)
      ∷ ("idempotent", flag true)
      ∷ [])

  abbrev pub create_failed : GoError → Response
  create_failed e = json 500 (
      ("error", str "failed to create transaction")
      ∷ ("message", str (error_text e))
      ∷ ("trace_id", str trace_id)
      ∷ [])

  abbrev pub queue_unavailable : String → String → Response
  queue_unavailable id ref = json 202 (
      ("id", str id)
      ∷ ("status", str "pending")
      ∷ ("reference_id", str ref)
      ∷ ("message", str "Transaction created, queued for processing")
      ∷ ("trace_id", str trace_id)
      ∷ ("warning", str "Queue unavailable, manual processing required")
      ∷ [])

  abbrev pub accepted : String → String → Response
  accepted id ref = json 202 (
      ("id", str id)
      ∷ ("status", str "pending")
      ∷ ("reference_id", str ref)
      ∷ ("message", str "Transaction accepted and queued for processing")
      ∷ ("trace_id", str trace_id)
      ∷ [])

  abbrev pub new_transaction : CreateTransactionRequest → String → String → NewTransaction
  new_transaction req id ref = record {
    id = id;
    user_id = req.user_id;
    type = req.type;
    amount = req.amount;
    reference_id = ref;
    description = req.description;
  }

  abbrev pub new_message : CreateTransactionRequest → String → Time → TransactionMessage
  new_message req id at = record {
    transaction_id = id;
    user_id = req.user_id;
    type = req.type;
    amount = req.amount;
    description = req.description;
    trace_id = trace_id;
    created_at = at;
  }

  -- The idempotency check: the id that an earlier request stored. An error of the cache is
  -- dropped and counts as no hit.
  unfoldable pub find_duplicate : CreateTransactionRequest → Action sv (Option String)
  find_duplicate req =
      if req.idempotency == ""
      then pure none
      else (do seen ← Cache.get sv text (request_key req); pure (hit_or_none seen))

  -- Storing the idempotency key; the error is dropped.
  unfoldable pub remember : CreateTransactionRequest → String → Action sv (Unit {0})
  remember req id =
      if request_key req == ""
      then pure tt
      else (do Cache.set sv text (request_key req) id idempotency_ttl; pure tt)

  abbrev pub report_published :
      CreateTransactionRequest → String → String → Option GoError → Action sv Response
  report_published req id ref (some e) = pure (queue_unavailable id ref)
  report_published req id ref none = do
    count queue_published_total
    count (transactions_created_total req.type "pending")
    pure (accepted id ref)

  -- From `queue.TransactionMessage{…}` on.
  unfoldable pub enqueue : CreateTransactionRequest → String → String → Action sv Response
  enqueue req id ref = do
    at ← on_host sv sv.now
    failed ← Queue.publish sv (new_message req id at)
    report_published req id ref failed

  abbrev pub after_insert :
      CreateTransactionRequest → String → String → Result (Unit {0}) → Action sv Response
  after_insert req id ref (err e) = pure (create_failed e)
  after_insert req id ref (ok done) = do remember req id; enqueue req id ref

  -- The INSERT inside the circuit breaker.
  abbrev pub insert : NewTransaction → Action sv (Result (Unit {0}))
  insert n =
      on_breaker sv (Unit {0}) (λ d. let (e, d') = sv.exec (insert_pending n) d in (nil_or e, d'))

  -- From `uuid.New()` on.
  unfoldable pub create_new : CreateTransactionRequest → Action sv Response
  create_new req = do
    id ← on_host sv sv.uuid
    date ← on_host sv sv.now
    let ref = reference (sv.format_date date) id
    inserted ← insert (new_transaction req id ref)
    after_insert req id ref inserted

  abbrev pub unless_duplicate : CreateTransactionRequest → Option String → Action sv Response
  unless_duplicate req (some id) = do count idempotency_hits_total; pure (already_processed id)
  unless_duplicate req none = create_new req

  -- From the idempotency check on.
  unfoldable pub create_active : CreateTransactionRequest → Action sv Response
  create_active req = do seen ← find_duplicate req; unless_duplicate req seen

  -- From the check of the user on.
  unfoldable pub create_bound : CreateTransactionRequest → Action sv Response
  create_bound req = do
    found ← on_db sv (sv.query read (user_active req.user_id))
    if exists found then create_active req else pure invalid_user

  abbrev pub after_bind : Result CreateTransactionRequest → Action sv Response
  after_bind (err e) = pure (invalid_request e)
  after_bind (ok req) = create_bound req

  -- `CreateTransaction`.
  unfoldable pub create_transaction : sv.Bytes → Action sv Response
  create_transaction body = after_bind (bind sv body)
