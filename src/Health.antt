-- ===== src/Health.antt =====
-- api/main.go: healthCheck.
use Prim.Native.String.{◌++◌}
use exploding_user_data_scal.Prelude.{
  ℕ, String, true, false, not, ◌||◌, ◌≡◌, ◌≢◌, refl, ap, ◌⊎◌, inl, inr, Option, none, some, [], ◌∷◌,
  arith, ◌==◌, if◌then◌else◌, is-ne,
}
use exploding_user_data_scal.Values.{GoError, error_text, Result, ok, err, Time}
use exploding_user_data_scal.Text.{head, head-append}
use exploding_user_data_scal.Queue.{queue_depth}
use exploding_user_data_scal.Services.{Services}
use exploding_user_data_scal.Services.Action.{World, Action, pure, ◌>>=◌, on_db, on_redis, on_host}
use exploding_user_data_scal.Handler.{Response, str, num, instant, json}

-- `dbStatus` and `cacheStatus`, by the error of the ping.
abbrev pub status_text : Option GoError → String
status_text none = "ok"
status_text (some e) = "error: " ++ error_text e

-- `queueDepth, _ := queue.QueueDepth()`.
abbrev pub depth_or_zero : Result ℕ → ℕ
depth_or_zero (ok n) = n
depth_or_zero (err e) = 0

abbrev pub health_code : String → String → ℕ
health_code db_status cache_status =
    if not (db_status == "ok") || not (cache_status == "ok") then 503 else 200

module _ (sv : Services) (trace_id : String) where
  abbrev pub health : String → String → ℕ → Time → Response
  health db_status cache_status depth at = json (health_code db_status cache_status) (
      ("status", str "ok")
      ∷ ("timestamp", instant at)
      ∷ ("trace_id", str trace_id)
      ∷ ("db_write", str db_status)
      ∷ ("cache", str cache_status)
      ∷ ("queue_depth", num depth)
      ∷ [])

  -- `healthCheck`.
  unfoldable pub health_check : Action sv Response
  health_check = do
    db ← on_db sv sv.db_ping
    cache ← on_redis sv sv.redis_ping
    depth ← queue_depth sv
    at ← on_host sv sv.now
    pure (health (status_text db) (status_text cache) (depth_or_zero depth) at)

error-ne-ok : (t : String) → "error: " ++ t ≢ "ok"
unfolding head
error-ne-ok t h = omega (arith, ap head h, head-append _ "rror: " t)

-- A ping without an error is reported as "ok", and any other is not.
reports :
    (o : Option GoError)
    → ((o ≡ none) × ((status_text o == "ok") ≡ true))
      ⊎ ((o ≢ none) × ((status_text o == "ok") ≡ false))
reports none = inl (refl, refl)
reports (some e) = inr (λ h. cc, is-ne _ "ok" (error-ne-ok (error_text e)))

-- `healthCheck` answers 200 when the pings of the primary and of Redis both return no error, and
-- 503 when either returns one, whatever the queue answers.
pub health_check-code :
    (sv : Services) (trace_id : String) (w : World sv)
    → let (answer, w') = health_check sv trace_id w in
      (((sv.db_ping w.db).0 ≡ none) × ((sv.redis_ping w.redis).0 ≡ none) × (answer.code ≡ 200))
      ⊎ ((((sv.db_ping w.db).0 ≢ none) ⊎ ((sv.redis_ping w.redis).0 ≢ none)) × (answer.code ≡ 503))
unfolding health_check queue_depth
health_check-code sv trace_id w =
    let db = (sv.db_ping w.db).0 in
    let cache = (sv.redis_ping w.redis).0 in
    elim (reports db) [
      | inr (down, bad) ↦ inr (inl down, rw bad refl)
      | inl (up, good) ↦ elim (reports cache) [
        | inr (down, bad) ↦ inr (inr down, rw good (rw bad refl))
        | inl (up', good') ↦ inl (up, up', rw good (rw good' refl))
      ]
    ]
