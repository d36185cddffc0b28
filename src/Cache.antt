-- ===== src/Cache.antt =====
-- api/cache/redis.go: the keys, the time to live, and Set, Get and Delete over the Redis client.
pub mod Keys
pub mod Coherent
pub mod Others
use exploding_user_data_scal.Prelude.{
  String, ◌≡◌, refl, Bool, true, false, Option, none, some, if◌then◌else◌,
}
use exploding_user_data_scal.Prelude.Int.{ℤ}
use exploding_user_data_scal.Values.{GoError, wrapped, Result, ok, err, Kind, Payload}
use exploding_user_data_scal.Config.{get_env_int, seconds}
use exploding_user_data_scal.Services.{Services, Reply, found, missing, failed}
use exploding_user_data_scal.Services.Action.{Action, pure, ◌>>=◌, on_redis}

-- `DefaultTTL`, in nanoseconds.
unfoldable pub default_ttl : (String → String) → ℤ
default_ttl getenv = seconds (get_env_int getenv "CACHE_TTL_SECONDS" "30")

-- What `Get` returns, with what it has put into `dest`: `(true, nil)`, `(false, nil)` and
-- `(false, err)`.
pub data Fetched (A : Type 0) : Type 0 where
  hit : A → Fetched A
  miss : Fetched A
  error : GoError → Fetched A

abbrev pub unmarshalled : {A : Type 0} → Result A → Fetched A
unmarshalled (ok a) = hit a
unmarshalled (err e) = error (wrapped "cache unmarshal error" e)

module _ (sv : Services) where
  abbrev pub fetched : (k : Kind) → Reply sv.Bytes → Fetched (Payload k)
  fetched k (found b) = unmarshalled (sv.unmarshal k b)
  fetched k missing = miss
  fetched k (failed e) = error (wrapped "cache get error" e)

  -- `Get(ctx, key, dest)`, where `dest` points to a value of the kind.
  unfoldable pub get : (k : Kind) → String → Action sv (Fetched (Payload k))
  get k key = do reply ← on_redis sv (sv.redis_get key); pure (fetched k reply)

  abbrev pub store_bytes : String → ℤ → Result sv.Bytes → Action sv (Option GoError)
  store_bytes key ttl (ok b) = on_redis sv (sv.redis_set key b ttl)
  store_bytes key ttl (err e) = pure (some (wrapped "cache marshal error" e))

  -- `Set(ctx, key, value, ttl)`.
  unfoldable pub set : (k : Kind) → String → Payload k → ℤ → Action sv (Option GoError)
  set k key value ttl = store_bytes key ttl (sv.marshal k value)

  -- `Delete(ctx, key)`.
  unfoldable pub delete : String → Action sv (Option GoError)
  delete key = on_redis sv (sv.redis_del key)
