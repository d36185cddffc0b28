-- ===== src/Cache/Others.antt =====
-- What one use of the cache leaves under the other keys.
use exploding_user_data_scal.Prelude.{String, ◌≢◌, refl, sym, ◌∙◌, inl, inr, Option}
use exploding_user_data_scal.Prelude.Int.{ℤ}
use exploding_user_data_scal.Values.{Result, ok, err, Kind, Payload}
use exploding_user_data_scal.Cache
use exploding_user_data_scal.Cache.Coherent.{HoldsCurrent}
use exploding_user_data_scal.Services.{Services}
use exploding_user_data_scal.Services.Action.{World}
use exploding_user_data_scal.Services.Laws.{RedisLaws, StaysOrGoes}

pub StaysOrGoes-trans {ℓ} :
    {A : Type ℓ} {a b c : Option A} → StaysOrGoes a b → StaysOrGoes b c → StaysOrGoes a c
StaysOrGoes-trans first (inr gone) = inr gone
StaysOrGoes-trans (inl stays) (inl stays') = inl (stays' ∙ stays)
StaysOrGoes-trans (inr gone) (inl stays') = inr (stays' ∙ gone)

module _ (sv : Services) (redis : RedisLaws sv) where
  open redis use {stored}

  -- Under each key but one, the entry is the same or gone.
  abbrev pub OthersStay : String → sv.Redis → sv.Redis → Type 0
  OthersStay key r r' = (j : String) → key ≢ j → StaysOrGoes (stored r j) (stored r' j)

  pub OthersStay-trans :
      (key : String) (a b c : sv.Redis)
      → OthersStay key a b
      → OthersStay key b c
      → OthersStay key a c
  OthersStay-trans key a b c first second j other =
      StaysOrGoes-trans (first j other) (second j other)

  pub redis_get-OthersStay : (key : String) (r : sv.Redis) → OthersStay key r (sv.redis_get key r).1
  redis_get-OthersStay key r j other = redis.get-keeps key j r

  pub set-OthersStay :
      (k : Kind) (key : String) (v : Payload k) (ttl : ℤ) (w : World sv)
      → OthersStay key w.redis (Cache.set sv k key v ttl w).1.redis
  unfolding Cache.set
  set-OthersStay k key v ttl w = stored_as (sv.marshal k v)
    where
      stored_as :
          (m : Result sv.Bytes) → OthersStay key w.redis (Cache.store_bytes sv key ttl m w).1.redis
      stored_as (ok b) j other = redis.set-keeps key j b ttl w.redis other
      stored_as (err e) j other = inl refl

  -- Entries of another family of keys are as current as they were.
  pub HoldsCurrent-others :
      (k : Kind) (family : String → String) (Current : String → Payload k → Type 0) (key : String)
      (r r' : sv.Redis)
      → ((id : String) → key ≢ family id)
      → OthersStay key r r'
      → HoldsCurrent sv redis k family Current r
      → HoldsCurrent sv redis k family Current r'
  HoldsCurrent-others k family Current key r r' apart others h id b there =
      elim (others (family id) (apart id)) [
        | inl stays ↦ h id b (sym stays ∙ there)
        | inr gone ↦ cc
      ]
