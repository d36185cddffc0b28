-- ===== src/Cache/Coherent.antt =====
-- A cache whose entries of one kind, under one family of keys, say what is current. The client says
-- what that means, by the id behind the key.
use mathlib.Core.Bool.{true≢false}
use mathlib.Core.Option.{some-injective}
use exploding_user_data_scal.Prelude.{
  String, ◌≡◌, ◌≢◌, refl, sym, ap, ◌∙◌, inl, inr, Option, none, some, Bool-cases, eq_iff, ◌==◌,
}
use exploding_user_data_scal.Prelude.Int.{ℤ}
use exploding_user_data_scal.Values.{Result, ok, err, Kind, Payload}
use exploding_user_data_scal.Cache
use exploding_user_data_scal.Cache.{hit}
use exploding_user_data_scal.Services.{Services, Reply, found, missing, failed}
use exploding_user_data_scal.Services.Action.{World}
use exploding_user_data_scal.Services.Laws.{RedisLaws, JsonLaws, StaysOrGoes}

hit-injective : {A : Type 0} {a b : A} → hit a ≡ hit b → a ≡ b
hit-injective h = cc

module _ (sv : Services) (redis : RedisLaws sv) (k : Kind) (key : String → String)
    (Current : String → Payload k → Type 0) where
  open redis use {stored}

  -- Every entry under a key of the family is current.
  abbrev pub HoldsCurrent : sv.Redis → Type 0
  HoldsCurrent r =
      (id : String) (b : sv.Bytes)
      → stored r (key id) ≡ some b
      → (v : Payload k) × (sv.unmarshal k b ≡ ok v) × Current id v

  -- Losing entries keeps the rest current.
  pub HoldsCurrent-loss :
      (r r' : sv.Redis)
      → ((j : String) → StaysOrGoes (stored r j) (stored r' j))
      → HoldsCurrent r
      → HoldsCurrent r'
  HoldsCurrent-loss r r' keeps h id b there = elim (keeps (key id)) [
    | inl stays ↦ h id b (sym stays ∙ there)
    | inr gone ↦ cc
  ]

  -- What `cache.Get` hands over from a reply of Redis is current.
  pub fetched-Current :
      (id : String) (r : sv.Redis) (reply : Reply sv.Bytes)
      → ((b : sv.Bytes) → reply ≡ found b → stored r (key id) ≡ some b)
      → HoldsCurrent r
      → (v : Payload k) → Cache.fetched sv k reply ≡ hit v
      → Current id v
  fetched-Current id r (found b) there h v e =
      let (v', decoded, current) = h id b (there b refl) in
      let same = hit-injective (sym (ap Cache.unmarshalled decoded) ∙ e) in rw (← same) current
  fetched-Current id r missing there h v e = cc
  fetched-Current id r (failed bad) there h v e = cc

  module _ (json : JsonLaws sv) (injective : (a b : String) → key a ≡ key b → a ≡ b) (id : String)
      (v : Payload k) (ttl : ℤ) (w : World sv) (current : Current id v) where
    HoldsCurrent-write :
        (b : sv.Bytes)
        → sv.marshal k v ≡ ok b
        → HoldsCurrent w.redis
        → HoldsCurrent (sv.redis_set (key id) b ttl w.redis).1
    HoldsCurrent-write b marshalled h id' b' there = elim (Bool-cases (key id == key id')) [
      | inl same ↦
          let same_key = (eq_iff (key id) (key id')).0 same in
          let here = rw (← same_key) at there in
          elim (redis.set-failed (key id) b ttl w.redis) [
            | inl written ↦ (
              v,
              rw (some-injective b' b (sym here ∙ written))
                  (json.unmarshal-marshal k v b marshalled),
              rw (← injective id id' same_key) current,
            )
            | inr (inl stays) ↦ h id' b' (rw (← same_key) (sym stays ∙ here))
            | inr (inr gone) ↦ cc
          ]
      | inr other ↦
          elim (redis.set-keeps (key id) (key id') b ttl w.redis
            (λ e. true≢false (sym ((eq_iff _ _).1 e) ∙ other))) [
              | inl stays ↦ h id' b' (sym stays ∙ there)
              | inr gone ↦ cc
            ]
    ]

    HoldsCurrent-store :
        (m : Result sv.Bytes)
        → sv.marshal k v ≡ m
        → HoldsCurrent w.redis
        → HoldsCurrent (Cache.store_bytes sv (key id) ttl m w).1.redis
    HoldsCurrent-store (ok b) marshalled h = HoldsCurrent-write b marshalled h
    HoldsCurrent-store (err e) marshalled h = h

    -- Writing a current value keeps all current, also where the write fails.
    pub HoldsCurrent-set :
        HoldsCurrent w.redis → HoldsCurrent (Cache.set sv k (key id) v ttl w).1.redis
    unfolding Cache.set
    HoldsCurrent-set h = HoldsCurrent-store (sv.marshal k v) refl h

some-ne-none {ℓ} : {A : Type ℓ} {o : Option A} {a : A} → o ≡ some a → o ≢ none
some-ne-none h gone = cc

-- Where what is current changes, the entries that are left must be current after it too.
pub HoldsCurrent-moves :
    (sv : Services) (redis : RedisLaws sv) (k : Kind) (key : String → String)
    (Before After : String → Payload k → Type 0) (r r' : sv.Redis)
    → ((id : String) → StaysOrGoes (redis.stored r (key id)) (redis.stored r' (key id)))
    → ((id : String) (v : Payload k)
        → redis.stored r (key id) ≢ none
        → redis.stored r' (key id) ≢ none
        → Before id v
        → After id v)
    → HoldsCurrent sv redis k key Before r
    → HoldsCurrent sv redis k key After r'
HoldsCurrent-moves sv redis k key Before After r r' keeps moves h id b there = elim (keeps id) [
  | inl stays ↦
      let kept = sym stays ∙ there in
      let (v, decoded, current) = h id b kept in
      (v, decoded, moves id v (some-ne-none kept) (some-ne-none there) current)
  | inr gone ↦ cc
]
