-- ===== src/Services/Action.antt =====
-- The state that a handler works on, and its actions: one for each call of a service. `metrics`
-- lists the updates of the collectors, the newest first.
use exploding_user_data_scal.Prelude.{ℕ, String, ◌≡◌, refl, List, [], ◌∷◌, Option, none, some}
use exploding_user_data_scal.Values.{GoError, Result}
use exploding_user_data_scal.Metrics.{Metric, circuit_breaker_state, requests, misses}
use exploding_user_data_scal.Services.{Services, BreakerState, closed, half_open, open_state}
use exploding_user_data_scal.Services.Sql.{Statement}

pub record World (sv : Services) : Type 0 where
  pub redis : sv.Redis
  pub db : sv.Db
  pub broker : sv.Broker
  pub breaker : sv.Breaker
  pub host : sv.Host
  pub metrics : List Metric

abbrev pub Action : Services → Type 0 → Type 0
Action sv A = World sv → A × World sv

-- The gauge's value for a state of a breaker.
abbrev pub state_value : BreakerState → ℕ
state_value closed = 0
state_value half_open = 1
state_value open_state = 2

-- `OnStateChange`: the update of the gauge of the breaker with a name.
abbrev pub on_state_change : String → BreakerState → Metric
on_state_change name to = circuit_breaker_state name (state_value to)

-- The calls of `OnStateChange` of the database's breaker, the last one first.
unfoldable pub state_changes : List BreakerState → List Metric → List Metric
state_changes [] log = log
state_changes (to ∷ before) log = on_state_change "database" to ∷ state_changes before log

-- They count no request and no miss.
pub requests-changes :
    (changes : List BreakerState) (log : List Metric)
    → requests (state_changes changes log) ≡ requests log
unfolding state_changes requests
requests-changes [] log = refl
requests-changes (to ∷ before) log = requests-changes before log

pub misses-changes :
    (kind : String) (changes : List BreakerState) (log : List Metric)
    → misses kind (state_changes changes log) ≡ misses kind log
unfolding state_changes misses
misses-changes kind [] log = refl
misses-changes kind (to ∷ before) log = misses-changes kind before log

module _ {sv : Services} where
  abbrev pub pure : {A : Type 0} → A → Action sv A
  pure a w = (a, w)

  infixl 5 ◌>>=◌ ◌>>◌
  abbrev pub ◌>>=◌ : {A B : Type 0} → Action sv A → (A → Action sv B) → Action sv B
  ◌>>=◌ m f w = let (a, w') = m w in f a w'

  abbrev pub ◌>>◌ : {A B : Type 0} → Action sv A → Action sv B → Action sv B
  m >> k = m >>= λ _. k

-- `metrics.X.Inc()`, `.Set(v)` and `.Observe(v)`.
abbrev pub count : {sv : Services} → Metric → Action sv (Unit {0})
count m w = (tt, record w { metrics = m ∷ w.metrics })

-- An action of one service, on its part of the state.
module _ (sv : Services) where
  abbrev pub on_redis : {A : Type 0} → (sv.Redis → A × sv.Redis) → Action sv A
  on_redis f w = let (a, r) = f w.redis in (a, record w { redis = r })

  abbrev pub on_db : {A : Type 0} → (sv.Db → A × sv.Db) → Action sv A
  on_db f w = let (a, d) = f w.db in (a, record w { db = d })

  abbrev pub on_broker : {A : Type 0} → (sv.Broker → A × sv.Broker) → Action sv A
  on_broker f w = let (a, b) = f w.broker in (a, record w { broker = b })

  abbrev pub on_host : {A : Type 0} → (sv.Host → A × sv.Host) → Action sv A
  on_host f w = let (a, h) = f w.host in (a, record w { host = h })

  -- `ExecuteWithCB`, which is `cb.Execute(fn)`, for a closure that calls the database.
  abbrev pub on_breaker : (A : Type 0) → (sv.Db → Result A × sv.Db) → Action sv (Result A)
  on_breaker A f w =
      let (r, b, d) = sv.cb_execute A f w.breaker w.db in
      (
        r,
        record w {
          breaker = b;
          db = d;
          metrics = state_changes (sv.cb_changes w.breaker b) w.metrics;
        },
      )

  -- `cb.State()`, on the database's breaker.
  abbrev pub breaker_state : Action sv BreakerState
  breaker_state w =
      let (s, b) = sv.cb_state w.breaker in
      (s, record w { breaker = b; metrics = state_changes (sv.cb_changes w.breaker b) w.metrics })

-- `if balanceQuery != "" { _, err = tx.ExecContext(…) }`.
abbrev pub exec_if : (sv : Services) → Option Statement → sv.Tx → Option GoError × sv.Tx
exec_if sv none tx = (none, tx)
exec_if sv (some st) tx = sv.tx_exec st tx
