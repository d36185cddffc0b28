-- ===== src/Collector/Gauges.antt =====
-- What the gauges show after the ticks.
use exploding_user_data_scal.Prelude.{
  ℕ, String, ◌≡◌, List, [], ◌∷◌, ◌++◌, Option, none, some, arith, ◌==◌, if◌then◌else◌,
}
use exploding_user_data_scal.Values.{Result, ok, err}
use exploding_user_data_scal.Metrics.{Metric, db_connections_active, queue_messages_pending}
use exploding_user_data_scal.Queue.{queue_depth}
use exploding_user_data_scal.Services.{Services}
use exploding_user_data_scal.Services.Sql.{Pool, read, write}
use exploding_user_data_scal.Services.Action.{World}
use exploding_user_data_scal.Collector.{collect, collect_metrics}

-- The value that a gauge shows, by the updates: the last one's.
pub pending_gauge : List Metric → Option ℕ
pending_gauge [] = none
pending_gauge (queue_messages_pending n ∷ log) = some n
pending_gauge (other ∷ log) = pending_gauge log

pub connections_gauge : String → List Metric → Option ℕ
connections_gauge pool [] = none
connections_gauge pool (db_connections_active p n ∷ log) =
    let rest = connections_gauge pool log in if p == pool then some n else rest
connections_gauge pool (other ∷ log) = connections_gauge pool log

abbrev pub or_before : Result ℕ → Option ℕ → Option ℕ
or_before (ok n) before = some n
or_before (err e) before = before

module _ (sv : Services) (in_use : Pool → sv.Db → ℕ) where
  -- The gauges at the end of a tick, from the state that it finds and the value shown before.
  abbrev pub Shown : World sv → World sv → Type 0
  Shown before after =
      (connections_gauge "write" after.metrics ≡ some (in_use write before.db))
      × (connections_gauge "read" after.metrics ≡ some (in_use read before.db))
      × (pending_gauge after.metrics
          ≡ or_before (queue_depth sv before).0 (pending_gauge before.metrics))

  collect-Shown : (w : World sv) → Shown w (collect sv in_use w).1
  unfolding collect queue_depth pending_gauge connections_gauge
  collect-Shown w = ground arith

  pub collect-data :
      (w : World sv)
      → ((collect sv in_use w).1.db ≡ w.db) × ((collect sv in_use w).1.redis ≡ w.redis)
  unfolding collect queue_depth
  collect-data w = ground arith

  -- After any ticks, with whatever the rest of the program does before each, the gauges of the
  -- connections show the pools' counts at the last tick; the gauge of the queue shows its depth
  -- there, or what it showed before that tick where the depth could not be read. The collector
  -- moves neither the tables nor the cache.
  pub collect_metrics-Shown :
      (ticks : List (World sv → World sv)) (last : World sv → World sv) (w : World sv)
      → let found = last (collect_metrics sv in_use ticks w) in
        let after = collect_metrics sv in_use (ticks ++ (last ∷ [])) w in
        Shown found after × (after.db ≡ found.db) × (after.redis ≡ found.redis)
  unfolding collect_metrics
  collect_metrics-Shown [] last w =
      let (same_db, same_redis) = collect-data (last w) in
      (collect-Shown (last w), same_db, same_redis)
  collect_metrics-Shown (others ∷ ticks) last w =
      collect_metrics-Shown ticks last (collect sv in_use (others w)).1
