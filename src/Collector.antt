-- ===== src/Collector.antt =====
-- api/main.go: collectMetrics. What database/sql counts as connections in use is a parameter.
pub mod Gauges
use exploding_user_data_scal.Prelude.{ℕ, List, [], ◌∷◌}
use exploding_user_data_scal.Values.{Result, ok, err}
use exploding_user_data_scal.Metrics.{db_connections_active, queue_messages_pending}
use exploding_user_data_scal.Queue.{queue_depth}
use exploding_user_data_scal.Services.{Services}
use exploding_user_data_scal.Services.Sql.{Pool, read, write}
use exploding_user_data_scal.Services.Action.{World, Action, pure, ◌>>=◌, ◌>>◌, count}

module _ (sv : Services) (in_use : Pool → sv.Db → ℕ) where
  -- `database.Write.Stats().InUse` and the same of `Read`.
  abbrev pub stats : Pool → Action sv ℕ
  stats pool w = (in_use pool w.db, w)

  abbrev pub report_depth : Result ℕ → Action sv (Unit {0})
  report_depth (ok depth) = count (queue_messages_pending depth)
  report_depth (err e) = pure tt

  -- The body of the loop.
  unfoldable pub collect : Action sv (Unit {0})
  collect = do
    write_stats ← stats write
    read_stats ← stats read
    count (db_connections_active "write" write_stats)
    count (db_connections_active "read" read_stats)
    depth ← queue_depth sv
    report_depth depth

  -- `for range ticker.C`, with what the rest of the program does before each tick.
  unfoldable pub collect_metrics : List (World sv → World sv) → World sv → World sv
  collect_metrics [] w = w
  collect_metrics (others ∷ ticks) w = collect_metrics ticks (collect (others w)).1
