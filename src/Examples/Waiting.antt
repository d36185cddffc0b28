-- ===== src/Examples/Waiting.antt =====
-- The theorems on the timeout and on the collector, at concrete runs.
use exploding_user_data_scal.Prelude.{ℕ, true, false, ◌≡◌, refl, [], ◌∷◌, ◌++◌}
use exploding_user_data_scal.Handler.{Response, json}
use exploding_user_data_scal.Middleware.Timeout.{
  answered, waiting, by_context, Race, initial, gateway_timeout, writes, ends, gives_up, Reach,
  here, next,
}
use exploding_user_data_scal.Middleware.Timeout.Runs.{IsAccounted, Reach-IsAccounted}
use exploding_user_data_scal.Services.Sql.{Pool, read, write}
use exploding_user_data_scal.Collector.{collect_metrics}
use exploding_user_data_scal.Collector.Gauges.{Shown, collect_metrics-Shown}
use exploding_user_data_scal.Examples.Store.{services, Rows}
use exploding_user_data_scal.Examples.Calls.{start, after_request}

abbrev fine : Response
fine = json 200 []

-- The context ends, and then the rest of the chain answers.
abbrev late : Race
late = record {
  chain = answered;
  select = waiting;
  ended = true;
  aborted = false;
  answers = fine ∷ [];
}

late-Reach : Reach "t1" fine initial late
late-Reach = next (next here (ends refl)) (writes refl refl)

-- `select` takes the end of the context: two answers are written.
abbrev twice : Race
twice = record late { select = by_context; answers = gateway_timeout "t1" ∷ fine ∷ [] }

twice-Reach : Reach "t1" fine initial twice
twice-Reach = next late-Reach (gives_up refl refl refl)

Reach-IsAccounted_example : IsAccounted "t1" fine twice
Reach-IsAccounted_example = Reach-IsAccounted "t1" fine twice-Reach

abbrev pub in_use : Pool → Rows → ℕ
in_use write d = 3
in_use read d = 1

-- Two ticks, a request between them.
collect_metrics-Shown_example :
    let found = collect_metrics services in_use ((λ w. w) ∷ []) start in
    let after =
      collect_metrics services in_use (((λ w. w) ∷ []) ++ ((λ w. after_request) ∷ [])) start in
    Shown services in_use after_request after
    × (after.db ≡ after_request.db)
    × (after.redis ≡ after_request.redis)
collect_metrics-Shown_example =
    collect_metrics-Shown services in_use ((λ w. w) ∷ []) (λ w. after_request) start
