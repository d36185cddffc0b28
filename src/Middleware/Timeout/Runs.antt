-- ===== src/Middleware/Timeout/Runs.antt =====
-- What `Timeout` can answer.
use exploding_user_data_scal.Prelude.{String, true, ◌≡◌, refl, ◌⊎◌, List, [], ◌∷◌, arith}
use exploding_user_data_scal.Handler.{Response, object, str}
use exploding_user_data_scal.Middleware.Timeout.{
  Chain, in_next, answered, closed, Select, waiting, by_done, by_context, Race, initial, Step,
  writes, closes, skips, ends, returns, gives_up, aborts, Reach, here, next,
}

module _ (trace_id : String) (answer : Response) where
  -- The answer for a request whose time is over.
  abbrev gone : Response
  gone = record {
    code = 504;
    headers = [];
    body = object (
        ("error", str "request timeout")
        ∷ ("message", str "Request took too long to process")
        ∷ ("trace_id", str trace_id)
        ∷ []);
  }

  -- The answers written, by what the goroutine and the `select` have done.
  abbrev Written : Chain → Select → List Response → Type 0
  Written in_next waiting ws = ws ≡ []
  Written answered waiting ws = ws ≡ answer ∷ []
  Written closed waiting ws = ws ≡ answer ∷ []
  Written in_next by_done ws = ⊥
  Written answered by_done ws = ⊥
  Written closed by_done ws = ws ≡ answer ∷ []
  Written in_next by_context ws = ws ≡ gone ∷ []
  Written answered by_context ws = (ws ≡ gone ∷ answer ∷ []) ⊎ (ws ≡ answer ∷ gone ∷ [])
  Written closed by_context ws =
      (ws ≡ gone ∷ []) ⊎ (ws ≡ gone ∷ answer ∷ []) ⊎ (ws ≡ answer ∷ gone ∷ [])

  abbrev pub IsAccounted : Race → Type 0
  IsAccounted s =
      Written s.chain s.select s.answers
      × (s.select ≡ by_context → s.ended ≡ true)
      × (s.aborted ≡ true → s.select ≡ by_context)

  Step-IsAccounted : {s t : Race} → Step trace_id answer s t → IsAccounted s → IsAccounted t
  Step-IsAccounted (writes c e) h = ground arith
  Step-IsAccounted (closes c e) h = ground arith
  Step-IsAccounted (ends e) h = ground arith
  Step-IsAccounted (skips c a e) h = ground arith
  Step-IsAccounted (aborts w e) h = ground arith
  Step-IsAccounted (returns c w e) h = ground arith
  Step-IsAccounted (gives_up x w e) h = ground arith

  -- The answers that `Timeout` can have written at any time. Until the `select` returns: none, or
  -- that of the rest of the chain. If it has returned by `done`: exactly that one. If it has
  -- returned by the context, which has then ended: a 504, and beside it, before or after, the
  -- chain's own answer if that is written. The chain is aborted only in the last case.
  pub Reach-IsAccounted : {s : Race} → Reach trace_id answer initial s → IsAccounted s
  Reach-IsAccounted here = (refl, (λ e. cc), (λ e. cc))
  Reach-IsAccounted (next r st) = Step-IsAccounted st (Reach-IsAccounted r)
