-- ===== src/Middleware/Timeout.antt =====
-- api/middleware/timeout.go: Timeout. Its goroutine runs the rest of the chain and closes `done`,
-- while `select` waits for `done` or for the end of the context: what happens is a sequence of steps, in any
-- order that the two allow. The rest of the chain is one answer that it writes. No route of `main`
-- uses this middleware.
pub mod Runs
use exploding_user_data_scal.Prelude.{String, Bool, true, false, ◌≡◌, List, [], ◌∷◌}
use exploding_user_data_scal.Handler.{Response, str, json}

-- The goroutine: in `c.Next()`, behind its answer, and behind `close(done)`.
pub data Chain : Type 0 where
  in_next answered closed : Chain

-- The `select`: waiting, or returned by one of its cases.
pub data Select : Type 0 where
  waiting by_done by_context : Select

-- The answers are those written so far, the last one first. `ended` is of the context, `aborted` of
-- gin's: the handlers that have not begun are not run.
pub record Race : Type 0 where
  pub chain : Chain
  pub select : Select
  pub ended : Bool
  pub aborted : Bool
  pub answers : List Response

abbrev pub initial : Race
initial = record { chain = in_next; select = waiting; ended = false; aborted = false; answers = [] }

-- The answer of the case `<-ctx.Done()`.
abbrev pub gateway_timeout : String → Response
gateway_timeout trace_id = json 504 (
    ("error", str "request timeout")
    ∷ ("message", str "Request took too long to process")
    ∷ ("trace_id", str trace_id)
    ∷ [])

-- One step, where the rest of the chain answers with `answer`.
pub data Step (trace_id : String) (answer : Response) (s t : Race) : Type 0 where
  -- The rest of the chain writes its answer; a handler that has begun does so after `Abort` too.
  writes :
      s.chain ≡ in_next
      → t ≡ record s { chain = answered; answers = answer ∷ s.answers }
      → Step trace_id answer s t
  -- `close(done)` behind the answer.
  closes : s.chain ≡ answered → t ≡ record s { chain = closed } → Step trace_id answer s t
  -- `close(done)` without one, where `Abort` has come before the handler that answers.
  skips :
      s.chain ≡ in_next
      → s.aborted ≡ true
      → t ≡ record s { chain = closed }
      → Step trace_id answer s t
  -- The deadline passes, or the context of the request is cancelled, as when the client leaves.
  ends : t ≡ record s { ended = true } → Step trace_id answer s t
  -- `case <-done`.
  returns :
      s.chain ≡ closed
      → s.select ≡ waiting
      → t ≡ record s { select = by_done }
      → Step trace_id answer s t
  -- `case <-ctx.Done()`: the answer.
  gives_up :
      s.ended ≡ true
      → s.select ≡ waiting
      → t ≡ record s { select = by_context; answers = gateway_timeout trace_id ∷ s.answers }
      → Step trace_id answer s t
  -- `c.Abort()`, at the end of that case.
  aborts : s.select ≡ by_context → t ≡ record s { aborted = true } → Step trace_id answer s t

pub data Reach (trace_id : String) (answer : Response) (s : Race) : Race → Type 0 where
  here : Reach trace_id answer s s
  next :
      {t u : Race}
      → Reach trace_id answer s t
      → Step trace_id answer t u
      → Reach trace_id answer s u
