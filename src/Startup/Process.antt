-- ===== src/Startup/Process.antt =====
-- The process during its set-up: a step may end it by `log.Fatalf`.
use exploding_user_data_scal.Prelude.{String, Option, none, some}
use exploding_user_data_scal.Values.{GoError, Result, ok, err}

-- The process goes on with a value, or has ended with a message and the error in it.
pub data Outcome (A : Type 0) : Type 0 where
  running : A → Outcome A
  fatal : String → GoError → Outcome A

-- `if err != nil { log.Fatalf(what, err) }`, after a call with a result and after one without.
abbrev pub or_fatal : {A : Type 0} → String → Result A → Outcome A
or_fatal what (ok a) = running a
or_fatal what (err e) = fatal what e

abbrev pub nil_or_fatal : String → Option GoError → Outcome (Unit {0})
nil_or_fatal what none = running tt
nil_or_fatal what (some e) = fatal what e

abbrev pub Boot : Type 0 → Type 0 → Type 0
Boot Net A = Net → Outcome A × Net

module _ {Net : Type 0} where
  abbrev pub done : {A : Type 0} → A → Boot Net A
  done a n = (running a, n)

  -- What comes after a step, which an ended process does not reach.
  abbrev pub continue : {A B : Type 0} → (A → Boot Net B) → Outcome A → Boot Net B
  continue f (running a) n = f a n
  continue f (fatal what e) n = (fatal what e, n)

  infixl 5 ◌>>=◌ ◌>>◌
  abbrev pub ◌>>=◌ : {A B : Type 0} → Boot Net A → (A → Boot Net B) → Boot Net B
  ◌>>=◌ m f n = let (o, n') = m n in continue f o n'

  abbrev pub ◌>>◌ : {A B : Type 0} → Boot Net A → Boot Net B → Boot Net B
  m >> k = m >>= λ _. k

  abbrev pub try : {A : Type 0} → String → (Net → Result A × Net) → Boot Net A
  try what f n = let (r, n') = f n in (or_fatal what r, n')

  abbrev pub check : String → (Net → Option GoError × Net) → Boot Net (Unit {0})
  check what f n = let (o, n') = f n in (nil_or_fatal what o, n')

  -- A call whose result is dropped, or that has none.
  abbrev pub act : (Net → Net) → Boot Net (Unit {0})
  act f n = (running tt, f n)
