-- ===== src/Services/Laws/Reads.antt =====
-- What the answer of a query says about the tables, also behind the circuit breaker.
use mathlib.Core.Bool.{true≢false}
use exploding_user_data_scal.Prelude.{true, ◌≡◌, refl, sym, ap, ◌∙◌, inl, inr}
use exploding_user_data_scal.Values.{GoError, no_rows, is_no_rows, Result, ok, err}
use exploding_user_data_scal.Services.{Services}
use exploding_user_data_scal.Services.Action.{World, Action, on_breaker}
use exploding_user_data_scal.Services.Laws.{DbLaws, BreakerLaws, Answers}
use exploding_user_data_scal.Tables.{Tables}
use exploding_user_data_scal.Handler.{map_ok}

err-injective {ℓ} : {A : Type ℓ} {e e' : GoError} → ◌≡◌ {A = Result A} (err e) (err e') → e ≡ e'
err-injective h = cc

no_rows_eq : (e : GoError) → is_no_rows e ≡ true → e ≡ no_rows
no_rows_eq no_rows h = refl
no_rows_eq (GoError.wrapped what e) h = cc
no_rows_eq (GoError.other what) h = cc

module _ {A : Type 0} where
  -- A row is the one in the tables.
  pub Answers-ok : (a : A) (v : Result A) → Answers (ok a) v → v ≡ ok a
  Answers-ok a v (inl current) = sym current
  Answers-ok a v (inr (e, bad, plain)) = cc

  -- `sql.ErrNoRows` says that the tables have none.
  pub Answers-no_rows :
      (e : GoError) (v : Result A) → Answers (err e) v → is_no_rows e ≡ true → v ≡ err no_rows
  Answers-no_rows e v (inl current) absent = sym current ∙ ap err (no_rows_eq e absent)
  Answers-no_rows e v (inr (e', bad, plain)) absent =
      absurd (true≢false (sym absent ∙ ap is_no_rows (err-injective bad) ∙ plain))

pub Answers-map_ok :
    {A B : Type 0} (f : A → B) (r s : Result A) → Answers r s → Answers (map_ok f r) (map_ok f s)
Answers-map_ok f r s (inl current) = inl (ap (map_ok f) current)
Answers-map_ok f r s (inr (e, bad, plain)) = inr (e, ap (map_ok f) bad, plain)

-- The breaker hands the answer on, or rejects the call with an error of its own.
pub on_breaker-Answers :
    (sv : Services) (db : DbLaws sv) (breaker : BreakerLaws sv) (A : Type 0)
    (f : sv.Db → Result A × sv.Db) (view : Tables → Result A)
    → ((d : sv.Db) → Answers (f d).0 (view (db.tables d)))
    → ((d : sv.Db) → db.tables (f d).1 ≡ db.tables d)
    → (w : World sv)
    → let (row, w') = on_breaker sv A f w in
      Answers row (view (db.tables w.db)) × (db.tables w'.db ≡ db.tables w.db)
on_breaker-Answers sv db breaker A f view answers keeps w =
    elim (breaker.execute_cases A f w.breaker w.db) [
      | inl (e, plain, rejected, same) ↦ (inr (e, rejected, plain), ap db.tables same)
      | inr (result, moved) ↦ (rw result (answers w.db), ap db.tables moved ∙ keeps w.db)
    ]

module _ (sv : Services) (db : DbLaws sv) where
  open db use {tables}

  -- An action that leaves every row alone.
  abbrev pub KeepsTables : {A : Type 0} → Action sv A → Type 0
  KeepsTables m = (w : World sv) → tables (m w).1.db ≡ tables w.db

module _ (sv : Services) (db : DbLaws sv) (breaker : BreakerLaws sv) where
  open db use {tables}

  pub on_breaker-KeepsTables :
      (A : Type 0) (f : sv.Db → Result A × sv.Db)
      → ((d : sv.Db) → tables (f d).1 ≡ tables d)
      → KeepsTables sv db (on_breaker sv A f)
  on_breaker-KeepsTables A f keeps w = elim (breaker.execute_cases A f w.breaker w.db) [
    | inl (e, plain, rejected, same) ↦ ap tables same
    | inr (result, moved) ↦ ap tables moved ∙ keeps w.db
  ]
