-- ===== src/Handler/Versions.antt =====
-- Two handlers that read one row and answer by it: when their answers agree.
use exploding_user_data_scal.Prelude.{
  true, ◌≡◌, ◌≢◌, sym, ◌∙◌, ◌⊎◌, inl, inr, arith, Bool-cases, if◌then◌else◌,
}
use exploding_user_data_scal.Values.{GoError, no_rows, is_no_rows, Result, ok, ok-injective, err}
use exploding_user_data_scal.Handler.{Response}

-- The same code, and the same row where both found one; or one of the two failed.
abbrev pub Agrees : (Response → Response → Type 0) → Response → Response → Type 0
Agrees Same a b =
    (a.code ≡ 500) ⊎ ((b.code ≡ 500) ⊎ ((a.code ≡ b.code) × (a.code ≡ 200 → Same a b)))

ok≢err : {A : Type 0} {a : A} {e : GoError} → ok a ≢ err e
ok≢err h = cc

module _ {A : Type 0} (view : Result A) where
  -- An answer by the row in the tables: 200 with what `Is` says of it, 404 where there is none, or
  -- 500.
  pub data Outcome (Is : A → Response → Type 0) (answer : Response) : Type 0 where
    row : (a : A) → view ≡ ok a → answer.code ≡ 200 → Is a answer → Outcome Is answer
    no_row : view ≡ err no_rows → answer.code ≡ 404 → Outcome Is answer
    failure : answer.code ≡ 500 → Outcome Is answer

  pub Outcome-Agrees :
      (Is Is' : A → Response → Type 0) (Same : Response → Response → Type 0) (a b : Response)
      → ((v : A) → Is v a → Is' v b → Same a b)
      → Outcome Is a
      → Outcome Is' b
      → Agrees Same a b
  Outcome-Agrees Is Is' Same a b both (failure h) p = inl h
  Outcome-Agrees Is Is' Same a b both (row v e h is) (failure h') = inr (inl h')
  Outcome-Agrees Is Is' Same a b both (no_row e h) (failure h') = inr (inl h')
  Outcome-Agrees Is Is' Same a b both (row v e h is) (row v' e' h' is') =
      inr (inr (h ∙ sym h', λ found. both v is (rw (ok-injective (sym e ∙ e')) is')))
  Outcome-Agrees Is Is' Same a b both (row v e h is) (no_row e' h') = absurd (ok≢err (sym e ∙ e'))
  Outcome-Agrees Is Is' Same a b both (no_row e h) (row v' e' h' is') = absurd (ok≢err (sym e' ∙ e))
  Outcome-Agrees Is Is' Same a b both (no_row e h) (no_row e' h') =
      inr (inr (h ∙ sym h', λ found. absurd (omega (arith, h, found))))

  -- An error of the query, answered by 404 if it is `sql.ErrNoRows` and by 500 else.
  pub error-Outcome :
      (Is : A → Response → Type 0) (e : GoError) (unknown broken : Response)
      → (is_no_rows e ≡ true → view ≡ err no_rows)
      → unknown.code ≡ 404
      → broken.code ≡ 500
      → Outcome Is (if is_no_rows e then unknown else broken)
  error-Outcome Is e unknown broken h u b = elim (Bool-cases (is_no_rows e)) [
    | inl absent ↦ rw absent (no_row (h absent) u)
    | inr plain ↦ rw plain (failure b)
  ]
