-- ===== src/Tables/Payments.antt =====
-- Payments: what they do to the balance of each user, in their order.
use mathlib.Core.Option as Opt
use exploding_user_data_scal.Prelude.{
  String, ◌≡◌, refl, ap, inl, inr, List, [], ◌∷◌, ◌++◌, Option, none, some, arith, ◌==◌,
  if◌then◌else◌, Bool-cases,
}
use exploding_user_data_scal.Prelude.Int.{ℤ}
use exploding_user_data_scal.Values.{Float64, TransactionMessage, CreateTransactionRequest}
use exploding_user_data_scal.Tables.{Columns}
use exploding_user_data_scal.Tables.Ledger.{payment}

-- The payment of a message or of a request.
pub record Payment : Type 0 where
  pub user_id : String
  pub type : String
  pub amount : Float64

abbrev pub of_message : TransactionMessage → Payment
of_message msg = record { user_id = msg.user_id; type = msg.type; amount = msg.amount }

abbrev pub of_request : CreateTransactionRequest → Payment
of_request req = record { user_id = req.user_id; type = req.type; amount = req.amount }

-- The payments of a list that go to one user, in their order.
pub pay_all : Columns → String → List Payment → ℤ → ℤ
pay_all c j [] b = b
pay_all c j (p ∷ ps) b =
    pay_all c j ps (if j == c.canonical p.user_id then payment c p.type p.amount b else b)

pub map-pay_nil : (c : Columns) (j : String) (o : Option ℤ) → Opt.map (pay_all c j []) o ≡ o
unfolding pay_all
map-pay_nil c j none = refl
map-pay_nil c j (some b) = refl

pub map-pay_one :
    (c : Columns) (j : String) (p : Payment) (o : Option ℤ)
    → Opt.map (pay_all c j (p ∷ [])) o
      ≡ (if j == c.canonical p.user_id then Opt.map (payment c p.type p.amount) o else o)
unfolding pay_all
map-pay_one c j p none = ground arith
map-pay_one c j p (some b) = elim (Bool-cases (j == c.canonical p.user_id)) [
  | inl same ↦ rw same refl
  | inr other ↦ rw other refl
]

pub pay_all-append :
    (c : Columns) (j : String) (xs ys : List Payment) (b : ℤ)
    → pay_all c j (xs ++ ys) b ≡ pay_all c j ys (pay_all c j xs b)
unfolding pay_all
pay_all-append c j [] ys b = refl
pay_all-append c j (x ∷ xs) ys b = pay_all-append c j xs ys _

pub map-pay-append :
    (c : Columns) (j : String) (xs ys : List Payment) (o : Option ℤ)
    → Opt.map (pay_all c j (xs ++ ys)) o ≡ Opt.map (pay_all c j ys) (Opt.map (pay_all c j xs) o)
map-pay-append c j xs ys none = refl
map-pay-append c j xs ys (some b) = ap some (pay_all-append c j xs ys b)
