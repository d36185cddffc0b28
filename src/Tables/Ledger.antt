-- ===== src/Tables/Ledger.antt =====
-- Balances and statuses by id, and how each statement moves them.
use mathlib.Core.Option as Opt
use exploding_user_data_scal.Prelude.{
  String, ◌≡◌, ◌≢◌, refl, ◌||◌, List, [], ◌∷◌, Option, none, some, map, arith, eq_iff, ◌==◌,
  if◌then◌else◌, Bool-cases, inl, inr,
}
use exploding_user_data_scal.Prelude.Int.{ℤ}
use exploding_user_data_scal.Values.{Time, Float64}
use exploding_user_data_scal.Services.Sql.{Statement, balance_query, NewTransaction}
use exploding_user_data_scal.Tables.{
  Columns, User, Transaction, Tables, mark, adjust, new_row, apply_all, find_user, find_transaction,
}

-- The balance of the user with a stored id, and the status of a transaction.
abbrev pub balance_in : List User → String → Option ℤ
balance_in us j = Opt.map (λ (u : User). u.balance) (find_user j us)

abbrev pub balance_of : Tables → String → Option ℤ
balance_of t j = balance_in t.users j

abbrev pub status_in : List Transaction → String → Option String
status_in rs j = Opt.map (λ (r : Transaction). r.status) (find_transaction j rs)

abbrev pub status_of : Tables → String → Option String
status_of t j = status_in t.transactions j

-- What a transaction of a type does to its user's balance.
abbrev pub payment : Columns → String → Float64 → ℤ → ℤ
payment c type amount =
    if type == "credit"
    then (λ b. c.plus b amount)
    else (if type == "debit" || type == "transfer" then (λ b. c.minus b amount) else (λ b. b))

pub balance-adjust :
    (f : ℤ → ℤ) (id j : String) (us : List User)
    → balance_in (map (adjust f id) us) j
      ≡ (if j == id then Opt.map f (balance_in us j) else balance_in us j)
unfolding find_user
balance-adjust f id j [] = ground arith
balance-adjust f id j (u ∷ us) =
    ground (arith, balance-adjust f id j us, eq_iff u.id id, eq_iff u.id j, eq_iff j id)

pub status-mark :
    (now : Time) (status id j : String) (rs : List Transaction)
    → status_in (map (mark now status id) rs) j
      ≡ (if j == id then Opt.map (λ _. status) (status_in rs j) else status_in rs j)
unfolding find_transaction
status-mark now status id j [] = ground arith
status-mark now status id j (r ∷ rs) =
    ground (arith, status-mark now status id j rs, eq_iff r.id id, eq_iff r.id j, eq_iff j id)

-- Another transaction's row is the same.
pub find_transaction-mark_ne :
    (now : Time) (status id j : String) (rs : List Transaction)
    → j ≢ id
    → find_transaction j (map (mark now status id) rs) ≡ find_transaction j rs
unfolding find_transaction
find_transaction-mark_ne now status id j [] h = refl
find_transaction-mark_ne now status id j (r ∷ rs) h =
    ground (arith, find_transaction-mark_ne now status id j rs h, eq_iff r.id id, eq_iff r.id j)

-- The statements of `balance_query`, as a list.
abbrev pub statements : Option Statement → List Statement
statements none = []
statements (some st) = st ∷ []

Option-map-id : (o : Option ℤ) → Opt.map (λ b. b) o ≡ o
Option-map-id none = refl
Option-map-id (some b) = refl

pub balance-payment :
    (c : Columns) (now : Time) (type : String) (amount : Float64) (id j : String) (t : Tables)
    → balance_of (apply_all c now (statements (balance_query type amount id)) t) j ≡ (
        if j == c.canonical id
        then Opt.map (payment c type amount) (balance_of t j)
        else balance_of t j)
unfolding balance_query
balance-payment c now type amount id j t = elim (Bool-cases (type == "credit")) [
  | inl credit ↦ rw credit (balance-adjust (λ b. c.plus b amount) (c.canonical id) j t.users)
  | inr other ↦ rw other (elim (Bool-cases (type == "debit" || type == "transfer")) [
    | inl paid ↦ rw paid (balance-adjust (λ b. c.minus b amount) (c.canonical id) j t.users)
    | inr none_of ↦ rw none_of (ground (arith, Option-map-id (balance_of t j)))
  ])
]

map-adjust_id : (id : String) (us : List User) → map (adjust (λ b. b) id) us ≡ us
map-adjust_id id [] = refl
map-adjust_id id (u ∷ us) = elim (Bool-cases (u.id == id)) [
  | inl same ↦ rw (same, map-adjust_id id us) refl
  | inr other ↦ rw (other, map-adjust_id id us) refl
]

-- The tables after a payment.
pub tables-payment :
    (c : Columns) (now : Time) (type : String) (amount : Float64) (id : String) (t : Tables)
    → apply_all c now (statements (balance_query type amount id)) t ≡ record {
      users = map (adjust (payment c type amount) (c.canonical id)) t.users;
      transactions = t.transactions;
    }
unfolding balance_query
tables-payment c now type amount id t = elim (Bool-cases (type == "credit")) [
  | inl credit ↦ rw credit refl
  | inr other ↦ rw other (elim (Bool-cases (type == "debit" || type == "transfer")) [
    | inl paid ↦ rw paid refl
    | inr none_of ↦ rw (none_of, map-adjust_id (c.canonical id) t.users) refl
  ])
]

-- A payment leaves the transactions alone.
pub transactions-payment :
    (c : Columns) (now : Time) (type : String) (amount : Float64) (id : String) (t : Tables)
    → (apply_all c now (statements (balance_query type amount id)) t).transactions ≡ t.transactions
unfolding balance_query
transactions-payment c now type amount id t = ground arith

-- The statuses after an INSERT.
pub status-insert :
    (c : Columns) (at : Time) (status : String) (n : NewTransaction) (rs : List Transaction)
    (j : String)
    → status_in (new_row c at status n ∷ rs) j
      ≡ (if j == c.canonical n.id then some status else status_in rs j)
unfolding find_transaction
status-insert c at status n rs j =
    ground (arith, eq_iff j (c.canonical n.id), eq_iff (c.canonical n.id) j)

-- Another user's row is the same.
find_user-adjust_ne :
    (f : ℤ → ℤ) (id j : String) (us : List User)
    → j ≢ id
    → find_user j (map (adjust f id) us) ≡ find_user j us
unfolding find_user
find_user-adjust_ne f id j [] h = refl
find_user-adjust_ne f id j (u ∷ us) h =
    ground (arith, find_user-adjust_ne f id j us h, eq_iff u.id id, eq_iff u.id j)

pub find_user-payment_ne :
    (c : Columns) (now : Time) (type : String) (amount : Float64) (id j : String) (t : Tables)
    → j ≢ c.canonical id
    → find_user j (apply_all c now (statements (balance_query type amount id)) t).users
      ≡ find_user j t.users
unfolding balance_query
find_user-payment_ne c now type amount id j t h = ground (
  arith,
  find_user-adjust_ne (λ b. c.plus b amount) (c.canonical id) j t.users h,
  find_user-adjust_ne (λ b. c.minus b amount) (c.canonical id) j t.users h,
)
