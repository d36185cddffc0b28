-- ===== src/Handler/Reads.antt =====
-- Reads of transactions and balances one after the other, through one cache.
use mathlib.Core.Path.{subst}
use exploding_user_data_scal.Prelude.{
  String, ◌≡◌, refl, sym, ◌⊎◌, inl, inr, List, [], ◌∷◌, ◌==◌, eq_iff, Bool-cases, ne_text,
}
use exploding_user_data_scal.Values.{ok, transaction, user_balance}
use exploding_user_data_scal.Cache.Keys.{transaction_key, user_balance_key, keys_disjoint}
use exploding_user_data_scal.Cache.Others.{HoldsCurrent-others}
use exploding_user_data_scal.Services.{Services}
use exploding_user_data_scal.Services.Action.{World, Action}
use exploding_user_data_scal.Services.Laws.{DbLaws, ReplicaLaws, BreakerLaws, RedisLaws, JsonLaws}
use exploding_user_data_scal.Tables.{Tables}
use exploding_user_data_scal.Handler.{Response}
use exploding_user_data_scal.Handler.GetTransaction.{get_transaction}
use exploding_user_data_scal.Handler.GetTransaction.Coherent as TransactionCache
use exploding_user_data_scal.Handler.GetTransaction.Answers as Transactions
use exploding_user_data_scal.Handler.GetTransaction.Others.{get_transaction-OthersStay}
use exploding_user_data_scal.Handler.GetUserBalance.{get_user_balance}
use exploding_user_data_scal.Handler.GetUserBalance.Answers as Balances
use exploding_user_data_scal.Handler.GetUserBalance.Others.{get_user_balance-OthersStay}

-- A GET of the two, by its trace id and its path's parameter.
pub data Read : Type 0 where
  a_transaction : String → String → Read
  a_balance : String → String → Read

unfoldable pub respond : (sv : Services) → Read → Action sv Response
respond sv (a_transaction trace_id id) = get_transaction sv trace_id id
respond sv (a_balance trace_id id) = get_user_balance sv trace_id id

unfoldable pub run_reads : (sv : Services) → List Read → Action sv (List Response)
run_reads sv [] w = ([], w)
run_reads sv (read ∷ reads) w =
    let (answer, w1) = respond sv read w in
    let (answers, w2) = run_reads sv reads w1 in (answer ∷ answers, w2)

module _ (sv : Services) (db : DbLaws sv) (replica : ReplicaLaws sv db) (breaker : BreakerLaws sv)
    (redis : RedisLaws sv) (json : JsonLaws sv) where
  open db use {tables}

  -- An answer that is right for these tables; 400 for an empty id.
  abbrev pub Right : Tables → Read → Response → Type 0
  Right t (a_transaction trace_id id) answer =
      ((id ≡ "") × (answer.code ≡ 400))
      ⊎ Transactions.Shows sv trace_id db replica breaker redis json t id answer
  Right t (a_balance trace_id id) answer =
      ((id ≡ "") × (answer.code ≡ 400))
      ⊎ Balances.Shows sv trace_id db replica breaker redis json t id answer

  pub data AllRight (t : Tables) : List Read → List Response → Type 0 where
    none_left : AllRight t [] []
    one_more :
        (read : Read) (answer : Response) (reads : List Read) (answers : List Response)
        → Right t read answer
        → AllRight t reads answers
        → AllRight t (read ∷ reads) (answer ∷ answers)

  -- The cached transactions and balances are those in the rows.
  abbrev pub IsCoherent : sv.Redis → Tables → Type 0
  IsCoherent r t =
      TransactionCache.IsCoherent sv db redis json r t × Balances.IsCoherent sv db redis r t

  abbrev pub IsCurrent : Tables → World sv → Type 0
  IsCurrent t w = (tables w.db ≡ t) × IsCoherent w.redis t

  -- The answer is right, and the state is still current.
  abbrev Kept : Tables → Read → Response × World sv → Type 0
  Kept t read (answer, w') = Right t read answer × IsCurrent t w'

  transaction-Kept :
      (trace_id id : String) (w : World sv)
      → IsCoherent w.redis (tables w.db)
      → Kept (tables w.db) (a_transaction trace_id id) (get_transaction sv trace_id id w)
  transaction-Kept trace_id id w (ours, theirs) = elim (Bool-cases (id == "")) [
    | inl empty ↦
        unfold get_transaction in
        rw empty (inl ((eq_iff id "").0 empty, refl), (refl, (ours, theirs)))
    | inr other ↦
        let named = ne_text id "" other in
        let (shows, (rows, kept)) =
          Transactions.get_transaction-Shows sv trace_id db replica breaker redis json id w named
            ours in
        let apart = λ (i : String). (keys_disjoint id i "" "").0 in
        (
          inr shows,
          (
            rows,
            (
              kept,
              HoldsCurrent-others sv redis user_balance user_balance_key
                  (Balances.Matches sv db (tables w.db)) (transaction_key id) w.redis
                  (get_transaction sv trace_id id w).1.redis apart
                  (get_transaction-OthersStay sv trace_id redis id w) theirs,
            ),
          ),
        )
  ]

  balance-Kept :
      (trace_id id : String) (w : World sv)
      → IsCoherent w.redis (tables w.db)
      → Kept (tables w.db) (a_balance trace_id id) (get_user_balance sv trace_id id w)
  balance-Kept trace_id id w (theirs, ours) = elim (Bool-cases (id == "")) [
    | inl empty ↦
        unfold get_user_balance in
        rw empty (inl ((eq_iff id "").0 empty, refl), (refl, (theirs, ours)))
    | inr other ↦
        let named = ne_text id "" other in
        let (shows, (rows, kept)) =
          Balances.get_user_balance-Shows sv trace_id db replica breaker redis json id w named
            ours in
        let apart = λ (i : String) (e : user_balance_key id ≡ transaction_key i).
          (keys_disjoint i id "" "").0 (sym e) in
        (
          inr shows,
          (
            rows,
            (
              HoldsCurrent-others sv redis transaction transaction_key
                  (λ i txn. TransactionCache.view sv db (tables w.db) i ≡ ok txn)
                  (user_balance_key id) w.redis (get_user_balance sv trace_id id w).1.redis apart
                  (get_user_balance-OthersStay sv trace_id redis id w) theirs,
              kept,
            ),
          ),
        )
  ]

  pub respond-Kept :
      (t : Tables) (read : Read) (w : World sv) → IsCurrent t w → Kept t read (respond sv read w)
  unfolding respond
  respond-Kept t read w (rows, coherent) =
      subst (λ (x : Tables). IsCoherent w.redis x → Kept x read (respond sv read w)) rows
        (here read) coherent
    where
      here :
          (read : Read)
          → IsCoherent w.redis (tables w.db)
          → Kept (tables w.db) read (respond sv read w)
      here (a_transaction trace_id id) = transaction-Kept trace_id id w
      here (a_balance trace_id id) = balance-Kept trace_id id w

  run_reads-from :
      (t : Tables) (reads : List Read) (w : World sv)
      → IsCurrent t w
      → let (answers, w') = run_reads sv reads w in AllRight t reads answers × IsCurrent t w'
  unfolding run_reads
  run_reads-from t [] w h = (none_left, h)
  run_reads-from t (read ∷ reads) w h =
      let (answer, w1) = respond sv read w in
      let (right, h1) = respond-Kept t read w h in
      let (rest, h2) = run_reads-from t reads w1 h1 in
      (one_more read answer reads (run_reads sv reads w1).0 right rest, h2)

  -- While the read pool answers by the tables, and the cached transactions and balances are those
  -- in the tables, any GETs of transactions and balances in any order are each answered right: the
  -- row in the tables with 200, 404 where there is none, 400 for an empty id, or 500. After them no
  -- row has changed, and the cached transactions and balances are still those in the tables.
  pub run_reads-AllRight :
      (reads : List Read) (w : World sv)
      → IsCoherent w.redis (tables w.db)
      → let (answers, w') = run_reads sv reads w in
        AllRight (tables w.db) reads answers × IsCurrent (tables w.db) w'
  run_reads-AllRight reads w coherent = run_reads-from (tables w.db) reads w (refl, coherent)
