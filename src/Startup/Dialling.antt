-- ===== src/Startup/Dialling.antt =====
-- How often `Init` of api/queue/rabbitmq.go tries to connect.
use exploding_user_data_scal.Prelude.{ℕ, zero, suc, ◌<◌, String, ◌≡◌, inl, inr, arith}
use exploding_user_data_scal.Values.{GoError, Result, ok, err, Result-cases}
use exploding_user_data_scal.Startup.Clients.{Drivers}
use exploding_user_data_scal.Startup.Broker.{dial_rounds}

module _ (dr : Drivers) where
  -- The network after some tries, each with its sleep.
  pub after_tries : String → ℕ → dr.Net → dr.Net
  after_tries url zero n = n
  after_tries url (suc k) n = after_tries url k (dr.sleep 3000000000 (dr.dial url n).1)

  -- The try that comes after so many.
  abbrev pub nth_try : String → ℕ → dr.Net → Result dr.Conn × dr.Net
  nth_try url k n = dr.dial url (after_tries url k n)

  -- How a number of tries ends: the first that succeeds gives the connection, at once; or all have
  -- failed, and the error is the last one's.
  pub data Dialled (url : String) (rounds : ℕ) (n : dr.Net) : Result dr.Conn × dr.Net → Type 0 where
    connected :
        (k : ℕ) (conn : dr.Conn)
        → k < rounds
        → ((j : ℕ) → j < k → (e : GoError) × ((nth_try url j n).0 ≡ err e))
        → (nth_try url k n).0 ≡ ok conn
        → Dialled url rounds n (ok conn, (nth_try url k n).1)
    gave_up :
        (e : GoError)
        → ((j : ℕ) → j < rounds → (e : GoError) × ((nth_try url j n).0 ≡ err e))
        → Dialled url rounds n (err e, after_tries url rounds n)

  -- One failed try before the others.
  failed_before :
      (url : String) (rounds : ℕ) (n : dr.Net) (e : GoError)
      → (dr.dial url n).0 ≡ err e
      → ((j : ℕ)
          → j < rounds
          → (e : GoError) × ((nth_try url j (dr.sleep 3000000000 (dr.dial url n).1)).0 ≡ err e))
      → (j : ℕ) → j < suc rounds
      → (e : GoError) × ((nth_try url j n).0 ≡ err e)
  unfolding after_tries
  failed_before url rounds n e bad others zero h = (e, bad)
  failed_before url rounds n e bad others (suc j) h = others j (omega arith)

  Dialled-later :
      (url : String) (rounds : ℕ) (n : dr.Net) (e : GoError) (r : Result dr.Conn × dr.Net)
      → (dr.dial url n).0 ≡ err e
      → Dialled url rounds (dr.sleep 3000000000 (dr.dial url n).1) r
      → Dialled url (suc rounds) n r
  unfolding after_tries
  Dialled-later url rounds n e r bad (connected k conn low before good) =
      connected (suc k) conn (omega arith) (failed_before url k n e bad before) good
  Dialled-later url rounds n e r bad (gave_up e' before) =
      gave_up e' (failed_before url rounds n e bad before)

  -- The loop of `Init` with a number of tries: the first try that succeeds ends it at once, with its
  -- connection; if none does, it ends after that number of tries, a sleep behind each, with an
  -- error.
  pub dial_rounds-Dialled :
      (url : String) (rounds : ℕ) (e : GoError) (n : dr.Net)
      → Dialled url rounds n (dial_rounds dr url rounds e n)
  unfolding dial_rounds after_tries
  dial_rounds-Dialled url zero e n = gave_up e (λ j h. absurd (omega arith))
  dial_rounds-Dialled url (suc k) e n = elim (Result-cases (dr.dial url n).0) [
    | inl (conn, good) ↦
        rw (good, dial_rounds)
          (connected zero conn (omega arith) (λ j h. absurd (omega arith)) good)
    | inr (e', bad) ↦
        rw (bad, dial_rounds)
          (Dialled-later url k n e' _ bad
            (dial_rounds-Dialled url k e' (dr.sleep 3000000000 (dr.dial url n).1)))
  ]
