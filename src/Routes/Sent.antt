-- ===== src/Routes/Sent.antt =====
-- What the requests at the server leave in the queue.
use mathlib.Core.Path.{subst}
use mathlib.Core.Logic.Or
use mathlib.Core.List.{
  Mem, Mem-prop, Subset, mem-append, mem-append_left, mem-append_right, mem-cast, mem-cons_self,
  eq-or-mem_of_mem-cons, not-mem-nil,
}
use exploding_user_data_scal.Prelude.{
  ℕ, String, ◌≡◌, refl, sym, ap, ◌∙◌, inl, inr, List, [], ◌∷◌, ◌++◌, eqb, if◌then◌else◌,
}
use exploding_user_data_scal.Values.{
  Result, ok, err, ok-injective, CreateTransactionRequest, TransactionMessage, message, Time,
}
use exploding_user_data_scal.Queue.{publishing}
use exploding_user_data_scal.Services.{Services, Publishing}
use exploding_user_data_scal.Services.Action.{World, Action, breaker_state}
use exploding_user_data_scal.Services.Laws.{DbLaws, BrokerLaws, BreakerLaws, JsonLaws}
use exploding_user_data_scal.Tables.Payments.{Payment, of_message, of_request}
use exploding_user_data_scal.Handler.{Response}
use exploding_user_data_scal.Handler.CreateTransaction.{new_message}
use exploding_user_data_scal.Handler.CreateTransaction.Queued.{Queued, taken, dropped, warned}
use exploding_user_data_scal.Handler.CreateTransaction.Created.{
  handled, rejected, made, refused, reply_lost, Created,
}
use exploding_user_data_scal.Middleware.CircuitBreaker.Gate.{Gated, in_test, passed, stopped}
use exploding_user_data_scal.Server.{Route, post_transactions, post_transactions_v0}
use exploding_user_data_scal.Routes.Payments.{paid_by_code, paid_on}

-- The payment that a call of CreateTransaction accepts, by its code and its body.
abbrev pub accepted_by_code : ℕ → Result CreateTransactionRequest → List Payment
accepted_by_code code (err e) = []
accepted_by_code code (ok req) = if eqb code 202 then of_request req ∷ [] else []

-- The payment that an answer accepts: code 202 of POST /transactions, 200 of POST /v0/transactions.
abbrev pub accepted_on : Route → ℕ → Result CreateTransactionRequest → List Payment
accepted_on post_transactions code decoded = accepted_by_code code decoded
accepted_on post_transactions_v0 code decoded = paid_by_code code decoded
accepted_on other code decoded = []

-- A request that pays is accepted.
pub paid-accepted :
    (route : Route) (code : ℕ) (r : Result CreateTransactionRequest)
    → Subset (paid_on route code r) (accepted_on route code r)
paid-accepted post_transactions_v0 code r p there = there
paid-accepted other code r p there = absurd (not-mem-nil there)

module _ (sv : Services) (broker : BrokerLaws sv) where
  open broker use {messages}

  -- Each message of the queue has its payment in the list.
  abbrev pub Backed : List Payment → sv.Broker → Type 0
  Backed ps b =
      (p : Publishing sv.Bytes) (msg : TransactionMessage)
      → Mem p (messages b)
      → sv.unmarshal message p.body ≡ ok msg
      → Mem (of_message msg) ps

  -- The queue has become one whose messages are the ones before, or have a payment of this list.
  abbrev pub Grown : List Payment → sv.Broker → sv.Broker → Type 0
  Grown more before after = (ps : List Payment) → Backed ps before → Backed (ps ++ more) after

  pub Subset-Grown :
      (more : List Payment) (before after : sv.Broker)
      → Subset (messages after) (messages before)
      → Grown more before after
  Subset-Grown more before after fewer ps backed p msg there decoded =
      mem-append_left more (backed p msg (fewer p there) decoded)

  pub same-Grown :
      (more : List Payment) (before after : sv.Broker) → after ≡ before → Grown more before after
  same-Grown more before after same =
      Subset-Grown more before after
        (λ p there. subst (λ (b : sv.Broker). Mem p (messages b)) same there)

  module _ (json : JsonLaws sv) where
    one_sent-Grown :
        (t : String) (req : CreateTransactionRequest) (id : String) (at sent : Time) (b : sv.Bytes)
        (before after : sv.Broker)
        → sv.marshal message (new_message sv t req id at) ≡ ok b
        → messages after
          ≡ messages before ++ (publishing sv (new_message sv t req id at) sent b ∷ [])
        → Grown (of_request req ∷ []) before after
    one_sent-Grown t req id at sent b before after marshalled one_sent ps backed p msg there
          decoded =
        Or.elim Mem-prop (mem-append.0 (subst (Mem p) one_sent there))
          (λ old. mem-append_left (of_request req ∷ []) (backed p msg old decoded))
          (λ new. mem-append_right ps (
            Or.elim Mem-prop (eq-or-mem_of_mem-cons new)
              (λ is_it. mem-cast (same_payment is_it) mem-cons_self)
              (λ no_more. absurd (not-mem-nil no_more))))
      where
        same_payment :
            p ≡ publishing sv (new_message sv t req id at) sent b → of_message msg ≡ of_request req
        same_payment is_it =
            let as_sent =
              json.unmarshal-marshal message (new_message sv t req id at) b marshalled in
            let same_body = ap (λ (q : Publishing sv.Bytes). q.body) is_it in
            ap of_message
              (ok-injective (sym decoded ∙ ap (sv.unmarshal message) same_body ∙ as_sent))

    Queued-Grown :
        (t : String) (req : CreateTransactionRequest) (id ref : String) (answer : Response)
        (before after : sv.Broker)
        → Queued sv t broker req id ref answer before after
        → Grown (of_request req ∷ []) before after
    Queued-Grown t req id ref answer before after (taken said (at, sent, b, good, one_sent)) =
        one_sent-Grown t req id at sent b before after good one_sent
    Queued-Grown t req id ref answer before after (dropped said full none_sent) =
        Subset-Grown (of_request req ∷ []) before after (λ p there. subst (Mem p) none_sent there)
    Queued-Grown t req id ref answer before after
          (warned said (inl (at, sent, b, good, one_sent))) =
        one_sent-Grown t req id at sent b before after good one_sent
    Queued-Grown t req id ref answer before after (warned said (inr none_sent)) =
        Subset-Grown (of_request req ∷ []) before after (λ p there. subst (Mem p) none_sent there)

    -- What a call of CreateTransaction leaves in the queue.
    pub Created-Grown :
        (t : String) (db : DbLaws sv) (breaker : BreakerLaws sv) (body : sv.Bytes) (w : World sv)
        (answer : Response) (w' : World sv)
        → Created sv t db broker breaker body w answer w'
        → Grown (accepted_by_code answer.code (sv.decode_create body)) w.broker w'.broker
    Created-Grown t db breaker body w answer w' (rejected code rows same) = same-Grown _ _ _ same
    Created-Grown t db breaker body w answer w'
          (handled req decoded valid active (refused code rows same)) =
        same-Grown _ _ _ same
    Created-Grown t db breaker body w answer w'
          (handled req decoded valid active (reply_lost id ref at code rows same)) =
        same-Grown _ _ _ same
    Created-Grown t db breaker body w answer w'
          (handled req decoded valid active (made id ref at code rows queued)) =
        rw (decoded, code) (Queued-Grown t req id ref answer w.broker w'.broker queued)

    -- The circuit breaker sends nothing by itself.
    pub Gated-Grown :
        (t : String) (more : ℕ → List Payment) (rest : Action sv Response) (w : World sv)
        (r : Response × World sv)
        → ((v : World sv) → Grown (more (rest v).0.code) v.broker (rest v).1.broker)
        → Gated sv t rest w r
        → Grown (more r.0.code) w.broker r.1.broker
    Gated-Grown t more rest w r grows (in_test test) = grows w
    Gated-Grown t more rest w r grows (passed works) = grows (breaker_state sv w).1
    Gated-Grown t more rest w r grows (stopped broken) = same-Grown _ w.broker w.broker refl
