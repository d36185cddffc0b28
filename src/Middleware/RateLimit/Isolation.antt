-- ===== src/Middleware/RateLimit/Isolation.antt =====
-- What one client's requests do to the limiters of the others.
use mathlib.Core.Option as Opt
use mathlib.Core.Bool.{true≢false}
use mathlib.Core.Option.{some-injective}
use exploding_user_data_scal.Prelude.{
  ℕ, String, Bool, true, false, ◌≡◌, ◌≢◌, refl, sym, ap, ◌∙◌, inl, inr, ◌∷◌, Option, none, some,
  arith, Option-cases, eq_refl, is-ne,
}
use exploding_user_data_scal.Values.{Time}
use exploding_user_data_scal.Services.{Services}
use exploding_user_data_scal.Services.Action.{World, Action}
use exploding_user_data_scal.Handler.{Response}
use exploding_user_data_scal.Middleware.RateLimit.{
  Rates, IpLimiter, Limiters, lookup, touch, add, put, configured, use_limiter, get_limiter,
  rate_limit, unless_limited, too_many_requests,
}
use exploding_user_data_scal.Metrics.{rate_limit_rejected_total}
use exploding_user_data_scal.Middleware.RateLimit.Refs.{ref_in, ref_in-touch}
use exploding_user_data_scal.Middleware.RateLimit.WellFormed.{
  eqb-ne, eqb_self, IsWellFormed, limiter_of, IsWellFormed-loss, ref_in-add, IsWellFormed-add,
}

-- The limiter that a client has, or else a new one.
abbrev pub or_new {ℓ} : {A : Type ℓ} → A → Option A → A
or_new new none = new
or_new new (some l) = l

module _ (sv : Services) (rates : Rates sv) where
  -- What `getLimiter` returns for a client's address: the address of its limiter, which is the one
  -- it had or a new one; the others' are as before.
  abbrev pub Got : String → Limiters rates.Limiter → ℕ → Limiters rates.Limiter → Type 0
  Got ip s a s' =
      IsWellFormed s'
      × (ref_in s'.entries ip ≡ some a)
      × (s'.heap a ≡ or_new (configured sv rates) (limiter_of s ip))
      × ((j : String) → ip ≢ j → limiter_of s' j ≡ limiter_of s j)

  touch-Got :
      (ip : String) (l : IpLimiter) (s : Limiters rates.Limiter) (t : Time)
      → lookup ip s.entries ≡ some l
      → IsWellFormed s
      → Got ip s l.limiter (record s { entries = touch ip t s.entries })
  touch-Got ip l s t there h = (
    IsWellFormed-loss s (touch ip t s.entries) (λ j. inl (ref_in-touch ip j t s.entries)) h,
    ref_in-touch ip ip t s.entries ∙ ap (Opt.map (λ (e : IpLimiter). e.limiter)) there,
    rw there refl,
    λ j other. ap (Opt.map s.heap) (ref_in-touch ip j t s.entries),
  )

  -- A limiter at an address that a client does not have is not the client's.
  limiter_of-put :
      (s : Limiters rates.Limiter) (a : ℕ) (l : rates.Limiter) (j : String)
      → ref_in s.entries j ≢ some a
      → Opt.map (put a l s.heap) (ref_in s.entries j) ≡ limiter_of s j
  limiter_of-put s a l j h = elim (Option-cases (ref_in s.entries j)) [
    | inl no_ref ↦ rw no_ref refl
    | inr (b, there) ↦ rw there (rw (eqb-ne a b (λ e. h (there ∙ ap some (sym e)))) refl)
  ]

  fresh :
      (s : Limiters rates.Limiter) (j : String) → IsWellFormed s → ref_in s.entries j ≢ some s.next
  fresh s j h e = omega (arith, h.0 j s.next e)

  add-Got :
      (ip : String) (s : Limiters rates.Limiter) (t : Time)
      → lookup ip s.entries ≡ none
      → IsWellFormed s
      → Got ip s s.next (add ip (configured sv rates) t s)
  add-Got ip s t absent h =
      let l = configured sv rates in
      (
        IsWellFormed-add ip l t s h,
        ref_in-add ip ip l t s ∙ rw (eq_refl ip) refl,
        rw (eqb_self s.next) (rw absent refl),
        λ j other.
            ap (Opt.map (put s.next l s.heap)) (ref_in-add ip j l t s ∙ rw (is-ne ip j other) refl)
            ∙ limiter_of-put s s.next l j (fresh s j h),
      )

  use_limiter-Got :
      (ip : String) (o : Option IpLimiter) (s : Limiters rates.Limiter) (t : Time)
      → lookup ip s.entries ≡ o
      → IsWellFormed s
      → let (a, s') = use_limiter sv rates ip o s t in Got ip s a s'
  use_limiter-Got ip none s t absent h = add-Got ip s t absent h
  use_limiter-Got ip (some l) s t there h = touch-Got ip l s t there h

  pub get_limiter-Got :
      (ip : String) (s : Limiters rates.Limiter) (h : sv.Host)
      → IsWellFormed s
      → let (a, s', h') = get_limiter sv rates ip s h in Got ip s a s'
  unfolding get_limiter
  get_limiter-Got ip s host h = use_limiter-Got ip (lookup ip s.entries) s (sv.now host).0 refl h

  -- The limiter of the client decides on a request: the one it had, or a new one of the configured
  -- rate. What `Allow` leaves of it is the client's from then on. A request that it allows goes
  -- on; another is answered by 429, and the rest of the chain does not run.
  abbrev pub Decides :
      String
      → String
      → Action sv Response
      → Limiters rates.Limiter
      → World sv
      → Response × Limiters rates.Limiter × World sv
      → Type 0
  Decides trace_id ip rest s w (answer, s', w') =
      let (allowed, l, h) =
        rates.allow (or_new (configured sv rates) (limiter_of s ip)) (sv.now w.host).1 in
      (limiter_of s' ip ≡ some l)
      × (allowed ≡ true → (answer, w') ≡ rest (record w { host = h }))
      × (allowed ≡ false
          → (answer ≡ too_many_requests sv rates trace_id)
            × (w' ≡ record w { host = h; metrics = rate_limit_rejected_total ∷ w.metrics }))

  unless_limited-cases :
      (trace_id : String) (allowed : Bool) (rest : Action sv Response) (w : World sv)
      → let (answer, w') = unless_limited sv rates trace_id allowed rest w in
        (allowed ≡ true → (answer, w') ≡ rest w)
        × (allowed ≡ false
            → (answer ≡ too_many_requests sv rates trace_id)
              × (w' ≡ record w { metrics = rate_limit_rejected_total ∷ w.metrics }))
  unless_limited-cases trace_id true rest w = (λ yes. refl, λ no. absurd (true≢false no))
  unless_limited-cases trace_id false rest w =
      (λ yes. absurd (true≢false (sym yes)), λ no. (refl, refl))

  -- From `limiter.Allow()` on.
  allow-Decides :
      (trace_id ip : String) (rest : Action sv Response) (s s1 : Limiters rates.Limiter)
      (w : World sv) (a : ℕ) (h1 : sv.Host) (x : rates.Limiter)
      → Got ip s a s1
      → or_new (configured sv rates) (limiter_of s ip) ≡ x
      → let (allowed, l, h) = rates.allow (s1.heap a) h1 in
        let (answer, w') = unless_limited sv rates trace_id allowed rest (record w { host = h }) in
        let s' = record s1 { heap = put a l s1.heap } in
        let (allowed', l', h') = rates.allow x h1 in
        ((limiter_of s' ip ≡ some l')
          × (allowed' ≡ true → (answer, w') ≡ rest (record w { host = h' }))
          × (allowed' ≡ false
              → (answer ≡ too_many_requests sv rates trace_id)
                × (w' ≡ record w { host = h'; metrics = rate_limit_rejected_total ∷ w.metrics })))
        × ((j : String) → ip ≢ j → limiter_of s' j ≡ limiter_of s j)
        × IsWellFormed s'
  allow-Decides trace_id ip rest s s1 w a h1 x (formed, there, used, others) new =
      let (allowed, l, h) = rates.allow x h1 in
      let (goes_on, stops) = unless_limited-cases trace_id allowed rest (record w { host = h }) in
      rw (used ∙ new) (
        (rw there (rw (eqb_self a) refl), goes_on, stops),
        λ j other.
            limiter_of-put s1 a l j (λ shared. other (formed.1 ip j a there shared))
            ∙ others j other,
        formed,
      )

  -- `RateLimit` on a request while no two clients share a limiter: the client's own limiter
  -- decides, the limiters of all others are as before, and no two clients share one after it.
  pub rate_limit-Decides :
      (trace_id ip : String) (rest : Action sv Response) (s : Limiters rates.Limiter) (w : World sv)
      → IsWellFormed s
      → let (answer, s', w') = rate_limit sv rates trace_id ip rest s w in
        Decides trace_id ip rest s w (answer, s', w')
        × ((j : String) → ip ≢ j → limiter_of s' j ≡ limiter_of s j)
        × IsWellFormed s'
  unfolding rate_limit get_limiter
  rate_limit-Decides trace_id ip rest s w h =
      let (a, s1, h1) = get_limiter sv rates ip s w.host in
      allow-Decides trace_id ip rest s s1 w a h1 _ (get_limiter-Got ip s w.host h) refl
