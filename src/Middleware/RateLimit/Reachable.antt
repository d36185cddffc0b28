-- ===== src/Middleware/RateLimit/Reachable.antt =====
-- The states that the limiters can reach, whatever the requests and clean-ups.
use exploding_user_data_scal.Prelude.{ℕ, String, List, [], ◌∷◌}
use exploding_user_data_scal.Services.{Services}
use exploding_user_data_scal.Middleware.RateLimit.{
  Rates, Limiters, lookup, put, get_limiter, cleanup, cleanup_limiters, clean_up,
}
use exploding_user_data_scal.Middleware.RateLimit.WellFormed.{IsWellFormed, IsWellFormed-loss}
use exploding_user_data_scal.Middleware.RateLimit.Isolation.{get_limiter-Got}
use exploding_user_data_scal.Middleware.RateLimit.Cleanup.{ref_in-cleanup}

abbrev All {ℓ κ} : {A : Type ℓ} → (A → Type κ) → List A → Type κ
All P [] = Unit
All P (x ∷ xs) = P x × All P xs

module _ (sv : Services) (rates : Rates sv) where
  -- The mutex makes `getLimiter` and `cleanupLimiters` one step each; `Allow` is another step, at
  -- any address and at any time after, since the address was returned and the mutex released.
  pub data IsReachable : Limiters rates.Limiter → Type 0 where
    initial :
        (heap : ℕ → rates.Limiter) → IsReachable (record { entries = []; heap = heap; next = 0 })
    got :
        (ip : String) (h : sv.Host) (s : Limiters rates.Limiter)
        → IsReachable s
        → IsReachable (get_limiter sv rates ip s h).1
    allowed :
        (a : ℕ) (l : rates.Limiter) (s : Limiters rates.Limiter)
        → IsReachable s
        → IsReachable (record s { heap = put a l s.heap })
    cleaned :
        (h : sv.Host) (s : Limiters rates.Limiter)
        → IsReachable s
        → IsReachable (cleanup_limiters sv rates s h).0

  initial-IsWellFormed :
      (heap : ℕ → rates.Limiter) → IsWellFormed (record { entries = []; heap = heap; next = 0 })
  unfolding lookup
  initial-IsWellFormed heap = (λ ip a there. cc, λ ip j a one two. cc)

  pub cleanup_limiters-IsWellFormed :
      (h : sv.Host) (s : Limiters rates.Limiter)
      → IsWellFormed s
      → IsWellFormed (cleanup_limiters sv rates s h).0
  cleanup_limiters-IsWellFormed h s formed =
      IsWellFormed-loss s (cleanup sv rates s.entries s.entries h).0
        (λ j. ref_in-cleanup sv rates j s.entries s.entries h) formed

  -- In every state that the limiters can reach, each address in the map is one that was allocated,
  -- and no two clients share a limiter.
  pub IsReachable-IsWellFormed : (s : Limiters rates.Limiter) → IsReachable s → IsWellFormed s
  IsReachable-IsWellFormed s (initial heap) = initial-IsWellFormed heap
  IsReachable-IsWellFormed s (got ip h s0 r) =
      (get_limiter-Got sv rates ip s0 h (IsReachable-IsWellFormed s0 r)).0
  IsReachable-IsWellFormed s (allowed a l s0 r) = IsReachable-IsWellFormed s0 r
  IsReachable-IsWellFormed s (cleaned h s0 r) =
      cleanup_limiters-IsWellFormed h s0 (IsReachable-IsWellFormed s0 r)

  -- The clean-up loop stays among the reachable states as long as the others do.
  clean_up-IsReachable :
      (rounds : List (Limiters rates.Limiter × sv.Host → Limiters rates.Limiter × sv.Host))
      (s : Limiters rates.Limiter) (h : sv.Host)
      → All
          (λ others.
            (s' : Limiters rates.Limiter) (h' : sv.Host)
            → IsReachable s'
            → IsReachable (others (s', h')).0)
          rounds
      → IsReachable s
      → IsReachable (clean_up sv rates rounds (s, h)).0
  unfolding clean_up
  clean_up-IsReachable [] s h keep r = r
  clean_up-IsReachable (others ∷ rounds) s h keep r =
      let (s1, h1) = others (s, sv.sleep 300000000000 h) in
      let (s2, h2) = cleanup_limiters sv rates s1 h1 in
      clean_up-IsReachable rounds s2 h2 keep.1
        (cleaned h1 s1 (keep.0 s (sv.sleep 300000000000 h) r))
