-- ===== src/Middleware/RateLimit.antt =====
-- api/middleware/ratelimit.go. The limiters of golang.org/x/time/rate are a parameter; the map
-- holds pointers to them, so they live in a heap.
pub mod Refs
pub mod WellFormed
pub mod Isolation
pub mod Reachable
pub mod Cleanup
use exploding_user_data_scal.Prelude.{
  ℕ, suc, ◌-◌, String, Bool, true, false, ◌||◌, List, [], ◌∷◌, Option, none, some, map, ltb, eqb,
  ◌==◌, if◌then◌else◌,
}
use exploding_user_data_scal.Prelude.Int.{ℤ}
use exploding_user_data_scal.Values.{Time}
use exploding_user_data_scal.Metrics.{rate_limit_rejected_total}
use exploding_user_data_scal.Config.{get_env_int}
use exploding_user_data_scal.Services.{Services}
use exploding_user_data_scal.Services.Action.{World, Action}
use exploding_user_data_scal.Handler.{Response, str, json}

-- x/time/rate: `NewLimiter` by its rate and burst, and `Allow`, which reads the clock.
pub record Rates (sv : Services) : Type 1 where
  pub Limiter : Type 0
  pub new_limiter : ℤ → ℤ → Limiter
  pub allow : Limiter → sv.Host → Bool × Limiter × sv.Host

-- `ipLimiter`, with its key in the map and the address of its limiter.
pub record IpLimiter : Type 0 where
  pub ip : String
  pub limiter : ℕ
  pub last_seen : Time

-- `limiters` and the heap behind it: the next address and what is at the ones before.
pub record Limiters (A : Type 0) : Type 0 where
  pub entries : List IpLimiter
  pub heap : ℕ → A
  pub next : ℕ

-- `limiters[ip]`.
unfoldable pub lookup : String → List IpLimiter → Option IpLimiter
lookup ip [] = none
lookup ip (l ∷ ls) = let rest = lookup ip ls in if l.ip == ip then some l else rest

-- `l.lastSeen = time.Now()`, for the entry of an address.
unfoldable pub touch : String → Time → List IpLimiter → List IpLimiter
touch ip t [] = []
touch ip t (l ∷ ls) =
    let rest = touch ip t ls in if l.ip == ip then (record l { last_seen = t }) ∷ rest else l ∷ rest

-- `delete(limiters, ip)`.
unfoldable pub delete : String → List IpLimiter → List IpLimiter
delete ip [] = []
delete ip (l ∷ ls) = let rest = delete ip ls in if l.ip == ip then rest else l ∷ rest

-- `time.Since(l.lastSeen) > 10*time.Minute`, at a time.
abbrev pub is_stale : Time → IpLimiter → Bool
is_stale t l = ltb 600000000000 (t - l.last_seen)

module _ {A : Type 0} where
  -- The heap with a limiter at an address.
  abbrev pub put : ℕ → A → (ℕ → A) → ℕ → A
  put a l heap b = if eqb a b then l else heap b

  -- `limiters[ip] = &ipLimiter{limiter: l, lastSeen: t}`, for a new limiter.
  abbrev pub add : String → A → Time → Limiters A → Limiters A
  add ip l t s = record {
    entries = (record { ip = ip; limiter = s.next; last_seen = t }) ∷ s.entries;
    heap = put s.next l s.heap;
    next = suc s.next;
  }

module _ (sv : Services) (rates : Rates sv) where
  -- A limiter of the configured rate and burst.
  abbrev pub configured : rates.Limiter
  configured =
      rates.new_limiter (get_env_int sv.getenv "RATE_LIMIT_RPS" "500")
        (get_env_int sv.getenv "RATE_LIMIT_BURST" "100")

  -- Behind the lookup: the address of the limiter, and the state.
  abbrev pub use_limiter :
      String → Option IpLimiter → Limiters rates.Limiter → Time → ℕ × Limiters rates.Limiter
  use_limiter ip (some l) s t = (l.limiter, record s { entries = touch ip t s.entries })
  use_limiter ip none s t = (s.next, add ip configured t s)

  -- `getLimiter`.
  unfoldable pub get_limiter :
      String → Limiters rates.Limiter → sv.Host → ℕ × Limiters rates.Limiter × sv.Host
  get_limiter ip s h =
      let (t, h') = sv.now h in
      let (a, s') = use_limiter ip (lookup ip s.entries) s t in (a, s', h')

  -- The loop of `cleanupLimiters`, over the entries that it visits; each reads the clock.
  unfoldable pub cleanup : List IpLimiter → List IpLimiter → sv.Host → List IpLimiter × sv.Host
  cleanup [] m h = (m, h)
  cleanup (l ∷ ls) m h =
      let (t, h') = sv.now h in cleanup ls (if is_stale t l then delete l.ip m else m) h'

  -- `cleanupLimiters`.
  abbrev pub cleanup_limiters : Limiters rates.Limiter → sv.Host → Limiters rates.Limiter × sv.Host
  cleanup_limiters s h =
      let (m, h') = cleanup s.entries s.entries h in (record s { entries = m }, h')

  -- The loop of `init`, by what others do to the limiters and the clock while it sleeps.
  unfoldable pub clean_up :
      List (Limiters rates.Limiter × sv.Host → Limiters rates.Limiter × sv.Host)
      → Limiters rates.Limiter × sv.Host
      → Limiters rates.Limiter × sv.Host
  clean_up [] (s, h) = (s, h)
  clean_up (others ∷ rounds) (s, h) =
      let (s', h') = others (s, sv.sleep 300000000000 h) in clean_up rounds (cleanup_limiters s' h')

  module _ (trace_id : String) where
    abbrev pub too_many_requests : Response
    too_many_requests = json 429 (
        ("error", str "rate limit exceeded")
        ∷ ("message", str "Too many requests. Please slow down.")
        ∷ ("retry_after", str "1s")
        ∷ ("trace_id", str trace_id)
        ∷ [])

    -- Behind `limiter.Allow()`: the rest of the chain, or the answer 429.
    abbrev pub unless_limited : Bool → Action sv Response → Action sv Response
    unless_limited true rest w = rest w
    unless_limited false rest w =
        (too_many_requests, record w { metrics = rate_limit_rejected_total ∷ w.metrics })

    -- `RateLimit`, for the client's address and the rest of the chain.
    unfoldable pub rate_limit :
        String
        → Action sv Response
        → Limiters rates.Limiter
        → World sv
        → Response × Limiters rates.Limiter × World sv
    rate_limit ip rest s w =
        let (a, s1, h1) = get_limiter ip s w.host in
        let (allowed, l, h2) = rates.allow (s1.heap a) h1 in
        let (answer, w') = unless_limited allowed rest (record w { host = h2 }) in
        (answer, record s1 { heap = put a l s1.heap }, w')
