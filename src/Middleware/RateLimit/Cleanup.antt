-- ===== src/Middleware/RateLimit/Cleanup.antt =====
-- Which clients `cleanupLimiters` forgets.
use mathlib.Core.Option as Opt
use mathlib.Core.Bool.{true≢false}
use mathlib.Core.Option.{some-injective}
use exploding_user_data_scal.Prelude.{
  String, Bool, true, false, ◌≡◌, refl, sym, ap, ◌∙◌, ◌⊎◌, inl, inr, List, [], ◌∷◌, Option, none,
  Bool-cases, arith, ◌<◌, ◌-◌, eq_iff, ◌==◌, if◌then◌else◌,
}
use exploding_user_data_scal.Values.{Time}
use exploding_user_data_scal.Services.{Services}
use exploding_user_data_scal.Services.Laws.{StaysOrGoes}
use exploding_user_data_scal.Middleware.RateLimit.{
  Rates, IpLimiter, Limiters, delete, is_stale, cleanup, cleanup_limiters,
}
use exploding_user_data_scal.Middleware.RateLimit.Refs.{
  ref_in, ref_in-delete, ref_in-delete_self, ref_in-delete_ne,
}
use exploding_user_data_scal.Middleware.RateLimit.WellFormed.{limiter_of}

module _ (sv : Services) (rates : Rates sv) where
  StaysOrGoes-trans :
      {A : Type 0} (a b c : Option A) → StaysOrGoes a b → StaysOrGoes b c → StaysOrGoes a c
  StaysOrGoes-trans a b c (inl same) (inl same') = inl (same' ∙ same)
  StaysOrGoes-trans a b c (inr gone) (inl same') = inr (same' ∙ gone)
  StaysOrGoes-trans a b c first (inr gone) = inr gone

  ref_in-visit :
      (j : String) (l : IpLimiter) (m : List IpLimiter) (old : Bool)
      → StaysOrGoes (ref_in m j) (ref_in (if old then delete l.ip m else m) j)
  ref_in-visit j l m true = ref_in-delete l.ip j m
  ref_in-visit j l m false = inl refl

  pub ref_in-cleanup :
      (j : String) (ls m : List IpLimiter) (h : sv.Host)
      → StaysOrGoes (ref_in m j) (ref_in (cleanup sv rates ls m h).0 j)
  unfolding cleanup
  ref_in-cleanup j [] m h = inl refl
  ref_in-cleanup j (l ∷ ls) m h =
      let (t, h') = sv.now h in
      StaysOrGoes-trans _ _ _ (ref_in-visit j l m (is_stale t l))
        (ref_in-cleanup j ls (if is_stale t l then delete l.ip m else m) h')

  -- More than ten minutes, in nanoseconds.
  abbrev pub Stale : Time → IpLimiter → Type 0
  Stale t l = 600000000000 < t - l.last_seen

  is_stale-Stale : (t : Time) (l : IpLimiter) → is_stale t l ≡ true → Stale t l
  is_stale-Stale t l h = ground (arith, h)

  Stale-is_stale : (t : Time) (l : IpLimiter) → Stale t l → is_stale t l ≡ true
  Stale-is_stale t l h = ground (arith, h)

  -- An entry of a client that has not been used for more than ten minutes when the loop comes to it.
  pub data Dropped (j : String) : List IpLimiter → sv.Host → Type 0 where
    here :
        (l : IpLimiter) (ls : List IpLimiter) (h : sv.Host)
        → l.ip ≡ j
        → Stale (sv.now h).0 l
        → Dropped j (l ∷ ls) h
    later :
        (l : IpLimiter) (ls : List IpLimiter) (h : sv.Host)
        → Dropped j ls (sv.now h).1
        → Dropped j (l ∷ ls) h

  gone-stays :
      (j : String) (ls m : List IpLimiter) (h : sv.Host)
      → ref_in m j ≡ none
      → ref_in (cleanup sv rates ls m h).0 j ≡ none
  gone-stays j ls m h gone = elim (ref_in-cleanup j ls m h) [
    | inl same ↦ same ∙ gone
    | inr none_there ↦ none_there
  ]

  cleanup-drops :
      (j : String) (ls m : List IpLimiter) (h : sv.Host)
      → Dropped j ls h
      → ref_in (cleanup sv rates ls m h).0 j ≡ none
  unfolding cleanup
  cleanup-drops j _ m _ (here l ls h this old) =
      gone-stays j ls (if is_stale (sv.now h).0 l then delete l.ip m else m) (sv.now h).1
        (rw (Stale-is_stale (sv.now h).0 l old) (rw this (ref_in-delete_self j m)))
  cleanup-drops j _ m _ (later l ls h d) =
      cleanup-drops j ls (if is_stale (sv.now h).0 l then delete l.ip m else m) (sv.now h).1 d

  visit-keeps :
      (j : String) (l : IpLimiter) (m : List IpLimiter) (old : Bool)
      → (ref_in (if old then delete l.ip m else m) j ≡ ref_in m j) ⊎ ((l.ip ≡ j) × (old ≡ true))
  visit-keeps j l m false = inl refl
  visit-keeps j l m true = elim (Bool-cases (l.ip == j)) [
    | inl this ↦ inr ((eq_iff l.ip j).0 this, refl)
    | inr other ↦
        inl (ref_in-delete_ne l.ip j m (λ e. true≢false (sym ((eq_iff l.ip j).1 e) ∙ other)))
  ]

  cleanup-keeps :
      (j : String) (ls m : List IpLimiter) (h : sv.Host)
      → (ref_in (cleanup sv rates ls m h).0 j ≡ ref_in m j) ⊎ Dropped j ls h
  unfolding cleanup
  cleanup-keeps j [] m h = inl refl
  cleanup-keeps j (l ∷ ls) m h =
      let (t, h') = sv.now h in
      elim (cleanup-keeps j ls (if is_stale t l then delete l.ip m else m) h') [
        | inr d ↦ inr (later l ls h d)
        | inl same ↦ elim (visit-keeps j l m (is_stale t l)) [
          | inl kept ↦ inl (same ∙ kept)
          | inr (this, old) ↦ inr (here l ls h this (is_stale-Stale t l old))
        ]
      ]

  -- `cleanupLimiters` forgets a client when an entry of the client has not been used for more than
  -- ten minutes by the clock at the time that the loop comes to it, and leaves every other client
  -- the limiter that it has.
  pub cleanup_limiters-limiter_of :
      (j : String) (s : Limiters rates.Limiter) (h : sv.Host)
      → let s' = (cleanup_limiters sv rates s h).0 in
        (Dropped j s.entries h → limiter_of s' j ≡ none)
        × ((limiter_of s' j ≡ limiter_of s j) ⊎ Dropped j s.entries h)
  cleanup_limiters-limiter_of j s h = (
    λ d. ap (Opt.map s.heap) (cleanup-drops j s.entries s.entries h d),
    elim (cleanup-keeps j s.entries s.entries h) [
      | inl same ↦ inl (ap (Opt.map s.heap) same)
      | inr d ↦ inr d
    ],
  )
