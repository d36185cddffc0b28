-- ===== src/Middleware/RateLimit/WellFormed.antt =====
-- The invariant of the limiters: each client has its own.
use mathlib.Core.Option as Opt
use mathlib.Core.Option.{some-injective}
use exploding_user_data_scal.Prelude.{
  ℕ, suc, ◌<◌, String, true, false, ◌≡◌, ◌≢◌, refl, sym, ◌∙◌, ◌⊎◌, inl, inr, List, Option, some,
  arith, eqb, Bool-cases, eq_iff, ◌==◌, if◌then◌else◌,
}
use exploding_user_data_scal.Values.{Time}
use exploding_user_data_scal.Services.Laws.{StaysOrGoes}
use exploding_user_data_scal.Middleware.RateLimit.{IpLimiter, Limiters, lookup, add}
use exploding_user_data_scal.Middleware.RateLimit.Refs.{ref_in}

pub eqb-ne : (a b : ℕ) → a ≢ b → eqb a b ≡ false
eqb-ne a b h = ground arith

pub eqb_self : (a : ℕ) → eqb a a ≡ true
eqb_self a = ground arith

was-there :
    (es es' : List IpLimiter) (ip : String) (a : ℕ)
    → StaysOrGoes (ref_in es ip) (ref_in es' ip)
    → ref_in es' ip ≡ some a
    → ref_in es ip ≡ some a
was-there es es' ip a (inl stays) h = sym stays ∙ h
was-there es es' ip a (inr gone) h = cc

module _ {A : Type 0} where
  -- Every address in the map is one of the heap's, and no two clients share one.
  abbrev pub IsWellFormed : Limiters A → Type 0
  IsWellFormed s =
      ((ip : String) (a : ℕ) → ref_in s.entries ip ≡ some a → a < s.next)
      × ((ip j : String) (a : ℕ)
          → ref_in s.entries ip ≡ some a
          → ref_in s.entries j ≡ some a
          → ip ≡ j)

  -- The limiter that a client has now.
  abbrev pub limiter_of : Limiters A → String → Option A
  limiter_of s ip = Opt.map s.heap (ref_in s.entries ip)

  pub IsWellFormed-loss :
      (s : Limiters A) (es : List IpLimiter)
      → ((ip : String) → StaysOrGoes (ref_in s.entries ip) (ref_in es ip))
      → IsWellFormed s
      → IsWellFormed (record s { entries = es })
  IsWellFormed-loss s es keeps h = (
    λ ip a there. h.0 ip a (was-there s.entries es ip a (keeps ip) there),
    λ ip j a one two.
        h.1 ip j a (was-there s.entries es ip a (keeps ip) one)
          (was-there s.entries es j a (keeps j) two),
  )

  pub ref_in-add :
      (ip j : String) (l : A) (t : Time) (s : Limiters A)
      → ref_in (add ip l t s).entries j ≡ (if ip == j then some s.next else ref_in s.entries j)
  unfolding lookup
  ref_in-add ip j l t s = elim (Bool-cases (ip == j)) [
    | inl same ↦ rw same refl
    | inr other ↦ rw other refl
  ]

  pub IsWellFormed-add :
      (ip : String) (l : A) (t : Time) (s : Limiters A)
      → IsWellFormed s
      → IsWellFormed (add ip l t s)
  IsWellFormed-add ip l t s h = (
    λ j a there. bounded j a (Bool-cases (ip == j)) (sym (ref_in-add ip j l t s) ∙ there),
    λ j k a one two.
        single j k a (Bool-cases (ip == j)) (Bool-cases (ip == k))
          (sym (ref_in-add ip j l t s) ∙ one) (sym (ref_in-add ip k l t s) ∙ two),
  )
    where
      bounded :
          (j : String) (a : ℕ)
          → ((ip == j) ≡ true) ⊎ ((ip == j) ≡ false)
          → (if ip == j then some s.next else ref_in s.entries j) ≡ some a
          → a < suc s.next
      bounded j a (inl same) e = omega (arith, some-injective s.next a (rw same at e))
      bounded j a (inr other) e = omega (arith, h.0 j a (rw other at e))

      single :
          (j k : String) (a : ℕ)
          → ((ip == j) ≡ true) ⊎ ((ip == j) ≡ false)
          → ((ip == k) ≡ true) ⊎ ((ip == k) ≡ false)
          → (if ip == j then some s.next else ref_in s.entries j) ≡ some a
          → (if ip == k then some s.next else ref_in s.entries k) ≡ some a
          → j ≡ k
      single j k a (inl one) (inl two) e e' = sym ((eq_iff ip j).0 one) ∙ (eq_iff ip k).0 two
      single j k a (inl one) (inr two) e e' =
          absurd (omega (arith, some-injective s.next a (rw one at e), h.0 k a (rw two at e')))
      single j k a (inr one) (inl two) e e' =
          absurd (omega (arith, some-injective s.next a (rw two at e'), h.0 j a (rw one at e)))
      single j k a (inr one) (inr two) e e' = h.1 j k a (rw one at e) (rw two at e')
