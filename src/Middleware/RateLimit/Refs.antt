-- ===== src/Middleware/RateLimit/Refs.antt =====
-- The addresses that the map of limiters holds.
use mathlib.Core.Option as Opt
use mathlib.Core.Bool.{true≢false}
use exploding_user_data_scal.Prelude.{
  ℕ, String, ◌≡◌, ◌≢◌, refl, sym, ◌∙◌, inl, inr, List, [], ◌∷◌, Option, none, Bool-cases, eq_iff,
  ◌==◌, is-ne,
}
use exploding_user_data_scal.Values.{Time}
use exploding_user_data_scal.Services.Laws.{StaysOrGoes}
use exploding_user_data_scal.Middleware.RateLimit.{IpLimiter, lookup, touch, delete}

-- The address of a client's limiter.
abbrev pub ref_in : List IpLimiter → String → Option ℕ
ref_in es ip = Opt.map (λ (l : IpLimiter). l.limiter) (lookup ip es)

pub ref_in-touch :
    (ip j : String) (t : Time) (es : List IpLimiter) → ref_in (touch ip t es) j ≡ ref_in es j
unfolding touch lookup
ref_in-touch ip j t [] = refl
ref_in-touch ip j t (l ∷ ls) =
    let rest = ref_in-touch ip j t ls in
    elim (Bool-cases (l.ip == ip)) [
      | inl this ↦ elim (Bool-cases (l.ip == j)) [
        | inl here ↦ rw this (rw here refl)
        | inr other ↦ rw this (rw other rest)
      ]
      | inr far ↦ elim (Bool-cases (l.ip == j)) [
        | inl here ↦ rw far (rw here refl)
        | inr other ↦ rw far (rw other rest)
      ]
    ]

pub ref_in-delete_self : (ip : String) (es : List IpLimiter) → ref_in (delete ip es) ip ≡ none
unfolding delete lookup
ref_in-delete_self ip [] = refl
ref_in-delete_self ip (l ∷ ls) = elim (Bool-cases (l.ip == ip)) [
  | inl this ↦ rw this (ref_in-delete_self ip ls)
  | inr far ↦ rw far (rw far (ref_in-delete_self ip ls))
]

pub ref_in-delete_ne :
    (ip j : String) (es : List IpLimiter) → ip ≢ j → ref_in (delete ip es) j ≡ ref_in es j
unfolding delete lookup
ref_in-delete_ne ip j [] h = refl
ref_in-delete_ne ip j (l ∷ ls) h =
    let rest = ref_in-delete_ne ip j ls h in
    elim (Bool-cases (l.ip == ip)) [
      | inl this ↦ rw this (rw (is-ne l.ip j (λ e. h (sym ((eq_iff l.ip ip).0 this) ∙ e))) rest)
      | inr far ↦ elim (Bool-cases (l.ip == j)) [
        | inl here ↦ rw far (rw here refl)
        | inr other ↦ rw far (rw other rest)
      ]
    ]

pub ref_in-delete :
    (ip j : String) (es : List IpLimiter) → StaysOrGoes (ref_in es j) (ref_in (delete ip es) j)
ref_in-delete ip j es = elim (Bool-cases (ip == j)) [
  | inl same ↦ inr (rw (← (eq_iff ip j).0 same) (ref_in-delete_self ip es))
  | inr other ↦ inl (ref_in-delete_ne ip j es (λ e. true≢false (sym ((eq_iff ip j).1 e) ∙ other)))
]
