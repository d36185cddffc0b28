-- ===== src/Text.antt =====
-- Texts that are put together around a separating character.
use Prim.Native.Char.{Char, code}
use Prim.Native.String.{◌++◌}
use text.Mathlib.TextLemmas.{nil-append, cons-append, cons-eq-cons}
use exploding_user_data_scal.Prelude.{ℕ, String, ◌≡◌, ◌≢◌, refl, ap, sym, ◌∙◌, arith}

-- The code of the first character, 0 for "".
unfoldable pub head : String → ℕ
head String.[] = 0
head (String.◌∷◌ c s) = code c

pub head-append : (c : Char) (s t : String) → head (String.◌∷◌ c s ++ t) ≡ code c
unfolding head
head-append c s t = rw cons-append

-- No character of the text has this code.
abbrev pub IsFree : ℕ → String → Type 0
IsFree c String.[] = Unit
IsFree c (String.◌∷◌ d s) = (code d ≢ c) × IsFree c s

-- Two texts that are the same are parted at the same first separator.
pub split_at :
    (c : Char) (u v k j : String)
    → IsFree (code c) u
    → IsFree (code c) v
    → u ++ String.◌∷◌ c k ≡ v ++ String.◌∷◌ c j
    → (u ≡ v) × (k ≡ j)
unfolding head
split_at c String.[] String.[] k j hu hv e =
    (refl, (cons-eq-cons.0 (rw (nil-append (String.◌∷◌ c k), nil-append (String.◌∷◌ c j)) at e)).1)
split_at c String.[] (String.◌∷◌ d v) k j hu hv e = absurd (
    hv.0 (
      omega (
        arith,
        ap head e,
        head-append d v (String.◌∷◌ c j),
        ap head (nil-append (String.◌∷◌ c k)),
      )))
split_at c (String.◌∷◌ d u) String.[] k j hu hv e = absurd (
    hu.0 (
      omega (
        arith,
        ap head e,
        head-append d u (String.◌∷◌ c k),
        ap head (nil-append (String.◌∷◌ c j)),
      )))
split_at c (String.◌∷◌ d u) (String.◌∷◌ d' v) k j hu hv e =
    let (same, rest) =
      cons-eq-cons.0
        (rw (cons-append d u (String.◌∷◌ c k), cons-append d' v (String.◌∷◌ c j)) at e) in
    let (us, ks) = split_at c u v k j hu.1 hv.1 rest in (cc, ks)

-- The same with the separator as a text.
pub single-append : (c : Char) (t : String) → String.◌∷◌ c "" ++ t ≡ String.◌∷◌ c t
single-append c t = cons-append c "" t ∙ ap (String.◌∷◌ c) (nil-append t)

pub split_at_text :
    (c : Char) (u v k j : String)
    → IsFree (code c) u
    → IsFree (code c) v
    → u ++ (String.◌∷◌ c "" ++ k) ≡ v ++ (String.◌∷◌ c "" ++ j)
    → (u ≡ v) × (k ≡ j)
split_at_text c u v k j hu hv e =
    split_at c u v k j hu hv
      (sym (ap (λ t. u ++ t) (single-append c k)) ∙ e ∙ ap (λ t. v ++ t) (single-append c j))
