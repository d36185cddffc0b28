-- ===== src/Digits/Reading.antt =====
-- Printed numbers are read back, so different numbers are printed differently.
use Prim.Native.Char.{code}
use exploding_user_data_scal.Prelude.{
  ℕ, zero, suc, ◌+◌, ◌-◌, ◌*◌, ◌/◌, ◌%◌, ◌≤◌, ◌<◌, String, false, ltb, ◌≡◌, ◌≢◌, sym, ap, ◌∙◌, inl,
  inr, arith, if◌then◌else◌, Bool-cases,
}
use exploding_user_data_scal.Text.{IsFree}
use exploding_user_data_scal.Digits.{digit_code, digit, emit, decimal, hex}

digit_value : ℕ → ℕ
digit_value c = if ltb c b'W' then c - b'0' else c - b'W'

-- The number that digits to a base stand for, after those read so far.
read : ℕ → String → ℕ → ℕ
read base String.[] n = n
read base (String.◌∷◌ c s) n = read base s (n * base + digit_value (code c))

digit_value-digit : (d : ℕ) → d < 16 → digit_value (code (digit d)) ≡ d
unfolding digit_value digit digit_code
digit_value-digit d h = ground arith

ltb-false : (a b : ℕ) → ltb a b ≡ false → b ≤ a
ltb-false a b h = ground arith

last_digit : (base n : ℕ) → 2 ≤ base → (n / base) * base + n % base ≡ n
last_digit base n low = grind arith

last_small : (base n : ℕ) → 2 ≤ base → base ≤ 16 → n % base < 16
last_small base n low high = grind arith

smaller : (fuel base n : ℕ) → 2 ≤ base → n < suc fuel → base ≤ n → n / base < fuel
smaller fuel base n low h big = grind (arith, last_digit base n low)

read-emit :
    (fuel base n : ℕ) (out : String)
    → 2 ≤ base
    → base ≤ 16
    → n < fuel
    → read base (emit fuel base n out) 0 ≡ read base out n
unfolding emit read
read-emit zero base n out low high h = absurd (omega arith)
read-emit (suc fuel) base n out low high h = elim (Bool-cases (ltb n base)) [
  | inl small ↦ rw small (ap (read base out) (omega (arith, digit_value-digit n (ground arith))))
  | inr big ↦ rw big (
      read-emit fuel base (n / base) (String.◌∷◌ (digit (n % base)) out) low high
        (smaller fuel base n low h (ltb-false n base big))
      ∙ ap (read base out) (
          omega (
            arith,
            last_digit base n low,
            digit_value-digit (n % base) (last_small base n low high),
          )))
]

not_dash : (d : ℕ) → code (digit d) ≢ b'-'
unfolding digit digit_code
not_dash d h = ground arith

IsFree-emit :
    (fuel base n : ℕ) (out : String) → IsFree b'-' out → IsFree b'-' (emit fuel base n out)
unfolding emit
IsFree-emit zero base n out h = h
IsFree-emit (suc fuel) base n out h = elim (Bool-cases (ltb n base)) [
  | inl small ↦ rw small (not_dash n, h)
  | inr big ↦ rw big (
      IsFree-emit fuel base (n / base) (String.◌∷◌ (digit (n % base)) out) (not_dash (n % base), h))
]

pub decimal_injective : (a b : ℕ) → decimal a ≡ decimal b → a ≡ b
unfolding decimal read
decimal_injective a b e =
    sym (read-emit (suc a) 10 a "" (omega arith) (omega arith) (omega arith))
    ∙ ap (λ s. read 10 s 0) e
    ∙ read-emit (suc b) 10 b "" (omega arith) (omega arith) (omega arith)

pub hex_injective : (a b : ℕ) → hex a ≡ hex b → a ≡ b
unfolding hex read
hex_injective a b e =
    sym (read-emit (suc a) 16 a "" (omega arith) (omega arith) (omega arith))
    ∙ ap (λ s. read 16 s 0) e
    ∙ read-emit (suc b) 16 b "" (omega arith) (omega arith) (omega arith)

pub decimal-IsFree : (n : ℕ) → IsFree b'-' (decimal n)
unfolding decimal
decimal-IsFree n = IsFree-emit (suc n) 10 n "" tt
