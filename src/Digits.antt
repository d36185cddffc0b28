-- ===== src/Digits.antt =====
-- Numbers as text: fmt.Sprintf's "%d" and "%x" of a number that is not negative.
pub mod Reading
use Prim.Native.Char.{Char, char, IsScalar}
use exploding_user_data_scal.Prelude.{
  ℕ, zero, suc, ◌+◌, ◌/◌, ◌%◌, ◌<◌, String, ◌≡◌, refl, ltb, arith, if◌then◌else◌,
}

IsScalar_small : (n : ℕ) → n < 128 → IsScalar n
IsScalar_small n h = ground arith

digit_code : ℕ → ℕ
digit_code d = if ltb d 10 then b'0' + d else b'W' + d

digit_code_small : (n : ℕ) → digit_code (n % 16) < 128
unfolding digit_code
digit_code_small n = ground arith

-- A digit from 0 to 15.
pub digit : ℕ → Char
unfolding digit_code IsScalar_small digit_code_small
digit d = char (digit_code (d % 16)) (IsScalar_small (digit_code (d % 16)) (digit_code_small d))

-- The digits of a number before those in `out`. A number below the fuel has enough of it.
pub emit : ℕ → ℕ → ℕ → String → String
unfolding digit
emit zero base n out = out
emit (suc fuel) base n out =
    let rest = emit fuel base (n / base) (String.◌∷◌ (digit (n % base)) out) in
    if ltb n base then String.◌∷◌ (digit n) out else rest

unfoldable pub decimal : ℕ → String
unfolding emit
decimal n = emit (suc n) 10 n ""

unfoldable pub hex : ℕ → String
unfolding emit
hex n = emit (suc n) 16 n ""

decimal_runs : decimal 1790 ≡ "1790"
unfolding decimal
decimal_runs = refl

hex_runs : hex 48879 ≡ "beef"
unfolding hex
hex_runs = refl
