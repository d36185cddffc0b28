-- ===== src/Config.antt =====
-- Settings from the environment: `getEnv`, which the packages cache, db, middleware and queue each
-- declare alike, and what they use of Go's library to read a number of seconds:
-- strings.TrimSpace, strconv.Atoi and the int64 product of `time.Duration`.
pub mod Numbers
mod Tests
use Prim.Native.Char.{Char, code}
use exploding_user_data_scal.Prelude.{
  ℕ, ◌+◌, ◌-◌, ◌*◌, ◌%◌, ◌^◌, String, Bool, true, false, ◌&&◌, ◌||◌, ltb, leb, ◌==◌, if◌then◌else◌,
}
use exploding_user_data_scal.Prelude.Int.{ℤ, pos, negsuc, ◌*ℤ◌}

-- unicode.IsSpace, on a code point.
pub is_space : ℕ → Bool
is_space c =
    (leb 9 c && leb c 13)
    || (leb 32 c && leb c 32)
    || (leb 0x85 c && leb c 0x85)
    || (leb 0xa0 c && leb c 0xa0)
    || (leb 0x1680 c && leb c 0x1680)
    || (leb 0x2000 c && leb c 0x200a)
    || (leb 0x2028 c && leb c 0x2029)
    || (leb 0x202f c && leb c 0x202f)
    || (leb 0x205f c && leb c 0x205f)
    || (leb 0x3000 c && leb c 0x3000)

pub trim_left : String → String
unfolding is_space
trim_left String.[] = ""
trim_left (String.◌∷◌ c s) = if is_space (code c) then trim_left s else String.◌∷◌ c s

pub trim_right : String → String
unfolding is_space
trim_right String.[] = ""
trim_right (String.◌∷◌ c s) =
    let rest = trim_right s in if is_space (code c) && rest == "" then "" else String.◌∷◌ c rest

-- strings.TrimSpace.
unfoldable pub trim_space : String → String
unfolding trim_left trim_right
trim_space s = trim_right (trim_left s)

-- `getEnv(key, def)`, at the value of the variable.
unfoldable pub get_env : (String → String) → String → String → String
unfolding trim_space
get_env getenv key def = let v = getenv key in if v == "" then def else trim_space v

abbrev pub max_uint64 : ℕ
max_uint64 = 18446744073709551615

-- The digits of an unsigned number read so far, and what comes after them: `out_of_range` when
-- the number exceeds 64 bits, `bad_syntax` at any character that is no digit.
pub data Unsigned : Type 0 where
  parsed : ℕ → Unsigned
  out_of_range bad_syntax : Unsigned

pub parse_digits : ℕ → String → Unsigned
parse_digits n String.[] = Unsigned.parsed n
parse_digits n (String.◌∷◌ c s) =
    let n' = n * 10 + (code c - b'0') in
    let rest = parse_digits n' s in
    if leb b'0' (code c) && leb (code c) b'9'
    then (if leb n' max_uint64 then rest else Unsigned.out_of_range)
    else Unsigned.bad_syntax

-- strconv.ParseUint(s, 10, 64): no digits at all is a syntax error.
pub parse_uint : String → Unsigned
unfolding parse_digits
parse_uint String.[] = Unsigned.bad_syntax
parse_uint (String.◌∷◌ c s) = parse_digits 0 (String.◌∷◌ c s)

-- The value that strconv.Atoi returns, also beside an error, which every caller drops: 0 for a
-- syntax error, the nearest int64 for a range error.
abbrev pub nonneg_int64 : Unsigned → ℤ
nonneg_int64 (Unsigned.parsed n) =
    if ltb n 9223372036854775808 then pos n else pos 9223372036854775807
nonneg_int64 Unsigned.out_of_range = pos 9223372036854775807
nonneg_int64 Unsigned.bad_syntax = pos 0

abbrev negate : ℕ → ℤ
negate n = if leb n 0 then pos 0 else negsuc (n - 1)

abbrev pub neg_int64 : Unsigned → ℤ
neg_int64 (Unsigned.parsed n) =
    if leb n 9223372036854775808 then negate n else negsuc 9223372036854775807
neg_int64 Unsigned.out_of_range = negsuc 9223372036854775807
neg_int64 Unsigned.bad_syntax = pos 0

pub atoi : String → ℤ
unfolding parse_uint
atoi String.[] = pos 0
atoi (String.◌∷◌ c s) =
    if leb b'-' (code c) && leb (code c) b'-'
    then neg_int64 (parse_uint s)
    else (if leb b'+' (code c) && leb (code c) b'+'
        then nonneg_int64 (parse_uint s)
        else nonneg_int64 (parse_uint (String.◌∷◌ c s)))

-- An integer as the int64 with its low 64 bits.
pub int64_of_bits : ℕ → ℤ
int64_of_bits m = if ltb m 9223372036854775808 then pos m else negsuc (18446744073709551615 - m)

pub wrap_int64 : ℤ → ℤ
unfolding int64_of_bits
wrap_int64 (pos n) = int64_of_bits (n % 18446744073709551616)
wrap_int64 (negsuc n) = int64_of_bits (18446744073709551615 - n % 18446744073709551616)

-- `time.Duration(n) * time.Second`.
unfoldable pub seconds : ℤ → ℤ
unfolding wrap_int64 ◌*ℤ◌
seconds n = wrap_int64 (n *ℤ pos 1000000000)

-- `n, _ := strconv.Atoi(getEnv(key, def))`.
unfoldable pub get_env_int : (String → String) → String → String → ℤ
unfolding get_env atoi
get_env_int getenv key def = atoi (get_env getenv key def)
