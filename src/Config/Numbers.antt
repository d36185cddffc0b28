-- ===== src/Config/Numbers.antt =====
-- The numbers that a setting can give.
use exploding_user_data_scal.Prelude.{ℕ, ◌*◌, ◌≤◌, ◌<◌, String, ◌≡◌, arith}
use exploding_user_data_scal.Prelude.Int.{pos, pos_part, neg_part}
use exploding_user_data_scal.Config.{Unsigned, nonneg_int64, neg_int64, atoi, seconds, parse_uint}

nonneg_range :
    (u : Unsigned)
    → (pos_part (nonneg_int64 u) < 9223372036854775808)
      × (neg_part (nonneg_int64 u) ≤ 9223372036854775808)
nonneg_range u = ground arith

neg_range :
    (u : Unsigned)
    → (pos_part (neg_int64 u) < 9223372036854775808)
      × (neg_part (neg_int64 u) ≤ 9223372036854775808)
neg_range u = ground arith

-- Whatever the text of a setting is, `strconv.Atoi` gives an int64.
pub atoi_range :
    (s : String)
    → (pos_part (atoi s) < 9223372036854775808) × (neg_part (atoi s) ≤ 9223372036854775808)
unfolding atoi
atoi_range String.[] = omega arith
atoi_range (String.◌∷◌ c s) = ground (
  arith,
  nonneg_range (parse_uint s),
  neg_range (parse_uint s),
  nonneg_range (parse_uint (String.◌∷◌ c s)),
)

-- A number of seconds from 0 to 9,223,372,036 becomes the exact number of nanoseconds.
pub seconds_exact : (n : ℕ) → n ≤ 9223372036 → seconds (pos n) ≡ pos (n * 1000000000)
unfolding seconds
seconds_exact n h = ground arith
