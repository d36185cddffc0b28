-- ===== src/Config/Tests.antt =====
-- The settings at concrete values.
use exploding_user_data_scal.Prelude.{◌≡◌, refl}
use exploding_user_data_scal.Prelude.Int.{pos, negsuc}
use exploding_user_data_scal.Config.{get_env, get_env_int, seconds, atoi}

trims : get_env (λ _. " 60\n") "CACHE_TTL_SECONDS" "30" ≡ "60"
unfolding get_env
trims = refl

atoi_runs :
    (atoi "30" ≡ pos 30)
    × (atoi "-7" ≡ negsuc 6)
    × (atoi "30s" ≡ pos 0)
    × (atoi "99999999999999999999" ≡ pos 9223372036854775807)
unfolding atoi
atoi_runs = (refl, refl, refl, refl)

duration : seconds (get_env_int (λ _. "") "CACHE_TTL_SECONDS" "30") ≡ pos 30000000000
unfolding seconds get_env_int
duration = refl
