-- ===== src/Examples/Settings.antt =====
-- The theorems on keys and settings at concrete values.
use exploding_user_data_scal.Prelude.{◌*◌, String, ◌≡◌, ◌≢◌, refl, arith}
use exploding_user_data_scal.Prelude.Int.{pos}
use exploding_user_data_scal.Config.{seconds}
use exploding_user_data_scal.Config.Numbers.{seconds_exact}
use exploding_user_data_scal.Cache.Keys.{
  transaction_key, user_balance_key, idempotency_key, keys_disjoint, idempotency_key_injective,
}

idempotency_key_injective_example : ◌≡◌ {A = String} "u-1" "u-1" × (◌≡◌ {A = String} "k:1" "k:1")
idempotency_key_injective_example =
    idempotency_key_injective "u-1" "u-1" "k:1" "k:1" (omega arith) (omega arith) refl

keys_disjoint_example :
    (transaction_key "1" ≢ user_balance_key "1")
    × (transaction_key "1" ≢ idempotency_key "1" "k")
    × (user_balance_key "1" ≢ idempotency_key "1" "k")
keys_disjoint_example = keys_disjoint "1" "1" "1" "k"

seconds_exact_example : seconds (pos 30) ≡ pos (30 * 1000000000)
seconds_exact_example = seconds_exact 30 (omega arith)
