-- ===== src/Cache/Keys.antt =====
-- The key functions of api/cache/redis.go, and when two keys are the same.
use Prim.Native.String.{◌++◌}
use text.Mathlib.TextLemmas.{append_cancel_left}
use exploding_user_data_scal.Prelude.{String, ◌≡◌, ◌≢◌, refl, ap, arith}
use exploding_user_data_scal.Text.{head, head-append, IsFree, split_at_text}

-- `fmt.Sprintf("txn:%s", id)`.
unfoldable pub transaction_key : String → String
transaction_key id = "txn:" ++ id

-- `fmt.Sprintf("user:balance:%s", id)`.
unfoldable pub user_balance_key : String → String
user_balance_key id = "user:balance:" ++ id

-- `fmt.Sprintf("idempotency:%s:%s", userID, key)`.
unfoldable pub idempotency_key : String → String → String
idempotency_key user_id key = "idempotency:" ++ (user_id ++ (":" ++ key))

pub transaction_key_injective : (a b : String) → transaction_key a ≡ transaction_key b → a ≡ b
unfolding transaction_key
transaction_key_injective a b e = append_cancel_left "txn:" a b e

pub user_balance_key_injective : (a b : String) → user_balance_key a ≡ user_balance_key b → a ≡ b
unfolding user_balance_key
user_balance_key_injective a b e = append_cancel_left "user:balance:" a b e

head-transaction_key : (a : String) → head (transaction_key a) ≡ b't'
unfolding transaction_key
head-transaction_key a = head-append _ "xn:" a

head-user_balance_key : (a : String) → head (user_balance_key a) ≡ b'u'
unfolding user_balance_key
head-user_balance_key a = head-append _ "ser:balance:" a

head-idempotency_key : (u k : String) → head (idempotency_key u k) ≡ b'i'
unfolding idempotency_key
head-idempotency_key u k = head-append _ "dempotency:" (u ++ (":" ++ k))

-- Keys of the three families never meet.
pub keys_disjoint :
    (t b u k : String)
    → (transaction_key t ≢ user_balance_key b)
      × (transaction_key t ≢ idempotency_key u k)
      × (user_balance_key b ≢ idempotency_key u k)
keys_disjoint t b u k = (
  λ e. omega (arith, ap head e, head-transaction_key t, head-user_balance_key b),
  λ e. omega (arith, ap head e, head-transaction_key t, head-idempotency_key u k),
  λ e. omega (arith, ap head e, head-user_balance_key b, head-idempotency_key u k),
)

pub idempotency_key-ne-empty : (u k : String) → idempotency_key u k ≢ ""
unfolding head
idempotency_key-ne-empty u k e = omega (arith, ap head e, head-idempotency_key u k)

-- No character of the text is a colon, as in a UUID.
abbrev pub HasNoColon : String → Type 0
HasNoColon = IsFree b':'

-- Two idempotency keys are the same only for the same user and the same client key, if the users'
-- ids have no colon.
pub idempotency_key_injective :
    (u v k j : String)
    → HasNoColon u
    → HasNoColon v
    → idempotency_key u k ≡ idempotency_key v j
    → (u ≡ v) × (k ≡ j)
unfolding idempotency_key
idempotency_key_injective u v k j hu hv e =
    split_at_text ":" u v k j hu hv
      (append_cancel_left "idempotency:" (u ++ (":" ++ k)) (v ++ (":" ++ j)) e)

-- With a colon in the user's id two users share a key.
idempotency_key_shared : idempotency_key "a:b" "c" ≡ idempotency_key "a" "b:c"
unfolding idempotency_key
idempotency_key_shared = refl
