-- ===== src/CryptoAction.antt =====
-- src/dynamodb_encryption_sdk/identifiers.py: the action on an attribute, with its comparisons.
use aws_dynamodb_encryption.Prelude.{ℕ, ◌==◌, ltb, if◌then◌else◌, not, Bool, ◌&&◌}

pub data CryptoAction : Type 0 where
  do_nothing sign_only encrypt_and_sign : CryptoAction

-- CryptoAction.value
unfoldable pub value : CryptoAction → ℕ
value do_nothing = 0
value sign_only = 1
value encrypt_and_sign = 2

unfoldable pub lt : CryptoAction → CryptoAction → Bool
unfolding value
lt a b = ltb (value a) (value b)

unfoldable pub eq : CryptoAction → CryptoAction → Bool
unfolding value
eq a b = value a == value b

unfoldable pub gt : CryptoAction → CryptoAction → Bool
unfolding lt eq
gt a b = not (lt a b) && not (eq a b)

-- min(a, b) and max(a, b): the first of the two unless the second is smaller (larger)
unfoldable pub min : CryptoAction → CryptoAction → CryptoAction
unfolding lt
min a b = if lt b a then b else a

unfoldable pub max : CryptoAction → CryptoAction → CryptoAction
unfolding gt
max a b = if gt b a then b else a
