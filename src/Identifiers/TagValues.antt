-- ===== src/Identifiers/TagValues.antt =====
-- src/dynamodb_encryption_sdk/internal/identifiers.py: the bytes of the Booleans.
use aws_dynamodb_encryption.Prelude.{ℕ}

abbrev pub false_value : ℕ
false_value = 0

abbrev pub true_value : ℕ
true_value = 1
