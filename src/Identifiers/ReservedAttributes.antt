-- ===== src/Identifiers/ReservedAttributes.antt =====
-- src/dynamodb_encryption_sdk/internal/identifiers.py: the names that no plaintext item has.
use aws_dynamodb_encryption.Prelude.{Text, text}

abbrev pub material_description : Text
material_description = text "*amzn-ddb-map-desc*"

abbrev pub signature : Text
signature = text "*amzn-ddb-map-sig*"
