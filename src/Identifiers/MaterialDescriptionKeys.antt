-- ===== src/Identifiers/MaterialDescriptionKeys.antt =====
-- src/dynamodb_encryption_sdk/internal/identifiers.py: the keys of material descriptions, and
-- a default value.
use aws_dynamodb_encryption.Prelude.{Text, text}

abbrev pub attribute_encryption_mode : Text
attribute_encryption_mode = text "amzn-ddb-map-sym-mode"

abbrev pub signing_key_algorithm : Text
signing_key_algorithm = text "amzn-ddb-map-signingAlg"

abbrev pub cbc_pkcs5_attribute_encryption : Text
cbc_pkcs5_attribute_encryption = text "/CBC/PKCS5Padding"

abbrev pub wrapped_data_key : Text
wrapped_data_key = text "amzn-ddb-env-key"

abbrev pub content_encryption_algorithm : Text
content_encryption_algorithm = text "amzn-ddb-env-alg"

abbrev pub content_key_wrapping_algorithm : Text
content_key_wrapping_algorithm = text "amzn-ddb-wrap-alg"

abbrev pub item_signature_algorithm : Text
item_signature_algorithm = text "amzn-ddb-sig-alg"
