-- ===== src/Crypto/Authentication.antt =====
-- internal/crypto/authentication.py: the signature of an item.
use aws_dynamodb_encryption.Prelude.{Text, Bytes, text, Option, none, some, [], ◌∷◌, ◌++◌}
use aws_dynamodb_encryption.Result.{Result, ok, ◌>>=◌}
use aws_dynamodb_encryption.Sorting.{sort_by}
use aws_dynamodb_encryption.CryptoAction.{CryptoAction, do_nothing, sign_only}
use aws_dynamodb_encryption.Identifiers.SignatureValues
use aws_dynamodb_encryption.Formatting.Attribute.{Attribute, Item, Codec, binary}
use aws_dynamodb_encryption.Formatting.Serialize.{to_bytes, serialize_attribute}
use aws_dynamodb_encryption.Structures.AttributeActions.{AttributeActions, action}
use aws_dynamodb_encryption.Crypto.Materials.{DelegatedKey}
use aws_dynamodb_encryption.Crypto.Encryption.{binary_value}

-- str(table_name), which may be None
unfoldable pub format_name : Option Text → Text
format_name none = text "None"
format_name (some t) = t

-- What is signed beside the hashes for an action that signs.
unfoldable pub signature_value : CryptoAction → Bytes
signature_value sign_only = SignatureValues.plaintext
signature_value a = SignatureValues.encrypted

-- `sha256` is the hash of the package `cryptography`.
module _ (c : Codec) (sha256 : Bytes → Bytes) where
  -- What an attribute adds to the string.
  unfoldable pub signed_attribute : Text → Attribute → CryptoAction → Result Bytes
  signed_attribute key attribute do_nothing = ok []
  signed_attribute key attribute a = do
    name ← to_bytes c key
    value ← serialize_attribute c attribute
    ok (sha256 name ++ (signature_value a ++ sha256 value))

  unfoldable pub signed_attributes : AttributeActions → Item → Result Bytes
  signed_attributes actions [] = ok []
  signed_attributes actions ((key, attribute) ∷ item) = do
    b ← signed_attribute key attribute (action actions key)
    rest ← signed_attributes actions item
    ok (b ++ rest)

  unfoldable pub string_to_sign : Item → Option Text → AttributeActions → Result Bytes
  string_to_sign item table_name actions = do
    table ← to_bytes c (text "TABLE>" ++ (format_name table_name ++ text "<TABLE"))
    rest ← signed_attributes actions (sort_by (λ e. e.0) item)
    ok (sha256 table ++ rest)

  unfoldable pub sign_item : Item → DelegatedKey → Option Text → AttributeActions → Result Attribute
  sign_item encrypted_item signing_key table_name actions = do
    message ← string_to_sign encrypted_item table_name actions
    signature ← signing_key.sign signing_key.algorithm message
    ok (binary signature)

  unfoldable pub verify_item_signature :
      Attribute → Item → DelegatedKey → Option Text → AttributeActions → Result (Unit {0})
  verify_item_signature signature_attribute encrypted_item verification_key table_name actions = do
    signature ← binary_value signature_attribute
    message ← string_to_sign encrypted_item table_name actions
    verification_key.verify verification_key.algorithm signature message
