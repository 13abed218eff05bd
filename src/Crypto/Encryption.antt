-- ===== src/Crypto/Encryption.antt =====
-- internal/crypto/encryption.py: one attribute.
use aws_dynamodb_encryption.Prelude.{ℕ, Text, Bytes}
use aws_dynamodb_encryption.Result.{Result, ok, err, ◌>>=◌, key_error, type_error}
use aws_dynamodb_encryption.Formatting.Attribute.{Attribute, Codec, binary, not_dict}
use aws_dynamodb_encryption.Formatting.Serialize.{serialize_attribute}
use aws_dynamodb_encryption.Formatting.Deserialize.{deserialize_attribute}
use aws_dynamodb_encryption.Crypto.Materials.{DelegatedKey}

-- attribute["B"]
unfoldable pub binary_value : Attribute → Result Bytes
binary_value (binary b) = ok b
binary_value not_dict = err type_error
binary_value a = err key_error

module _ (c : Codec) where
  -- The number stands for the random bytes that the key uses.
  unfoldable pub encrypt_attribute : ℕ → Text → Attribute → DelegatedKey → Text → Result Attribute
  encrypt_attribute seed name attribute encryption_key algorithm = do
    serialized ← serialize_attribute c attribute
    encrypted ← encryption_key.encrypt seed algorithm name serialized
    ok (binary encrypted)

  unfoldable pub decrypt_attribute : Text → Attribute → DelegatedKey → Text → Result Attribute
  decrypt_attribute name attribute decryption_key algorithm = do
    encrypted ← binary_value attribute
    decrypted ← decryption_key.decrypt algorithm name encrypted
    deserialize_attribute c decrypted
