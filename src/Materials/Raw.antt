-- ===== src/Materials/Raw.antt =====
-- materials/raw.py: RawEncryptionMaterials and RawDecryptionMaterials, each with the properties that its
-- base class in materials/__init__.py leaves out.
use aws_dynamodb_encryption.Prelude.{Text, Bool, true, Option, none, some}
use aws_dynamodb_encryption.Result.{
  Result, ok, err, ◌>>◌, guard, or_raise, value_error, attribute_error, not_implemented_error,
}
use aws_dynamodb_encryption.Dict.{Dict}
use aws_dynamodb_encryption.Crypto.Materials.{DelegatedKey, CryptographicMaterials}

-- The key is left out, or it allows use with raw materials.
unfoldable pub key_allowed : Option DelegatedKey → Bool
key_allowed none = true
key_allowed (some key) = key.allowed_for_raw_materials

-- RawEncryptionMaterials(...), with __attrs_post_init__
unfoldable pub raw_encryption_materials :
    DelegatedKey → Option DelegatedKey → Dict Text → Result CryptographicMaterials
raw_encryption_materials signing_key encryption_key material_description = do
  guard (key_allowed encryption_key) value_error
  ok (record {
    material_description = material_description;
    encryption_key = or_raise attribute_error encryption_key;
    decryption_key = err not_implemented_error;
    signing_key = ok signing_key;
    verification_key = err not_implemented_error;
  })

-- RawDecryptionMaterials(...), with __attrs_post_init__
unfoldable pub raw_decryption_materials :
    DelegatedKey → Option DelegatedKey → Dict Text → Result CryptographicMaterials
raw_decryption_materials verification_key decryption_key material_description = do
  guard (key_allowed decryption_key) value_error
  ok (record {
    material_description = material_description;
    encryption_key = err not_implemented_error;
    decryption_key = or_raise attribute_error decryption_key;
    signing_key = err not_implemented_error;
    verification_key = ok verification_key;
  })
