-- ===== src/Encrypted/CryptoConfig.antt =====
-- encrypted/__init__.py: CryptoConfig.
pub mod Creation
use aws_dynamodb_encryption.Prelude.{Text, Bool, not, Option, none, some}
use aws_dynamodb_encryption.Result.{Result, ok, ◌>>=◌, ◌>>◌, guard, invalid_argument_error}
use aws_dynamodb_encryption.CryptoAction
use aws_dynamodb_encryption.CryptoAction.{CryptoAction, encrypt_and_sign}
use aws_dynamodb_encryption.Formatting.Attribute.{Item}
use aws_dynamodb_encryption.Structures.EncryptionContext.{EncryptionContext}
use aws_dynamodb_encryption.Structures.AttributeActions.{AttributeActions, action}
use aws_dynamodb_encryption.Crypto.Materials.{
  CryptographicMaterials, CryptographicMaterialsProvider,
}

pub record CryptoConfig : Type 0 where
  pub materials_provider : CryptographicMaterialsProvider
  pub encryption_context : EncryptionContext
  pub attribute_actions : AttributeActions

-- The action on the name is ENCRYPT_AND_SIGN.
unfoldable pub encrypts : AttributeActions → Text → Bool
encrypts actions name = CryptoAction.eq (action actions name) encrypt_and_sign

-- A key of the primary index, if it is known, must not be encrypted.
unfoldable pub check_key : AttributeActions → Option Text → Result (Unit {0})
check_key actions none = ok tt
check_key actions (some name) = guard (not (encrypts actions name)) invalid_argument_error

-- CryptoConfig(...), with __attrs_post_init__
unfoldable pub new :
    CryptographicMaterialsProvider → EncryptionContext → AttributeActions → Result CryptoConfig
new provider context actions = do
  check_key actions context.partition_key_name
  check_key actions context.sort_key_name
  ok (record {
    materials_provider = provider;
    encryption_context = context;
    attribute_actions = actions;
  })

unfoldable pub decryption_materials : CryptoConfig → Result CryptographicMaterials
decryption_materials self = self.materials_provider.decryption_materials self.encryption_context

unfoldable pub encryption_materials : CryptoConfig → Result CryptographicMaterials
encryption_materials self = self.materials_provider.encryption_materials self.encryption_context

unfoldable pub copy : CryptoConfig → Result CryptoConfig
copy self = new self.materials_provider self.encryption_context self.attribute_actions

unfoldable pub with_item : CryptoConfig → Item → Result CryptoConfig
with_item self item = do
  config ← copy self
  ok (record config {
    encryption_context = record (config.encryption_context) { attributes = item };
  })
