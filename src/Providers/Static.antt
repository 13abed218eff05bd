-- ===== src/Providers/Static.antt =====
-- material_providers/static.py: StaticCryptographicMaterialsProvider.
use aws_dynamodb_encryption.Prelude.{Option}
use aws_dynamodb_encryption.Result.{Result, or_raise, attribute_error}
use aws_dynamodb_encryption.Structures.EncryptionContext.{EncryptionContext}
use aws_dynamodb_encryption.Crypto.Materials.{
  CryptographicMaterials, CryptographicMaterialsProvider,
}

pub record StaticCryptographicMaterialsProvider : Type 0 where
  pub static_decryption_materials : Option CryptographicMaterials
  pub static_encryption_materials : Option CryptographicMaterials

-- What is not there is left to the base class, which raises AttributeError.
unfoldable pub decryption_materials :
    StaticCryptographicMaterialsProvider → EncryptionContext → Result CryptographicMaterials
decryption_materials self context = or_raise attribute_error self.static_decryption_materials

unfoldable pub encryption_materials :
    StaticCryptographicMaterialsProvider → EncryptionContext → Result CryptographicMaterials
encryption_materials self context = or_raise attribute_error self.static_encryption_materials

abbrev pub as_provider : StaticCryptographicMaterialsProvider → CryptographicMaterialsProvider
as_provider self = record {
  decryption_materials = decryption_materials self;
  encryption_materials = encryption_materials self;
}
