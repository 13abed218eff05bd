-- ===== src/Providers/Wrapped.antt =====
-- material_providers/wrapped.py: WrappedCryptographicMaterialsProvider.
pub mod Contract
pub mod Items
use aws_dynamodb_encryption.Prelude.{ℕ, Text, Bool, Option, none, some, is_some}
use aws_dynamodb_encryption.Result.{
  Result, ok, ◌>>=◌, ◌>>◌, guard, wrapping_error, unwrapping_error,
}
use aws_dynamodb_encryption.Builtins.{Builtins}
use aws_dynamodb_encryption.Dict.{Dict, put_all}
use aws_dynamodb_encryption.Structures.EncryptionContext.{EncryptionContext}
use aws_dynamodb_encryption.Crypto.Materials.{
  CryptographicMaterials, CryptographicMaterialsProvider,
}
use aws_dynamodb_encryption.Jce.Library.{Cryptography}
use aws_dynamodb_encryption.Materials.Wrapped.{Arguments, wrapped_cryptographic_materials}

pub record WrappedCryptographicMaterialsProvider : Type 0 where
  pub keys : Arguments
  pub material_description : Dict Text

module _ (p : Builtins) (l : Cryptography) where
  -- The number stands for the random bytes of a call.
  unfoldable pub build_materials :
      ℕ → WrappedCryptographicMaterialsProvider → EncryptionContext → Result CryptographicMaterials
  build_materials seed self context =
      wrapped_cryptographic_materials p l seed self.keys
        (put_all self.material_description context.material_description)

  unfoldable pub encryption_materials :
      ℕ → WrappedCryptographicMaterialsProvider → EncryptionContext → Result CryptographicMaterials
  encryption_materials seed self context = do
    guard (is_some self.keys.wrapping_key) wrapping_error
    build_materials seed self context

  unfoldable pub decryption_materials :
      ℕ → WrappedCryptographicMaterialsProvider → EncryptionContext → Result CryptographicMaterials
  decryption_materials seed self context = do
    guard (is_some self.keys.unwrapping_key) unwrapping_error
    build_materials seed self context

  -- The first number stands for the random bytes of the calls for encryption, the second one for those of the
  -- calls for decryption: os.urandom gives other bytes each time, so the two are unrelated.
  abbrev pub as_provider :
      ℕ → ℕ → WrappedCryptographicMaterialsProvider → CryptographicMaterialsProvider
  as_provider seed again self = record {
    decryption_materials = decryption_materials again self;
    encryption_materials = encryption_materials seed self;
  }
