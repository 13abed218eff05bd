-- ===== src/Encrypted/Item.antt =====
-- encrypted/item.py: the encryption of an item in DynamoDB JSON.
pub mod Attributes
pub mod Description
pub mod Steps
pub mod RoundTrip
pub mod Protection
pub mod Keys
use aws_dynamodb_encryption.Prelude.{
  ℕ, suc, Text, Bytes, Bool, true, false, not, Option, none, some, List, [], ◌∷◌, ◌++◌,
  if◌then◌else◌, ◌≡◌,
}
use aws_dynamodb_encryption.Result.{
  Error, Result, ok, err, ◌>>=◌, ◌>>◌, guard, or_raise, attribute_error, encryption_error,
  decryption_error, not_implemented_error, type_error,
}
use aws_dynamodb_encryption.Dict.{Dict, get, put, remove, contains}
use aws_dynamodb_encryption.CryptoAction.{encrypt_and_sign}
use aws_dynamodb_encryption.Identifiers.ReservedAttributes
use aws_dynamodb_encryption.Identifiers.MaterialDescriptionKeys
use aws_dynamodb_encryption.Formatting.Attribute.{Attribute, Item, Codec}
use aws_dynamodb_encryption.Formatting.MaterialDescription
use aws_dynamodb_encryption.Structures.EncryptionContext.{EncryptionContext}
use aws_dynamodb_encryption.Structures.AttributeActions.{AttributeActions, contains_action}
use aws_dynamodb_encryption.Crypto.Materials.{DelegatedKey, CryptographicMaterials}
use aws_dynamodb_encryption.Crypto.Encryption.{encrypt_attribute, decrypt_attribute}
use aws_dynamodb_encryption.Crypto.Authentication.{sign_item, verify_item_signature}
use aws_dynamodb_encryption.Encrypted.CryptoConfig
use aws_dynamodb_encryption.Encrypted.CryptoConfig.{CryptoConfig, encrypts}

-- inner_material_description[SIGNING_KEY_ALGORITHM] = signing_algorithm(), except NotImplementedError
unfoldable pub add_signing_algorithm : Result Text → Dict Text → Result (Dict Text)
add_signing_algorithm (ok algorithm) d =
    ok (put MaterialDescriptionKeys.signing_key_algorithm algorithm d)
add_signing_algorithm (err not_implemented_error) d = ok d
add_signing_algorithm (err e) d = err e

-- key.algorithm + mode, for a mode that may be missing
unfoldable pub algorithm_descriptor : Text → Option Text → Result Text
algorithm_descriptor algorithm mode = do m ← or_raise type_error mode; ok (algorithm ++ m)

module _ (c : Codec) where
  -- The loop over the items; each call of the key has random bytes of its own.
  unfoldable pub encrypt_attributes :
      ℕ → AttributeActions → DelegatedKey → Text → Item → Result Item
  encrypt_attributes seed actions encryption_key algorithm [] = ok []
  encrypt_attributes seed actions encryption_key algorithm ((name, attribute) ∷ item) = do
    encrypted ←
        if encrypts actions name
        then encrypt_attribute c seed name attribute encryption_key algorithm
        else ok attribute
    rest ← encrypt_attributes (suc seed) actions encryption_key algorithm item
    ok ((name, encrypted) ∷ rest)

  unfoldable pub decrypt_attributes : AttributeActions → DelegatedKey → Text → Item → Result Item
  decrypt_attributes actions decryption_key algorithm [] = ok []
  decrypt_attributes actions decryption_key algorithm ((name, attribute) ∷ item) = do
    decrypted ←
        if encrypts actions name
        then decrypt_attribute c name attribute decryption_key algorithm
        else ok attribute
    rest ← decrypt_attributes actions decryption_key algorithm item
    ok ((name, decrypted) ∷ rest)

  -- The encrypted attributes and the inner material description, by the access to the key.
  unfoldable pub encrypted_attributes :
      ℕ → AttributeActions → Result DelegatedKey → Dict Text → Item → Result (Item × Dict Text)
  encrypted_attributes seed actions (err attribute_error) inner item =
      if contains_action actions encrypt_and_sign then err encryption_error else ok (item, inner)
  encrypted_attributes seed actions (err e) inner item = err e
  encrypted_attributes seed actions (ok encryption_key) inner item = do
    let mode = MaterialDescriptionKeys.cbc_pkcs5_attribute_encryption
    encrypted ←
        encrypt_attributes seed actions encryption_key (encryption_key.algorithm ++ mode) item
    ok (encrypted, put MaterialDescriptionKeys.attribute_encryption_mode mode inner)

  -- If the item has no material description, the configuration's stays.
  unfoldable pub describe_context : Option Attribute → CryptoConfig → Result CryptoConfig
  describe_context none config = ok config
  describe_context (some attribute) config = do
    description ← MaterialDescription.deserialize c attribute
    ok (record config {
      encryption_context = record (config.encryption_context) {
        material_description = description;
      };
    })

  unfoldable pub decrypted_attributes :
      AttributeActions → Dict Text → Result DelegatedKey → Item → Result Item
  decrypted_attributes actions description (err attribute_error) item =
      if contains_action actions encrypt_and_sign then err decryption_error else ok item
  decrypted_attributes actions description (err e) item = err e
  decrypted_attributes actions description (ok decryption_key) item = do
    algorithm ←
        algorithm_descriptor decryption_key.algorithm
          (get MaterialDescriptionKeys.attribute_encryption_mode description)
    decrypt_attributes actions decryption_key algorithm item

module _ (c : Codec) (sha256 : Bytes → Bytes) where
  -- The signature and the material description, which are written last.
  unfoldable pub sign_and_describe :
      Option Text → AttributeActions → Result DelegatedKey → Item × Dict Text → Result Item
  sign_and_describe table_name actions signing_key (encrypted, inner) = do
    key ← signing_key
    signature ← sign_item c sha256 encrypted key table_name actions
    description ← add_signing_algorithm key.signing_algorithm inner
    attribute ← MaterialDescription.serialize c description
    ok (
        put ReservedAttributes.material_description attribute
          (put ReservedAttributes.signature signature encrypted))

  -- encrypt_dynamodb_item, where some action is to be taken.
  unfoldable pub encrypt_and_sign_item : ℕ → Item → CryptoConfig → Result Item
  encrypt_and_sign_item seed item config = do
    guard (not (contains ReservedAttributes.material_description item)) encryption_error
    guard (not (contains ReservedAttributes.signature item)) encryption_error
    materials ← CryptoConfig.encryption_materials config
    parts ←
        encrypted_attributes c seed config.attribute_actions materials.encryption_key
          materials.material_description item
    sign_and_describe config.encryption_context.table_name config.attribute_actions
        materials.signing_key parts

  unfoldable pub encrypt_dynamodb_item : ℕ → Item → CryptoConfig → Result Item
  encrypt_dynamodb_item seed item config =
      if config.attribute_actions.take_no_actions
      then ok item
      else encrypt_and_sign_item seed item config

  -- What is left of the item is verified before anything of it is decrypted.
  unfoldable pub verify_and_decrypt : Attribute → Item → CryptoConfig → Result Item
  verify_and_decrypt signature item inner = do
    materials ← CryptoConfig.decryption_materials inner
    key ← materials.verification_key
    verify_item_signature c sha256 signature item key inner.encryption_context.table_name
        inner.attribute_actions
    decrypted_attributes c inner.attribute_actions inner.encryption_context.material_description
        materials.decryption_key item

  -- decrypt_dynamodb_item, where some action is to be taken.
  unfoldable pub verify_and_decrypt_item : Item → CryptoConfig → Result Item
  verify_and_decrypt_item item config = do
    signature ← or_raise decryption_error (get ReservedAttributes.signature item)
    let unsigned = remove ReservedAttributes.signature item
    inner ← CryptoConfig.copy config
    described ← describe_context c (get ReservedAttributes.material_description unsigned) inner
    verify_and_decrypt signature (remove ReservedAttributes.material_description unsigned) described

  unfoldable pub decrypt_dynamodb_item : Item → CryptoConfig → Result Item
  decrypt_dynamodb_item item config =
      if config.attribute_actions.take_no_actions
      then ok item
      else verify_and_decrypt_item item config
