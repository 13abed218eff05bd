-- ===== src/Examples/Items.antt =====
-- Items: encrypted, decrypted and refused.
use aws_dynamodb_encryption.Prelude.{
  text, inl, text_eq, Text, text_eq, true, some, [], ◌≡◌, refl, subst, is_some,
}
use aws_dynamodb_encryption.Result.{Result, ok, err, ok-injective}
use aws_dynamodb_encryption.Sorting.{text_le, insert_by, sort_by}
use aws_dynamodb_encryption.Dict.{get, put, IsDict}
use aws_dynamodb_encryption.Identifiers.ReservedAttributes
use aws_dynamodb_encryption.CryptoAction
use aws_dynamodb_encryption.Formatting.Attribute.{Item, Attribute}
use aws_dynamodb_encryption.Formatting.Attribute.{string}
use aws_dynamodb_encryption.Formatting.Pack.{pack_uint32, encode_value}
use aws_dynamodb_encryption.Formatting.Serialize.{
  to_bytes, transform_number_value, serialize_value, serialize_attribute,
}
use aws_dynamodb_encryption.Formatting.MaterialDescription
use aws_dynamodb_encryption.Structures.AttributeActions.{action}
use aws_dynamodb_encryption.Crypto.Materials.{CryptographicMaterials, Verifies}
use aws_dynamodb_encryption.Crypto.Encryption.{encrypt_attribute}
use aws_dynamodb_encryption.Crypto.Authentication.{
  signature_value, format_name, signed_attribute, signed_attributes, string_to_sign, sign_item,
}
use aws_dynamodb_encryption.Encrypted.CryptoConfig
use aws_dynamodb_encryption.Encrypted.CryptoConfig.{CryptoConfig, encrypts, check_key}
use aws_dynamodb_encryption.Encrypted.Item.{
  add_signing_algorithm, encrypt_attributes, encrypted_attributes, sign_and_describe,
  encrypt_and_sign_item, encrypt_dynamodb_item, decrypt_dynamodb_item,
}
use aws_dynamodb_encryption.Encrypted.Item.Attributes.{restored}
use aws_dynamodb_encryption.Encrypted.Item.Description.{present}
use aws_dynamodb_encryption.Encrypted.Item.RoundTrip.{
  MaterialsMatch, Reopens, decrypt-encrypt_dynamodb_item,
}
use aws_dynamodb_encryption.Encrypted.Item.Keys.{encrypt_dynamodb_item-keeps_keys}
use aws_dynamodb_encryption.Encrypted.Item.Protection.{
  IsVerified, Shows, decrypt_dynamodb_item-IsVerified, encrypt_dynamodb_item-Shows,
}
use aws_dynamodb_encryption.Examples.{
  context, actions, plain, plain-IsLossless, hash, toy, toy-Decrypts, toy-Verifies, materials,
  config, sample,
}

abbrev value_of : Result Item → Item
value_of (ok e) = e
value_of (err e) = []

abbrev pub encrypted : Item
encrypted = value_of (encrypt_dynamodb_item plain hash 5 sample config)

sample_encrypts : encrypt_dynamodb_item plain hash 5 sample config ≡ ok encrypted
unfolding encrypt_dynamodb_item encrypt_and_sign_item CryptoConfig.encryption_materials
    encrypted_attributes encrypt_attributes encrypts CryptoAction.eq CryptoAction.value action get
    put encrypt_attribute serialize_attribute to_bytes transform_number_value serialize_value
    sign_and_describe sign_item string_to_sign signed_attributes signed_attribute signature_value
    format_name sort_by insert_by text_le text_eq add_signing_algorithm
    MaterialDescription.serialize MaterialDescription.write_entries MaterialDescription.encode_text
    pack_uint32 encode_value MaterialDescription.catch_invalid
sample_encrypts = refl

materials_match :
    (m : CryptographicMaterials) → CryptoConfig.encryption_materials config ≡ ok m → materials ≡ m
unfolding CryptoConfig.encryption_materials
materials_match m h = ok-injective h

reopens : Reopens config
unfolding get text_eq
reopens = record {
  description_IsDict =
      λ m h. subst (λ x. IsDict x.material_description) (materials_match m h) (refl, tt);
  reopen = λ m d h is_dict extends. (
    materials,
    refl,
    subst (λ x. MaterialsMatch x materials) (materials_match m h)
        (record {
          contents = present toy-Decrypts;
          signatures =
              λ k e. (toy, refl, subst (λ x. Verifies x toy) (ok-injective e) toy-Verifies);
        }),
  );
}

config_copies : CryptoConfig.copy config ≡ ok config
unfolding CryptoConfig.copy CryptoConfig.new check_key encrypts CryptoAction.eq CryptoAction.value
    action get text_eq
config_copies = refl

sample_decrypts :
    decrypt_dynamodb_item plain hash encrypted config
    ≡ ok (restored plain config.attribute_actions sample)
sample_decrypts =
    decrypt-encrypt_dynamodb_item plain hash plain-IsLossless 5 sample encrypted config refl
      config_copies reopens sample_encrypts

decrypt-encrypt_dynamodb_item_example :
    decrypt_dynamodb_item plain hash encrypted config
    ≡ ok (restored plain config.attribute_actions sample)
decrypt-encrypt_dynamodb_item_example =
    decrypt-encrypt_dynamodb_item plain hash plain-IsLossless 5 sample encrypted config refl
      config_copies reopens sample_encrypts

decrypt_dynamodb_item-IsVerified_example :
    IsVerified plain hash encrypted (restored plain config.attribute_actions sample) config
decrypt_dynamodb_item-IsVerified_example =
    decrypt_dynamodb_item-IsVerified plain hash encrypted
      (restored plain config.attribute_actions sample) config refl sample_decrypts

encrypt_dynamodb_item-Shows_example :
    (m : CryptographicMaterials) × (CryptoConfig.encryption_materials config ≡ ok m)
    × ((name : Text) (a : Attribute)
        → get name sample ≡ some a
        → Shows plain config.attribute_actions m.encryption_key name a encrypted)
    × (is_some (get ReservedAttributes.signature encrypted) ≡ true)
    × (is_some (get ReservedAttributes.material_description encrypted) ≡ true)
encrypt_dynamodb_item-Shows_example =
    encrypt_dynamodb_item-Shows plain hash 5 sample encrypted config refl sample_encrypts

config_created : CryptoConfig.new config.materials_provider context actions ≡ ok config
unfolding CryptoConfig.new check_key encrypts CryptoAction.eq CryptoAction.value action get text_eq
config_created = refl

encrypt_dynamodb_item-keeps_keys_example : get (text "id") encrypted ≡ some (string (text "a"))
unfolding get text_eq
encrypt_dynamodb_item-keeps_keys_example =
    encrypt_dynamodb_item-keeps_keys config.materials_provider context actions config config_created
      plain hash 5 sample encrypted (text "id") (string (text "a")) sample_encrypts (inl refl) refl
