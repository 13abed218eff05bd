-- ===== src/Examples/Queries.antt =====
-- A query of one encrypted item.
use aws_dynamodb_encryption.Prelude.{text, false, none, some, List, [], ◌∷◌, ◌≡◌, refl, text_eq}
use aws_dynamodb_encryption.Result.{Result, ok, err}
use aws_dynamodb_encryption.Sorting.{text_le, insert_by, sort_by}
use aws_dynamodb_encryption.Dict.{get, put, put_all, remove}
use aws_dynamodb_encryption.Formatting.Attribute.{Item}
use aws_dynamodb_encryption.CryptoAction
use aws_dynamodb_encryption.Identifiers.{find_tag, tag_byte}
use aws_dynamodb_encryption.Formatting.Pack.{
  bind, unpack_value, uint32, decode_length, decode_value, first_byte, decode_byte, two_bytes,
  decode_tag, pack_uint32, encode_value,
}
use aws_dynamodb_encryption.Formatting.Serialize.{
  to_bytes, transform_number_value, serialize_value, serialize_attribute,
}
use aws_dynamodb_encryption.Formatting.Deserialize.{
  deserialize_attribute, deserialize, deserialize_tag, parse_number_value, transform_string_value,
  read_value, catch_struct_error,
}
use aws_dynamodb_encryption.Formatting.MaterialDescription
use aws_dynamodb_encryption.Structures.AttributeActions.{action}
use aws_dynamodb_encryption.Crypto.Encryption.{encrypt_attribute, decrypt_attribute, binary_value}
use aws_dynamodb_encryption.Crypto.Authentication.{
  signature_value, format_name, signed_attribute, signed_attributes, string_to_sign, sign_item,
  verify_item_signature,
}
use aws_dynamodb_encryption.Encrypted.CryptoConfig
use aws_dynamodb_encryption.Encrypted.CryptoConfig.{CryptoConfig, encrypts, check_key}
use aws_dynamodb_encryption.Encrypted.Item.{
  add_signing_algorithm, encrypt_attributes, encrypted_attributes, sign_and_describe,
  encrypt_and_sign_item, encrypt_dynamodb_item, decrypt_dynamodb_item, verify_and_decrypt_item,
  describe_context, verify_and_decrypt, decrypted_attributes, decrypt_attributes,
  algorithm_descriptor,
}
use aws_dynamodb_encryption.Helpers.Reading.{
  Arguments, Step, and_then, validate_select, validate_get_arguments, decrypt_value,
  decrypt_list_of_items, decrypt_items, decrypt_multi_get,
}
use aws_dynamodb_encryption.Helpers.Reading.Verification.{
  AllVerified, decrypt_multi_get-AllVerified,
}
use aws_dynamodb_encryption.Examples.{plain, hash, config}
use aws_dynamodb_encryption.Examples.Items.{encrypted}

abbrev arguments : Arguments
arguments = record {
  has_attributes_to_get = false;
  has_projection_expression = false;
  select = none;
  table_name = some (text "table");
  crypto_config = none;
}

abbrev config_method : Arguments → Step (Unit {0}) CryptoConfig
config_method kwargs state = (ok config, state)

abbrev values_of : Result (List Item) → List Item
values_of (ok items) = items
values_of (err e) = []

abbrev answer : Result (List Item)
answer =
    (decrypt_multi_get (decrypt_dynamodb_item plain hash) config_method
      (λ kwargs. ok (some (encrypted ∷ []))) arguments tt).0

answered : answer ≡ ok (values_of answer)
unfolding decrypt_multi_get and_then validate_get_arguments validate_select decrypt_items
    decrypt_list_of_items decrypt_value CryptoConfig.with_item CryptoConfig.copy CryptoConfig.new
    CryptoConfig.decryption_materials check_key encrypts CryptoAction.eq CryptoAction.value action
    get put put_all remove text_eq decrypt_dynamodb_item verify_and_decrypt_item describe_context
    verify_and_decrypt verify_item_signature string_to_sign signed_attributes signed_attribute
    signature_value format_name sort_by insert_by text_le decrypted_attributes decrypt_attributes
    algorithm_descriptor decrypt_attribute binary_value deserialize_attribute deserialize
    deserialize_tag parse_number_value transform_string_value read_value catch_struct_error find_tag
    tag_byte bind unpack_value uint32 decode_length decode_value first_byte decode_byte two_bytes
    decode_tag MaterialDescription.deserialize MaterialDescription.read_entries
    MaterialDescription.decode_text MaterialDescription.read_version
    MaterialDescription.raw_material_description MaterialDescription.catch_struct
    MaterialDescription.catch_invalid serialize_attribute to_bytes transform_number_value
    serialize_value pack_uint32 encode_value encrypt_dynamodb_item encrypt_and_sign_item
    CryptoConfig.encryption_materials encrypted_attributes encrypt_attributes encrypt_attribute
    sign_and_describe sign_item add_signing_algorithm MaterialDescription.serialize
    MaterialDescription.write_entries MaterialDescription.encode_text
answered = refl

decrypt_multi_get-AllVerified_example :
    (found : List Item) × (ok (some (encrypted ∷ [])) ≡ ok (some found))
    × (validate_get_arguments arguments ≡ ok tt)
    × AllVerified plain hash config found (values_of answer)
decrypt_multi_get-AllVerified_example =
    decrypt_multi_get-AllVerified plain hash config_method (λ kwargs. ok (some (encrypted ∷ [])))
      arguments tt tt config (values_of answer) refl refl answered
