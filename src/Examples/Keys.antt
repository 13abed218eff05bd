-- ===== src/Examples/Keys.antt =====
-- Local keys, and items under wrapped materials, over ciphers that leave the bytes as they are.
use aws_dynamodb_encryption.Prelude.{
  leb, ◌&&◌, ◌-◌, ℕ, zero, suc, ◌/◌, Text, Bytes, text, true, Option, none, some, [], ◌∷◌, ◌++◌,
  ◌≡◌, ap, sym, refl, subst, some-injective, text_eq, text_eq_refl, length, if◌then◌else◌,
}
use aws_dynamodb_encryption.Result.{Result, ok, err, not_implemented_error}
use aws_dynamodb_encryption.Texts.{split_once, split, extend_first, occurs_in, starts_with}
use aws_dynamodb_encryption.Builtins.{Builtins, IsDocumented}
use aws_dynamodb_encryption.Dict.{get, get_or, put, put_all}
use aws_dynamodb_encryption.CryptoAction
use aws_dynamodb_encryption.Sorting.{text_le, insert_by, sort_by}
use aws_dynamodb_encryption.Formatting.Attribute.{Item}
use aws_dynamodb_encryption.Formatting.Pack.{pack_uint32, encode_value}
use aws_dynamodb_encryption.Formatting.Serialize.{
  to_bytes, transform_number_value, serialize_value, serialize_attribute,
}
use aws_dynamodb_encryption.Formatting.MaterialDescription
use aws_dynamodb_encryption.Structures.AttributeActions.{action}
use aws_dynamodb_encryption.Crypto.Materials.{Decrypts, Verifies, Unwraps}
use aws_dynamodb_encryption.Crypto.Encryption.{encrypt_attribute}
use aws_dynamodb_encryption.Crypto.Authentication.{
  signature_value, format_name, signed_attribute, signed_attributes, string_to_sign, sign_item,
}
use aws_dynamodb_encryption.Jce.Library.{symmetric, raw, Cryptography, IsSound, cbc}
use aws_dynamodb_encryption.Jce.Primitives
use aws_dynamodb_encryption.Jce.Primitives.{
  algorithm_name, mode_name, padding_name, java_encryption_algorithm, java_mode, java_padding,
  load_symmetric_key, pad, aes_encrypt, aes_wrap_key, aes, pkcs5_padding,
}
use aws_dynamodb_encryption.Jce.Cipher
use aws_dynamodb_encryption.Jce.Cipher.{
  JavaCipher, transformation, from_transformation, from_parts, expand, map_load_or_error,
}
use aws_dynamodb_encryption.Jce.Cipher.Names.{from_transformation-transformation}
use aws_dynamodb_encryption.Jce.Authentication
use aws_dynamodb_encryption.Jce.Authentication.{java_authenticator}
use aws_dynamodb_encryption.Jce.LocalKey
use aws_dynamodb_encryption.Jce.LocalKey.{
  encryption_and_wrap, authentication, JceNameLocalDelegatedKey, new_authenticator, is_symmetric,
  generate, generate_key, generate_symmetric_key, as_delegated_key, as_wrapping_key, if_encrypts,
  if_authenticates, encrypt, wrap, sign,
}
use aws_dynamodb_encryption.Jce.LocalKey.Making.{raw_key}
use aws_dynamodb_encryption.Jce.LocalKey.Contracts.{
  content_key, new-Decrypts, new-Verifies, new-Unwraps, length-generate,
}
use aws_dynamodb_encryption.Materials.Wrapped.{
  content_key_algorithm, content_key_length, wrapping_transformation, generate_content_key,
  prepare_content_key, wrapped_cryptographic_materials,
}
use aws_dynamodb_encryption.Encrypted.CryptoConfig
use aws_dynamodb_encryption.Encrypted.CryptoConfig.{CryptoConfig, encrypts, check_key}
use aws_dynamodb_encryption.Encrypted.CryptoConfig.Creation.{config_of}
use aws_dynamodb_encryption.Encrypted.Item.{
  add_signing_algorithm, encrypt_attributes, encrypted_attributes, sign_and_describe,
  encrypt_and_sign_item, encrypt_dynamodb_item, decrypt_dynamodb_item,
}
use aws_dynamodb_encryption.Encrypted.Item.Attributes.{restored}
use aws_dynamodb_encryption.Encrypted.Item.RoundTrip.{Reopens}
use aws_dynamodb_encryption.Providers.Wrapped.{build_materials, encryption_materials, as_provider}
use aws_dynamodb_encryption.Providers.Wrapped.Contract.{wrapped_provider-Reopens}
use aws_dynamodb_encryption.Providers.Wrapped.Items.{
  wrapped_with, decrypt-encrypt_with_wrapped_materials,
}
use aws_dynamodb_encryption.Examples.{context, actions, plain, plain-IsLossless, hash, sample}

-- The number of the first code point.
abbrev read_code : Text → Option ℕ
read_code [] = none
read_code (x ∷ t) = some x

abbrev upper_code : ℕ → ℕ
upper_code x = if leb 97 x && leb x 122 then x - 32 else x

abbrev upper_ascii : Text → Text
upper_ascii [] = []
upper_ascii (x ∷ t) = upper_code x ∷ upper_ascii t

abbrev pub builtins : Builtins
builtins = record {
  upper = upper_ascii;
  parse_int = read_code;
  format_int = λ n. n ∷ [];
  b64encode = λ b. b;
  b64decode = λ t. some t;
}

pub builtins-IsDocumented : IsDocumented builtins
builtins-IsDocumented = record {
  upper_aes = refl;
  parse_int-format_int = λ n. refl;
  b64decode-b64encode = λ b. refl;
}

abbrev pub repeated : ℕ → ℕ → Bytes
repeated x zero = []
repeated x (suc n) = x ∷ repeated x n

length-repeated : (x n : ℕ) → length (repeated x n) ≡ n
length-repeated x zero = refl
length-repeated x (suc n) = ap suc (length-repeated x n)

abbrev checked : Bytes → Bytes → Option (Unit {0})
checked expected found = if text_eq expected found then some tt else none

abbrev pub library : Cryptography
library = record {
  PrivateKey = Unit {0};
  PublicKey = Unit {0};
  urandom = λ seed n. repeated seed n;
  block_size = 128;
  aes_encrypt = λ mode key iv data_. some data_;
  aes_decrypt = λ mode key iv data_. some data_;
  pkcs7_pad = λ n data_. some data_;
  pkcs7_unpad = λ n data_. some data_;
  aes_key_wrap = λ key data_. some data_;
  aes_key_unwrap = λ key data_. some data_;
  hmac = λ h key data_. some (key ++ data_);
  hmac_verify = λ h key found data_. checked (key ++ data_) found;
  load_private_key = λ e b. err not_implemented_error;
  load_public_key = λ e b. err not_implemented_error;
  public_key = λ k. k;
  generate_rsa_private_key = λ seed n. err not_implemented_error;
  rsa_encrypt = λ seed k b q. none;
  rsa_decrypt = λ k b q. none;
  rsa_sign = λ k b h. none;
  rsa_verify = λ k b s h. none;
}

checked_same : (b : Bytes) → checked b b ≡ some tt
checked_same b = rw (text_eq_refl b)

pub library-IsSound : IsSound library
library-IsSound = record {
  length-urandom = length-repeated;
  aes_decrypt-aes_encrypt = λ key iv data_ out h. sym h;
  pkcs7_unpad-pkcs7_pad = λ n data_ out h. sym h;
  aes_key_unwrap-aes_key_wrap = λ key data_ out h. sym h;
  hmac_verify-hmac = λ h key data_ out g.
      subst (λ s. checked (key ++ data_) s ≡ some tt) (some-injective g)
        (checked_same (key ++ data_));
}

abbrev wrapping_key : JceNameLocalDelegatedKey library
wrapping_key = raw_key library (text "wrap") (text "AES") encryption_and_wrap

abbrev signing_key : JceNameLocalDelegatedKey library
signing_key = raw_key library (text "sign") (text "HmacSHA256") authentication

wrapping_key_made : LocalKey.new library (text "wrap") (text "AES") symmetric raw ≡ ok wrapping_key
unfolding LocalKey.new Primitives.load_key load_symmetric_key get java_encryption_algorithm text_eq
wrapping_key_made = refl

signing_key_made :
    LocalKey.new library (text "sign") (text "HmacSHA256") symmetric raw ≡ ok signing_key
unfolding LocalKey.new new_authenticator Authentication.load_key load_symmetric_key get
    java_encryption_algorithm java_authenticator text_eq
signing_key_made = refl

from_transformation-transformation_example :
    from_transformation
      (transformation (record { cipher = aes; mode = cbc; padding = pkcs5_padding }))
    ≡ ok (record { cipher = aes; mode = cbc; padding = pkcs5_padding })
from_transformation-transformation_example =
    from_transformation-transformation
      (record { cipher = aes; mode = cbc; padding = pkcs5_padding })

new-Decrypts_example :
    Decrypts (as_delegated_key library wrapping_key) (as_delegated_key library wrapping_key)
new-Decrypts_example =
    new-Decrypts library library-IsSound (text "wrap") (text "AES") wrapping_key wrapping_key_made

new-Verifies_example :
    Verifies (as_delegated_key library signing_key) (as_delegated_key library signing_key)
new-Verifies_example =
    new-Verifies library library-IsSound (text "sign") (text "HmacSHA256") signing_key
      signing_key_made

new-Unwraps_example :
    Unwraps
      (content_key library)
      (as_wrapping_key library wrapping_key)
      (as_wrapping_key library wrapping_key)
new-Unwraps_example =
    new-Unwraps library library-IsSound (text "wrap") (text "AES") wrapping_key wrapping_key_made

aes_is_symmetric : is_symmetric library builtins (text "AES") ≡ true
unfolding is_symmetric occurs_in starts_with text_eq
aes_is_symmetric = refl

aes_generated :
    generate library builtins 7 (text "AES") (some 256)
    ≡ ok (raw_key library (repeated 7 32) (text "AES") encryption_and_wrap)
unfolding generate generate_key generate_symmetric_key is_symmetric occurs_in starts_with
    LocalKey.new Primitives.load_key load_symmetric_key get java_encryption_algorithm text_eq
aes_generated = refl

length-generate_example : length (repeated 7 32) ≡ 256 / 8
length-generate_example =
    length-generate library library-IsSound builtins 7 (text "AES") 256
      (raw_key library (repeated 7 32) (text "AES") encryption_and_wrap) aes_is_symmetric
      aes_generated

abbrev wrapped_config : CryptoConfig
wrapped_config =
    config_of (as_provider builtins library 3 11 (wrapped_with library wrapping_key signing_key []))
      context actions

wrapped_config_created :
    CryptoConfig.new
      (as_provider builtins library 3 11 (wrapped_with library wrapping_key signing_key []))
      context
      actions
    ≡ ok wrapped_config
unfolding CryptoConfig.new check_key encrypts CryptoAction.eq CryptoAction.value action get text_eq
wrapped_config_created = refl

content_is_symmetric :
    is_symmetric library builtins
      (split_once b'/' (content_key_algorithm (put_all [] context.material_description))).0
    ≡ true
unfolding is_symmetric occurs_in starts_with text_eq split_once content_key_algorithm put_all get_or
    get
content_is_symmetric = refl

wrapped_provider-Reopens_example : Reopens wrapped_config
wrapped_provider-Reopens_example =
    wrapped_provider-Reopens builtins library 3 11 builtins-IsDocumented library-IsSound
      (as_wrapping_key library wrapping_key) (as_wrapping_key library wrapping_key)
      (wrapped_with library wrapping_key signing_key []) refl refl
      (new-Unwraps library library-IsSound (text "wrap") (text "AES") wrapping_key
        wrapping_key_made)
      (new-Verifies library library-IsSound (text "sign") (text "HmacSHA256") signing_key
        signing_key_made)
      tt context actions tt content_is_symmetric

abbrev value_of : Result Item → Item
value_of (ok e) = e
value_of (err e) = []

abbrev wrapped_item : Item
wrapped_item = value_of (encrypt_dynamodb_item plain hash 5 sample wrapped_config)

wrapped_sample_encrypts : encrypt_dynamodb_item plain hash 5 sample wrapped_config ≡ ok wrapped_item
unfolding encrypt_dynamodb_item encrypt_and_sign_item CryptoConfig.encryption_materials
    encrypted_attributes encrypt_attributes encrypts CryptoAction.eq CryptoAction.value action get
    put encrypt_attribute serialize_attribute to_bytes transform_number_value serialize_value
    sign_and_describe sign_item string_to_sign signed_attributes signed_attribute signature_value
    format_name sort_by insert_by text_le text_eq add_signing_algorithm
    MaterialDescription.serialize MaterialDescription.write_entries MaterialDescription.encode_text
    pack_uint32 encode_value MaterialDescription.catch_invalid encryption_materials build_materials
    wrapped_cryptographic_materials prepare_content_key generate_content_key wrapping_transformation
    content_key_algorithm content_key_length get_or put_all split_once generate generate_key
    generate_symmetric_key is_symmetric occurs_in starts_with LocalKey.new Primitives.load_key
    load_symmetric_key java_encryption_algorithm if_encrypts if_authenticates encrypt wrap sign
    Cipher.encrypt Cipher.wrap from_transformation from_parts expand split extend_first
    map_load_or_error java_mode java_padding Primitives.encrypt aes_encrypt aes_wrap_key pad
    Authentication.sign java_authenticator algorithm_name mode_name padding_name
wrapped_sample_encrypts = refl

decrypt-encrypt_with_wrapped_materials_example :
    decrypt_dynamodb_item plain hash wrapped_item wrapped_config
    ≡ ok (restored plain wrapped_config.attribute_actions sample)
decrypt-encrypt_with_wrapped_materials_example =
    decrypt-encrypt_with_wrapped_materials builtins library builtins-IsDocumented library-IsSound
      (text "wrap") (text "sign") (text "AES") (text "HmacSHA256") wrapping_key signing_key
      wrapping_key_made signing_key_made plain plain-IsLossless hash 3 11 5 [] context actions
      wrapped_config sample wrapped_item tt tt content_is_symmetric wrapped_config_created refl
      wrapped_sample_encrypts
