-- ===== src/Materials/Wrapped.antt =====
-- materials/wrapped.py: WrappedCryptographicMaterials.
pub mod Reopening
use aws_dynamodb_encryption.Prelude.{
  ℕ, suc, Text, Bytes, text, Bool, Option, none, some, if◌then◌else◌, [], ◌∷◌,
}
use aws_dynamodb_encryption.Result.{
  Result, ok, err, ◌>>=◌, or_raise, value_error, wrapping_error, unwrapping_error,
}
use aws_dynamodb_encryption.Texts.{split_once}
use aws_dynamodb_encryption.Builtins.{Builtins}
use aws_dynamodb_encryption.Dict.{Dict, get, get_or, put, contains}
use aws_dynamodb_encryption.Identifiers.MaterialDescriptionKeys.{
  wrapped_data_key, content_encryption_algorithm, content_key_wrapping_algorithm,
}
use aws_dynamodb_encryption.Crypto.Materials.{DelegatedKey, WrappingKey, CryptographicMaterials}
use aws_dynamodb_encryption.Jce.Library.{Cryptography}
use aws_dynamodb_encryption.Jce.LocalKey.{JceNameLocalDelegatedKey, as_delegated_key}
use aws_dynamodb_encryption.Jce.LocalKey

abbrev pub default_content_encryption_algorithm : Text
default_content_encryption_algorithm = text "AES/256"

-- _WRAPPING_TRANSFORMATION
abbrev pub wrapping_transformations : Dict Text
wrapping_transformations =
    (text "AES", text "AESWrap") ∷ (text "RSA", text "RSA/ECB/OAEPWithSHA-256AndMGF1Padding") ∷ []

unfoldable pub wrapping_transformation : Text → Text
wrapping_transformation algorithm = get_or algorithm algorithm wrapping_transformations

-- self._content_key_algorithm, by the material description
unfoldable pub content_key_algorithm : Dict Text → Text
content_key_algorithm material_description =
    get_or default_content_encryption_algorithm content_encryption_algorithm material_description

-- The arguments: the keys, of which the last two may be left out, and the material description.
pub record Arguments : Type 0 where
  pub signing_key : DelegatedKey
  pub wrapping_key : Option WrappingKey
  pub unwrapping_key : Option WrappingKey

module _ (p : Builtins) where
  -- _content_key_from_material_description, for the value under WRAPPED_DATA_KEY
  unfoldable pub content_key_from_material_description :
      Option WrappingKey → Dict Text → Text → Result DelegatedKey
  content_key_from_material_description unwrapping_key material_description wrapped = do
    unwrapping ← or_raise unwrapping_error unwrapping_key
    wrapped_key ← or_raise value_error (p.b64decode wrapped)
    unwrapping.unwrap
        (get_or unwrapping.algorithm content_key_wrapping_algorithm material_description)
        wrapped_key (split_once b'/' (content_key_algorithm material_description)).0

  -- int(args[1]), where an IndexError leaves the length out
  unfoldable pub content_key_length : Option Text → Result (Option ℕ)
  content_key_length none = ok none
  content_key_length (some t) = do n ← or_raise value_error (p.parse_int t); ok (some n)

  module _ (l : Cryptography) where
    -- _generate_content_key: the key and the new material description
    unfoldable pub generate_content_key :
        ℕ → Option WrappingKey → Dict Text → Result (DelegatedKey × Dict Text)
    generate_content_key seed wrapping_key material_description = do
      wrapping ← or_raise wrapping_error wrapping_key
      let algorithm = content_key_algorithm material_description
      let wrapping_algorithm =
          get_or (wrapping_transformation wrapping.algorithm) content_key_wrapping_algorithm
            material_description
      length ← content_key_length (split_once b'/' algorithm).1
      content_key ← LocalKey.generate l p seed (split_once b'/' algorithm).0 length
      wrapped_key ← wrapping.wrap (suc seed) wrapping_algorithm content_key.key
      ok (
        as_delegated_key l content_key,
        put content_key_wrapping_algorithm wrapping_algorithm (
            put content_encryption_algorithm algorithm
              (put wrapped_data_key (p.b64encode wrapped_key) material_description)),
      )

    -- The content key and the material description that __attrs_post_init__ prepares.
    unfoldable pub prepare_content_key :
        ℕ → Arguments → Dict Text → Result (DelegatedKey × Dict Text)
    prepare_content_key seed arguments material_description =
        elim (get wrapped_data_key material_description) [
          | some wrapped ↦ do
            content_key ←
                content_key_from_material_description arguments.unwrapping_key material_description
                  wrapped
            ok (content_key, material_description)
          | none ↦ generate_content_key seed arguments.wrapping_key material_description
        ]

    -- WrappedCryptographicMaterials(...), with its properties
    unfoldable pub wrapped_cryptographic_materials :
        ℕ → Arguments → Dict Text → Result CryptographicMaterials
    wrapped_cryptographic_materials seed arguments material_description = do
      (content_key, description) ← prepare_content_key seed arguments material_description
      ok (record {
        material_description = description;
        encryption_key = ok content_key;
        decryption_key = ok content_key;
        signing_key = ok (arguments.signing_key);
        verification_key = ok (arguments.signing_key);
      })
