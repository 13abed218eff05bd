-- ===== src/Providers/Wrapped/Items.antt =====
-- Items that are protected with wrapped materials, whose wrapping and signing keys are local keys of raw
-- bytes: from the encryptor down to the calls of the package `cryptography`.
use aws_dynamodb_encryption.Prelude.{ℕ, Text, Bytes, true, false, some, ◌≡◌, refl, subst}
use aws_dynamodb_encryption.Result.{ok}
use aws_dynamodb_encryption.Texts.{split_once}
use aws_dynamodb_encryption.Builtins.{Builtins, IsDocumented}
use aws_dynamodb_encryption.Dict.{Dict, IsDict, put_all}
use aws_dynamodb_encryption.Formatting.Attribute.{Item, Codec, IsLossless}
use aws_dynamodb_encryption.Structures.EncryptionContext.{EncryptionContext}
use aws_dynamodb_encryption.Structures.AttributeActions.{AttributeActions}
use aws_dynamodb_encryption.Jce.Library.{symmetric, raw, Cryptography, IsSound}
use aws_dynamodb_encryption.Jce.LocalKey
use aws_dynamodb_encryption.Jce.LocalKey.{
  JceNameLocalDelegatedKey, as_delegated_key, as_wrapping_key, is_symmetric,
}
use aws_dynamodb_encryption.Jce.LocalKey.Contracts.{new-Verifies, new-Unwraps}
use aws_dynamodb_encryption.Materials.Wrapped.{content_key_algorithm}
use aws_dynamodb_encryption.Encrypted.CryptoConfig
use aws_dynamodb_encryption.Encrypted.CryptoConfig.{CryptoConfig}
use aws_dynamodb_encryption.Encrypted.CryptoConfig.Creation.{config_of, new-eq-ok, copy-new}
use aws_dynamodb_encryption.Encrypted.Item.{encrypt_dynamodb_item, decrypt_dynamodb_item}
use aws_dynamodb_encryption.Encrypted.Item.Attributes.{restored}
use aws_dynamodb_encryption.Encrypted.Item.RoundTrip.{Reopens, decrypt-encrypt_dynamodb_item}
use aws_dynamodb_encryption.Providers.Wrapped.{WrappedCryptographicMaterialsProvider, as_provider}
use aws_dynamodb_encryption.Providers.Wrapped.Contract.{wrapped_provider-Reopens}

-- A provider of the two keys.
abbrev pub wrapped_with :
    (l : Cryptography)
    → JceNameLocalDelegatedKey l
    → JceNameLocalDelegatedKey l
    → Dict Text
    → WrappedCryptographicMaterialsProvider
wrapped_with l wrapping signing description = record {
  keys = record {
    signing_key = as_delegated_key l signing;
    wrapping_key = some (as_wrapping_key l wrapping);
    unwrapping_key = some (as_wrapping_key l wrapping);
  };
  material_description = description;
}

module _ (p : Builtins) (l : Cryptography) (documented : IsDocumented p) (sound : IsSound l)
    (wrapping_bytes signing_bytes : Bytes) (wrapping_algorithm signing_algorithm : Text)
    (wrapping signing : JceNameLocalDelegatedKey l)
    (wraps : LocalKey.new l wrapping_bytes wrapping_algorithm symmetric raw ≡ ok wrapping)
    (signs : LocalKey.new l signing_bytes signing_algorithm symmetric raw ≡ ok signing) where
  -- Decrypting what the encryption of an item returned, both under wrapped materials whose wrapping and signing
  -- keys the constructor made of raw symmetric bytes, returns the item: each attribute that is encrypted in its
  -- canonical form, every other one unchanged, whatever random bytes the calls for encryption and for
  -- decryption draw. The functions of the package cryptography and of the standard
  -- library must do what is documented of them, the codec must be lossless, the two descriptions must be dicts,
  -- the algorithm of the content key must be symmetric, the configuration must be one that its constructor made,
  -- and some action must be asked for.
  pub decrypt-encrypt_with_wrapped_materials :
      (c : Codec) (lossless : IsLossless c) (sha256 : Bytes → Bytes) (key_seed later_seed seed : ℕ)
      (description : Dict Text) (context : EncryptionContext) (actions : AttributeActions)
      (config : CryptoConfig) (item e : Item)
      → IsDict description
      → IsDict context.material_description
      → is_symmetric l p
          (split_once b'/'
            (content_key_algorithm (put_all description context.material_description))).0
        ≡ true
      → CryptoConfig.new
          (as_provider p l key_seed later_seed (wrapped_with l wrapping signing description))
          context
          actions
        ≡ ok config
      → config.attribute_actions.take_no_actions ≡ false
      → encrypt_dynamodb_item c sha256 seed item config ≡ ok e
      → decrypt_dynamodb_item c sha256 e config ≡ ok (restored c config.attribute_actions item)
  decrypt-encrypt_with_wrapped_materials c lossless sha256 key_seed later_seed seed description
        context actions config item e own given s created active h =
      let provider =
        as_provider p l key_seed later_seed (wrapped_with l wrapping signing description) in
      let reopens : Reopens (config_of provider context actions) =
        wrapped_provider-Reopens p l key_seed later_seed documented sound
          (as_wrapping_key l wrapping) (as_wrapping_key l wrapping)
          (wrapped_with l wrapping signing description) refl refl
          (new-Unwraps l sound wrapping_bytes wrapping_algorithm wrapping wraps)
          (new-Verifies l sound signing_bytes signing_algorithm signing signs) own context actions
          given s in
      decrypt-encrypt_dynamodb_item c sha256 lossless seed item e config active
        (copy-new provider context actions config created)
        (subst Reopens (new-eq-ok provider context actions config created) reopens) h
