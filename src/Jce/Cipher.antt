-- ===== src/Jce/Cipher.antt =====
-- internal/crypto/jce_bridge/encryption.py: JavaCipher.
pub mod Names
use aws_dynamodb_encryption.Prelude.{
  ℕ, Text, Bytes, text, Bool, Option, none, some, List, [], ◌∷◌, ◌++◌, if◌then◌else◌, text_eq, ◌≡◌,
}
use aws_dynamodb_encryption.Result.{Result, ok, err, ◌>>=◌, or_raise, jce_transformation_error}
use aws_dynamodb_encryption.Texts.{split}
use aws_dynamodb_encryption.Dict.{Dict, get}
use aws_dynamodb_encryption.Jce.Library.{Cryptography, ModeType}
use aws_dynamodb_encryption.Jce.Primitives
use aws_dynamodb_encryption.Jce.Primitives.{
  JavaEncryptionAlgorithm, rsa, aes, aes_wrap, JavaPadding, algorithm_name, mode_name, padding_name,
  java_encryption_algorithm, java_mode, java_padding, LoadedKey, aes_wrap_key, aes_unwrap_key,
}

pub record JavaCipher : Type 0 where
  pub cipher : JavaEncryptionAlgorithm
  pub mode : ModeType
  pub padding : JavaPadding

module _ (l : Cryptography) where
  unfoldable pub encrypt : ℕ → JavaCipher → LoadedKey l → Bytes → Result Bytes
  encrypt seed self key plaintext =
      Primitives.encrypt l self.cipher seed key plaintext self.mode self.padding

  unfoldable pub decrypt : JavaCipher → LoadedKey l → Bytes → Result Bytes
  decrypt self key ciphertext =
      Primitives.decrypt l self.cipher key ciphertext self.mode self.padding

  -- RSA has no method `wrap`, so it encrypts the key.
  unfoldable pub wrap : ℕ → JavaCipher → LoadedKey l → Bytes → Result Bytes
  wrap seed self wrapping_key key_to_wrap = elim self.cipher [
    | rsa ↦ Primitives.encrypt l rsa seed wrapping_key key_to_wrap self.mode self.padding
    | _ ↦ aes_wrap_key l wrapping_key key_to_wrap
  ]

  unfoldable pub unwrap : JavaCipher → LoadedKey l → Bytes → Result Bytes
  unwrap self wrapping_key wrapped_key = elim self.cipher [
    | rsa ↦ Primitives.decrypt l rsa wrapping_key wrapped_key self.mode self.padding
    | _ ↦ aes_unwrap_key l wrapping_key wrapped_key
  ]

unfoldable pub transformation : JavaCipher → Text
transformation self =
    algorithm_name self.cipher ++ b'/' ∷ (mode_name self.mode ++ b'/' ∷ padding_name self.padding)

-- _map_load_or_error
unfoldable pub map_load_or_error {ℓ} : {A : Type ℓ} → Text → Dict A → Result A
map_load_or_error name mappings = or_raise jce_transformation_error (get name mappings)

unfoldable pub from_parts : List Text → Result JavaCipher
from_parts (algorithm ∷ mode_part ∷ padding_part ∷ []) = do
  cipher ← map_load_or_error algorithm java_encryption_algorithm
  mode ← map_load_or_error mode_part java_mode
  padding ← map_load_or_error padding_part java_padding
  ok (record { cipher = cipher; mode = mode; padding = padding })
from_parts parts = err jce_transformation_error

-- The two names that stand for a whole transformation; neither of these has a further short form.
unfoldable pub expand : Text → Text
expand name =
    if text_eq name (text "AESWrap")
    then text "AESWrap/ECB/NoPadding"
    else if text_eq name (text "RSA")
    then text "RSA/ECB/PKCS1Padding"
    else name

unfoldable pub from_transformation : Text → Result JavaCipher
from_transformation cipher_transformation = from_parts (split b'/' (expand cipher_transformation))
