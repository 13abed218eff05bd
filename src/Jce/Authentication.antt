-- ===== src/Jce/Authentication.antt =====
-- internal/crypto/jce_bridge/authentication.py: JavaMac and JavaSignature.
use aws_dynamodb_encryption.Prelude.{Text, Bytes, text, [], ◌∷◌}
use aws_dynamodb_encryption.Result.{
  Result, ok, err, guard, or_raise, value_error, invalid_algorithm_error, signing_error,
  signature_verification_error,
}
use aws_dynamodb_encryption.Texts.{starts_with, ends_with}
use aws_dynamodb_encryption.Dict.{Dict}
use aws_dynamodb_encryption.Jce.Library.{
  EncryptionKeyType, symmetric, KeyEncodingType, raw, HashType, sha224, sha256, sha384, sha512,
  Cryptography,
}
use aws_dynamodb_encryption.Jce.Primitives.{
  LoadedKey, bytes_key, private_key, public_key, load_rsa_key,
}

-- JavaMac over HMAC, and JavaSignature over RSA with PKCS1v15, with their hash_type
pub data JavaAuthenticator : Type 0 where
  java_mac : HashType → JavaAuthenticator
  java_signature : HashType → JavaAuthenticator

unfoldable pub java_authenticator : Dict JavaAuthenticator
java_authenticator =
    (text "HmacSHA224", java_mac sha224)
    ∷ (text "HmacSHA256", java_mac sha256)
    ∷ (text "HmacSHA384", java_mac sha384)
    ∷ (text "HmacSHA512", java_mac sha512)
    ∷ (text "SHA224withRSA", java_signature sha224)
    ∷ (text "SHA256withRSA", java_signature sha256)
    ∷ (text "SHA384withRSA", java_signature sha384)
    ∷ (text "SHA512withRSA", java_signature sha512)
    ∷ []

-- The name of an authenticator is a prefix of those compatible with a MAC, a suffix of those compatible
-- with a signature.
unfoldable pub validate_algorithm : Text → JavaAuthenticator → Text → Result (Unit {0})
validate_algorithm java_name (java_mac h) algorithm =
    guard (starts_with java_name algorithm) invalid_algorithm_error
validate_algorithm java_name (java_signature h) algorithm =
    guard (ends_with java_name algorithm) invalid_algorithm_error

module _ (l : Cryptography) where
  unfoldable pub load_key :
      JavaAuthenticator → Bytes → EncryptionKeyType → KeyEncodingType → Result (LoadedKey l)
  load_key (java_mac h) key symmetric raw = ok (bytes_key key)
  load_key (java_mac h) key key_type key_encoding = err value_error
  load_key (java_signature h) key key_type key_encoding = load_rsa_key l key key_type key_encoding

  unfoldable pub sign : JavaAuthenticator → LoadedKey l → Bytes → Result Bytes
  sign (java_mac h) (bytes_key key) message = or_raise signing_error (l.hmac h key message)
  sign (java_signature h) (private_key key) message =
      or_raise signing_error (l.rsa_sign key message h)
  sign self key message = err signing_error

  unfoldable pub verify : JavaAuthenticator → LoadedKey l → Bytes → Bytes → Result (Unit {0})
  verify (java_mac h) (bytes_key key) signature message =
      or_raise signature_verification_error (l.hmac_verify h key signature message)
  verify (java_signature h) (private_key key) signature message =
      or_raise signature_verification_error (l.rsa_verify (l.public_key key) signature message h)
  verify (java_signature h) (public_key key) signature message =
      or_raise signature_verification_error (l.rsa_verify key signature message h)
  verify self key signature message = err signature_verification_error
