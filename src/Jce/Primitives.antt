-- ===== src/Jce/Primitives.antt =====
-- internal/crypto/jce_bridge/primitives.py: ciphers, modes and paddings by their Java names.
pub mod RoundTrip
use aws_dynamodb_encryption.Prelude.{
  ℕ, ◌/◌, Text, Bytes, text, Bool, Option, none, some, ◌++◌, length, take, drop, ◌≡◌, ◌∙◌, ap, sym,
  take-append, drop-append, not, text_eq, List, [], ◌∷◌,
}
use aws_dynamodb_encryption.Result.{
  Error, Result, ok, err, ◌>>=◌, ◌>>◌, guard, or_raise, value_error, not_implemented_error,
  invalid_algorithm_error, encryption_error, decryption_error, wrapping_error, unwrapping_error,
}
use aws_dynamodb_encryption.Dict.{Dict}
use aws_dynamodb_encryption.Jce.Library.{
  EncryptionKeyType, symmetric, private, public, KeyEncodingType, raw, der, pem, HashType, sha1,
  sha256, sha384, sha512, ModeType, ecb, cbc, ctr, gcm, RsaPadding, pkcs1v15, oaep, no_rsa_padding,
  Cryptography,
}

pub data JavaEncryptionAlgorithm : Type 0 where
  rsa aes aes_wrap : JavaEncryptionAlgorithm

pub data JavaPadding : Type 0 where
  no_padding pkcs1_padding pkcs5_padding oaep_sha1 oaep_sha256 oaep_sha384 oaep_sha512 : JavaPadding

-- java_name
unfoldable pub algorithm_name : JavaEncryptionAlgorithm → Text
algorithm_name rsa = text "RSA"
algorithm_name aes = text "AES"
algorithm_name aes_wrap = text "AESWrap"

unfoldable pub mode_name : ModeType → Text
mode_name ecb = text "ECB"
mode_name cbc = text "CBC"
mode_name ctr = text "CTR"
mode_name gcm = text "GCM"

unfoldable pub padding_name : JavaPadding → Text
padding_name no_padding = text "NoPadding"
padding_name pkcs1_padding = text "PKCS1Padding"
padding_name pkcs5_padding = text "PKCS5Padding"
padding_name oaep_sha1 = text "OAEPWithSHA-1AndMGF1Padding"
padding_name oaep_sha256 = text "OAEPWithSHA-256AndMGF1Padding"
padding_name oaep_sha384 = text "OAEPWithSHA-384AndMGF1Padding"
padding_name oaep_sha512 = text "OAEPWithSHA-512AndMGF1Padding"

unfoldable pub java_encryption_algorithm : Dict JavaEncryptionAlgorithm
java_encryption_algorithm = (text "RSA", rsa) ∷ (text "AES", aes) ∷ (text "AESWrap", aes_wrap) ∷ []

unfoldable pub java_mode : Dict ModeType
java_mode = (text "ECB", ecb) ∷ (text "CBC", cbc) ∷ (text "CTR", ctr) ∷ (text "GCM", gcm) ∷ []

unfoldable pub java_padding : Dict JavaPadding
java_padding =
    (text "NoPadding", no_padding)
    ∷ (text "PKCS1Padding", pkcs1_padding)
    ∷ (text "PKCS5Padding", pkcs5_padding)
    ∷ (text "OAEPWithSHA-1AndMGF1Padding", oaep_sha1)
    ∷ (text "OAEPWithSHA-256AndMGF1Padding", oaep_sha256)
    ∷ (text "OAEPWithSHA-384AndMGF1Padding", oaep_sha384)
    ∷ (text "OAEPWithSHA-512AndMGF1Padding", oaep_sha512)
    ∷ []

-- JavaEncryptionAlgorithm.validate_algorithm
unfoldable pub validate_algorithm : JavaEncryptionAlgorithm → Text → Result (Unit {0})
validate_algorithm self algorithm =
    guard (text_eq algorithm (algorithm_name self)) invalid_algorithm_error

-- padding.build() for RSA, where a padding that needs a block size raises TypeError
unfoldable pub build_rsa_padding : JavaPadding → Option RsaPadding
build_rsa_padding no_padding = some no_rsa_padding
build_rsa_padding pkcs1_padding = some pkcs1v15
build_rsa_padding pkcs5_padding = none
build_rsa_padding oaep_sha1 = some (oaep sha1 sha1)
build_rsa_padding oaep_sha256 = some (oaep sha256 sha1)
build_rsa_padding oaep_sha384 = some (oaep sha384 sha1)
build_rsa_padding oaep_sha512 = some (oaep sha512 sha1)

-- A key that was loaded: raw bytes, or an RSA key.
pub data LoadedKey (l : Cryptography) : Type 0 where
  bytes_key : Bytes → LoadedKey l
  private_key : l.PrivateKey → LoadedKey l
  public_key : l.PublicKey → LoadedKey l

module _ (l : Cryptography) where
  -- padding.build(block_size).padder(), which the paddings for RSA do not have
  unfoldable pub pad : JavaPadding → Bytes → Option Bytes
  pad no_padding d = some d
  pad pkcs5_padding d = l.pkcs7_pad l.block_size d
  pad _ d = none

  unfoldable pub unpad : JavaPadding → Bytes → Option Bytes
  unpad no_padding d = some d
  unpad pkcs5_padding d = l.pkcs7_unpad l.block_size d
  unpad _ d = none

  -- The size of a key is only logged.
  unfoldable pub load_rsa_key : Bytes → EncryptionKeyType → KeyEncodingType → Result (LoadedKey l)
  load_rsa_key key symmetric encoding = err value_error
  load_rsa_key key key_type raw = err value_error
  load_rsa_key key private encoding = do k ← l.load_private_key encoding key; ok (private_key k)
  load_rsa_key key public encoding = do k ← l.load_public_key encoding key; ok (public_key k)

  -- JavaSymmetricEncryptionAlgorithm.load_key
  unfoldable pub load_symmetric_key :
      Bytes → EncryptionKeyType → KeyEncodingType → Result (LoadedKey l)
  load_symmetric_key key symmetric raw = ok (bytes_key key)
  load_symmetric_key key key_type key_encoding = err value_error

  -- load_key
  unfoldable pub load_key :
      JavaEncryptionAlgorithm → Bytes → EncryptionKeyType → KeyEncodingType → Result (LoadedKey l)
  load_key rsa = load_rsa_key
  load_key _ = load_symmetric_key

  -- Ciphers with a raw key.
  unfoldable pub aes_encrypt : ℕ → Bytes → Bytes → ModeType → JavaPadding → Result Bytes
  aes_encrypt seed key plaintext mode padding_type = do
    let iv = l.urandom seed (l.block_size / 8)
    padded ← or_raise encryption_error (pad padding_type plaintext)
    encrypted ← or_raise encryption_error (l.aes_encrypt mode key iv padded)
    ok (iv ++ encrypted)

  unfoldable pub aes_decrypt : Bytes → Bytes → ModeType → JavaPadding → Result Bytes
  aes_decrypt key ciphertext mode padding_type = do
    let iv_len = l.block_size / 8
    decrypted ←
        or_raise decryption_error
          (l.aes_decrypt mode key (take iv_len ciphertext) (drop iv_len ciphertext))
    or_raise decryption_error (unpad padding_type decrypted)

  unfoldable pub rsa_encrypt : ℕ → l.PublicKey → Bytes → JavaPadding → Result Bytes
  rsa_encrypt seed key plaintext padding_type = do
    built ← or_raise encryption_error (build_rsa_padding padding_type)
    or_raise encryption_error (l.rsa_encrypt seed key plaintext built)

  unfoldable pub rsa_decrypt : l.PrivateKey → Bytes → JavaPadding → Result Bytes
  rsa_decrypt key ciphertext padding_type = do
    built ← or_raise decryption_error (build_rsa_padding padding_type)
    or_raise decryption_error (l.rsa_decrypt key ciphertext built)

  -- encrypt, also with a key that was loaded for another algorithm
  unfoldable pub encrypt :
      JavaEncryptionAlgorithm → ℕ → LoadedKey l → Bytes → ModeType → JavaPadding → Result Bytes
  encrypt aes_wrap seed key plaintext mode padding_type = err not_implemented_error
  encrypt aes seed (bytes_key key) plaintext mode padding_type =
      aes_encrypt seed key plaintext mode padding_type
  encrypt rsa seed (private_key key) plaintext mode padding_type =
      rsa_encrypt seed (l.public_key key) plaintext padding_type
  encrypt rsa seed (public_key key) plaintext mode padding_type =
      rsa_encrypt seed key plaintext padding_type
  encrypt _ seed key plaintext mode padding_type = err encryption_error

  unfoldable pub decrypt :
      JavaEncryptionAlgorithm → LoadedKey l → Bytes → ModeType → JavaPadding → Result Bytes
  decrypt aes_wrap key ciphertext mode padding_type = err not_implemented_error
  decrypt aes (bytes_key key) ciphertext mode padding_type =
      aes_decrypt key ciphertext mode padding_type
  decrypt rsa (private_key key) ciphertext mode padding_type =
      rsa_decrypt key ciphertext padding_type
  decrypt rsa (public_key key) ciphertext mode padding_type = err not_implemented_error
  decrypt _ key ciphertext mode padding_type = err decryption_error

  -- JavaSymmetricEncryptionAlgorithm.wrap and unwrap
  unfoldable pub aes_wrap_key : LoadedKey l → Bytes → Result Bytes
  aes_wrap_key (bytes_key key) key_to_wrap =
      or_raise wrapping_error (l.aes_key_wrap key key_to_wrap)
  aes_wrap_key key key_to_wrap = err wrapping_error

  unfoldable pub aes_unwrap_key : LoadedKey l → Bytes → Result Bytes
  aes_unwrap_key (bytes_key key) wrapped_key =
      or_raise unwrapping_error (l.aes_key_unwrap key wrapped_key)
  aes_unwrap_key key wrapped_key = err unwrapping_error
