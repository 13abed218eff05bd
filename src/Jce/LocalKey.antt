-- ===== src/Jce/LocalKey.antt =====
-- delegated_keys/jce.py: JceNameLocalDelegatedKey.
pub mod Making
pub mod Contracts
use aws_dynamodb_encryption.Prelude.{
  ℕ, ◌/◌, Text, Bytes, text, Bool, true, false, ◌||◌, Option, none, some, if◌then◌else◌, text_eq,
}
use aws_dynamodb_encryption.Result.{
  Result, ok, err, ◌>>=◌, or_raise, value_error, type_error, key_error, not_implemented_error,
  jce_transformation_error, unwrapping_error,
}
use aws_dynamodb_encryption.Texts.{occurs_in}
use aws_dynamodb_encryption.Builtins.{Builtins}
use aws_dynamodb_encryption.Dict.{get}
use aws_dynamodb_encryption.Crypto.Materials.{DelegatedKey, WrappingKey}
use aws_dynamodb_encryption.Jce.Library.{
  EncryptionKeyType, symmetric, private, public, KeyEncodingType, raw, der, Cryptography,
}
use aws_dynamodb_encryption.Jce.Primitives
use aws_dynamodb_encryption.Jce.Primitives.{LoadedKey, java_encryption_algorithm}
use aws_dynamodb_encryption.Jce.Cipher
use aws_dynamodb_encryption.Jce.Cipher.{from_transformation}
use aws_dynamodb_encryption.Jce.Authentication
use aws_dynamodb_encryption.Jce.Authentication.{java_authenticator}

-- The methods that __attrs_post_init__ enables.
pub data Methods : Type 0 where
  encryption_and_wrap authentication : Methods

pub record JceNameLocalDelegatedKey (l : Cryptography) : Type 0 where
  pub key : Bytes
  pub algorithm : Text
  pub key_type : EncryptionKeyType
  pub key_encoding : KeyEncodingType
  pub loaded : LoadedKey l
  pub enabled : Methods

module _ (l : Cryptography) where
  -- What was loaded, with the methods that go with it.
  abbrev pub build :
      Bytes
      → Text
      → EncryptionKeyType
      → KeyEncodingType
      → Methods
      → LoadedKey l
      → JceNameLocalDelegatedKey l
  build key algorithm key_type key_encoding enabled loaded = record {
    key = key;
    algorithm = algorithm;
    key_type = key_type;
    key_encoding = key_encoding;
    loaded = loaded;
    enabled = enabled;
  }

  -- Now try for authenticators
  unfoldable pub new_authenticator :
      Bytes → Text → EncryptionKeyType → KeyEncodingType → Result (JceNameLocalDelegatedKey l)
  new_authenticator key algorithm key_type key_encoding = do
    key_transformer ← or_raise jce_transformation_error (get algorithm java_authenticator)
    loaded ← Authentication.load_key l key_transformer key key_type key_encoding
    ok (build key algorithm key_type key_encoding authentication loaded)

  -- JceNameLocalDelegatedKey(...), with __attrs_post_init__
  unfoldable pub new :
      Bytes → Text → EncryptionKeyType → KeyEncodingType → Result (JceNameLocalDelegatedKey l)
  new key algorithm key_type key_encoding = elim (get algorithm java_encryption_algorithm) [
    | some key_transformer ↦ do
      loaded ← Primitives.load_key l key_transformer key key_type key_encoding
      ok (build key algorithm key_type key_encoding encryption_and_wrap loaded)
    | none ↦ new_authenticator key algorithm key_type key_encoding
  ]

  -- _generate_symmetric_key: None // 8 is a TypeError
  unfoldable pub generate_symmetric_key :
      ℕ → Option ℕ → Result (Bytes × EncryptionKeyType × KeyEncodingType)
  generate_symmetric_key seed none = err type_error
  generate_symmetric_key seed (some key_length) =
      ok (l.urandom seed (key_length / 8), symmetric, raw)

  unfoldable pub generate_rsa_key :
      ℕ → Option ℕ → Result (Bytes × EncryptionKeyType × KeyEncodingType)
  generate_rsa_key seed none = err type_error
  generate_rsa_key seed (some key_length) = do
    key_bytes ← l.generate_rsa_private_key seed key_length
    ok (key_bytes, private, der)

  -- The normalized name is SYMMETRIC.
  unfoldable pub is_symmetric : Builtins → Text → Bool
  is_symmetric p algorithm =
      let lookup = p.upper algorithm in
      occurs_in (text "HMAC") lookup
      || text_eq lookup (text "AES")
      || text_eq lookup (text "AESWRAP")

  -- _ALGORITHM_GENERATE_MAP, by the normalized name
  unfoldable pub generate_key :
      Builtins → ℕ → Text → Option ℕ → Result (Bytes × EncryptionKeyType × KeyEncodingType)
  generate_key p seed algorithm key_length =
      let lookup = p.upper algorithm in
      if is_symmetric p algorithm
      then generate_symmetric_key seed key_length
      else if occurs_in (text "RSA") lookup
      then generate_rsa_key seed key_length
      else if text_eq lookup (text "SYMMETRIC")
      then generate_symmetric_key seed key_length
      else err value_error

  unfoldable pub generate : Builtins → ℕ → Text → Option ℕ → Result (JceNameLocalDelegatedKey l)
  generate p seed algorithm key_length = do
    (key, key_type, key_encoding) ← generate_key p seed algorithm key_length
    new key algorithm key_type key_encoding

  -- _encrypt and _decrypt
  unfoldable pub encrypt : ℕ → JceNameLocalDelegatedKey l → Text → Text → Bytes → Result Bytes
  encrypt seed self algorithm name plaintext = do
    encryptor ← from_transformation algorithm
    Cipher.encrypt l seed encryptor self.loaded plaintext

  unfoldable pub decrypt : JceNameLocalDelegatedKey l → Text → Text → Bytes → Result Bytes
  decrypt self algorithm name ciphertext = do
    decryptor ← from_transformation algorithm
    Cipher.decrypt l decryptor self.loaded ciphertext

  -- _wrap and _unwrap
  unfoldable pub wrap : ℕ → JceNameLocalDelegatedKey l → Text → Bytes → Result Bytes
  wrap seed self algorithm content_key = do
    wrapper ← from_transformation algorithm
    Cipher.wrap l seed wrapper self.loaded content_key

  unfoldable pub unwrap_symmetric :
      JceNameLocalDelegatedKey l → Text → Bytes → Text → Result (JceNameLocalDelegatedKey l)
  unwrap_symmetric self algorithm wrapped_key wrapped_key_algorithm = do
    unwrapper ← from_transformation algorithm
    unwrapped_key ← Cipher.unwrap l unwrapper self.loaded wrapped_key
    new unwrapped_key wrapped_key_algorithm symmetric raw

  unfoldable pub unwrap :
      JceNameLocalDelegatedKey l
      → Text
      → Bytes
      → Text
      → EncryptionKeyType
      → Result (JceNameLocalDelegatedKey l)
  unwrap self algorithm wrapped_key wrapped_key_algorithm symmetric =
      unwrap_symmetric self algorithm wrapped_key wrapped_key_algorithm
  unwrap self algorithm wrapped_key wrapped_key_algorithm wrapped_key_type = err unwrapping_error

  -- _sign and _verify: JAVA_AUTHENTICATOR[algorithm] may raise KeyError
  unfoldable pub sign : JceNameLocalDelegatedKey l → Text → Bytes → Result Bytes
  sign self algorithm message = do
    signer ← or_raise key_error (get algorithm java_authenticator)
    Authentication.sign l signer self.loaded message

  unfoldable pub verify : JceNameLocalDelegatedKey l → Text → Bytes → Bytes → Result (Unit {0})
  verify self algorithm signature message = do
    verifier ← or_raise key_error (get algorithm java_authenticator)
    Authentication.verify l verifier self.loaded signature message

  -- A method that was not enabled raises NotImplementedError.
  unfoldable pub if_encrypts {ℓ} : {A : Type ℓ} → JceNameLocalDelegatedKey l → Result A → Result A
  if_encrypts self r = elim self.enabled [
    | encryption_and_wrap ↦ r
    | authentication ↦ err not_implemented_error
  ]

  unfoldable pub if_authenticates {ℓ} :
      {A : Type ℓ} → JceNameLocalDelegatedKey l → Result A → Result A
  if_authenticates self r = elim self.enabled [
    | encryption_and_wrap ↦ err not_implemented_error
    | authentication ↦ r
  ]

  -- The key as the rest of the library sees it.
  abbrev pub as_delegated_key : JceNameLocalDelegatedKey l → DelegatedKey
  as_delegated_key self = record {
    algorithm = self.algorithm;
    allowed_for_raw_materials = text_eq self.algorithm (text "AES");
    encrypt = λ seed algorithm name plaintext.
        if_encrypts self (encrypt seed self algorithm name plaintext);
    decrypt =
        λ algorithm name ciphertext. if_encrypts self (decrypt self algorithm name ciphertext);
    sign = λ algorithm message. if_authenticates self (sign self algorithm message);
    verify = λ algorithm signature message.
        if_authenticates self (verify self algorithm signature message);
    signing_algorithm = if_authenticates self (ok self.algorithm);
  }

  -- An unwrapped key is a delegated key again.
  unfoldable pub unwrap_delegated :
      JceNameLocalDelegatedKey l → Text → Bytes → Text → EncryptionKeyType → Result DelegatedKey
  unwrap_delegated self algorithm wrapped_key wrapped_key_algorithm wrapped_key_type = do
    k ← unwrap self algorithm wrapped_key wrapped_key_algorithm wrapped_key_type
    ok (as_delegated_key k)

  abbrev pub as_wrapping_key : JceNameLocalDelegatedKey l → WrappingKey
  as_wrapping_key self = record {
    algorithm = self.algorithm;
    wrap = λ seed algorithm content_key. if_encrypts self (wrap seed self algorithm content_key);
    unwrap = λ algorithm wrapped_key wrapped_key_algorithm.
        if_encrypts self
          (unwrap_delegated self algorithm wrapped_key wrapped_key_algorithm symmetric);
  }
