-- ===== src/Crypto/Materials.antt =====
-- The interfaces of delegated_keys/__init__.py, materials/__init__.py and
-- material_providers/__init__.py. What an object of a class that implements one of them computes is a
-- parameter; a property or a method that the class leaves out raises AttributeError or
-- NotImplementedError.
use aws_dynamodb_encryption.Prelude.{ℕ, Text, Bytes, Bool, ◌++◌, ◌≡◌}
use aws_dynamodb_encryption.Result.{Result, ok}
use aws_dynamodb_encryption.Dict.{Dict}
use aws_dynamodb_encryption.Identifiers.MaterialDescriptionKeys.{cbc_pkcs5_attribute_encryption}
use aws_dynamodb_encryption.Structures.EncryptionContext.{EncryptionContext}

pub record DelegatedKey : Type 0 where
  pub algorithm : Text
  pub allowed_for_raw_materials : Bool
  -- encrypt(algorithm, name, plaintext); the number stands for the random bytes of the call
  pub encrypt : ℕ → Text → Text → Bytes → Result Bytes
  -- decrypt(algorithm, name, ciphertext)
  pub decrypt : Text → Text → Bytes → Result Bytes
  -- sign(algorithm, data) and verify(algorithm, signature, data)
  pub sign : Text → Bytes → Result Bytes
  pub verify : Text → Bytes → Bytes → Result (Unit {0})
  pub signing_algorithm : Result Text

-- A delegated key by what wraps and unwraps content keys with it, which are symmetric.
pub record WrappingKey : Type 0 where
  pub algorithm : Text
  -- wrap(algorithm, content_key); the number stands for the random bytes of the call
  pub wrap : ℕ → Text → Bytes → Result Bytes
  -- unwrap(algorithm, wrapped_key, wrapped_key_algorithm, SYMMETRIC)
  pub unwrap : Text → Bytes → Text → Result DelegatedKey

pub record CryptographicMaterials : Type 0 where
  pub material_description : Dict Text
  pub encryption_key : Result DelegatedKey
  pub decryption_key : Result DelegatedKey
  pub signing_key : Result DelegatedKey
  pub verification_key : Result DelegatedKey

pub record CryptographicMaterialsProvider : Type 0 where
  pub decryption_materials : EncryptionContext → Result CryptographicMaterials
  pub encryption_materials : EncryptionContext → Result CryptographicMaterials

-- What the one key encrypts under an algorithm the other decrypts, whatever the random bytes.
abbrev pub DecryptsAt : Text → DelegatedKey → DelegatedKey → Type 0
DecryptsAt algorithm k l =
    (seed : ℕ) (name : Text) (plaintext ciphertext : Bytes)
    → k.encrypt seed algorithm name plaintext ≡ ok ciphertext
    → l.decrypt algorithm name ciphertext ≡ ok plaintext

-- The same under the algorithm for the contents of attributes.
pub record Decrypts (k l : DelegatedKey) : Type 0 where
  pub same_algorithm : l.algorithm ≡ k.algorithm
  pub decrypt-encrypt : DecryptsAt (k.algorithm ++ cbc_pkcs5_attribute_encryption) k l

-- What the one key signs the other verifies.
pub record Verifies (k l : DelegatedKey) : Type 0 where
  pub same_algorithm : l.algorithm ≡ k.algorithm
  pub verify-sign :
      (algorithm : Text) (message signature : Bytes)
      → k.sign algorithm message ≡ ok signature
      → l.verify algorithm signature message ≡ ok tt

-- What the one key wraps the other unwraps, as the content key for the algorithm that is asked for; what
-- it unwraps is a key that decrypts the contents that it encrypts.
pub record Unwraps (content_key : Text → Bytes → Result DelegatedKey) (w u : WrappingKey)
    : Type 0 where
  pub unwrap-wrap :
      (seed : ℕ) (algorithm content_algorithm : Text) (content wrapped : Bytes)
      → w.wrap seed algorithm content ≡ ok wrapped
      → u.unwrap algorithm wrapped content_algorithm ≡ content_key content_algorithm content
  pub unwrap-Decrypts :
      (algorithm content_algorithm : Text) (wrapped : Bytes) (k : DelegatedKey)
      → u.unwrap algorithm wrapped content_algorithm ≡ ok k
      → Decrypts k k
