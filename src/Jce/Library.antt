-- ===== src/Jce/Library.antt =====
-- What the bridge takes from the package `cryptography` and from os.urandom: functions, and what is
-- documented of them. `none` is any exception; where the bridge lets an exception through, it is an error.
use aws_dynamodb_encryption.Prelude.{ℕ, Bytes, Option, some, length, ◌≡◌}
use aws_dynamodb_encryption.Result.{Result}

-- identifiers.py: EncryptionKeyType and KeyEncodingType
pub data EncryptionKeyType : Type 0 where
  symmetric private public : EncryptionKeyType

pub data KeyEncodingType : Type 0 where
  raw der pem : KeyEncodingType

-- cryptography.hazmat.primitives.hashes
pub data HashType : Type 0 where
  sha1 sha224 sha256 sha384 sha512 : HashType

-- cryptography.hazmat.primitives.ciphers.modes
pub data ModeType : Type 0 where
  ecb cbc ctr gcm : ModeType

-- What an RSA key is given as its padding: an object of the module `padding` of the package, OAEP with
-- its digest and that of the MGF, or an object of another class.
pub data RsaPadding : Type 0 where
  pkcs1v15 : RsaPadding
  oaep : HashType → HashType → RsaPadding
  no_rsa_padding : RsaPadding

-- Random bytes are drawn by a number, which stands for one call.
pub record Cryptography : Type 1 where
  pub PrivateKey : Type 0
  pub PublicKey : Type 0
  pub urandom : ℕ → ℕ → Bytes
  -- algorithms.AES.block_size, in bits
  pub block_size : ℕ
  -- Cipher(algorithms.AES(key), mode(iv)).encryptor(), with update and finalize; the decryptor
  pub aes_encrypt : ModeType → Bytes → Bytes → Bytes → Option Bytes
  pub aes_decrypt : ModeType → Bytes → Bytes → Bytes → Option Bytes
  -- symmetric_padding.PKCS7(block_size).padder(), with update and finalize; the unpadder
  pub pkcs7_pad : ℕ → Bytes → Option Bytes
  pub pkcs7_unpad : ℕ → Bytes → Option Bytes
  -- keywrap.aes_key_wrap(wrapping_key, key_to_wrap) and aes_key_unwrap(wrapping_key, wrapped_key)
  pub aes_key_wrap : Bytes → Bytes → Option Bytes
  pub aes_key_unwrap : Bytes → Bytes → Option Bytes
  -- hmac.HMAC(key, hash), with update and finalize; verify
  pub hmac : HashType → Bytes → Bytes → Option Bytes
  pub hmac_verify : HashType → Bytes → Bytes → Bytes → Option (Unit {0})
  -- the loaders of the module `serialization`
  pub load_private_key : KeyEncodingType → Bytes → Result PrivateKey
  pub load_public_key : KeyEncodingType → Bytes → Result PublicKey
  pub public_key : PrivateKey → PublicKey
  -- rsa.generate_private_key with exponent 65537, as the bytes of its DER encoding
  pub generate_rsa_private_key : ℕ → ℕ → Result Bytes
  pub rsa_encrypt : ℕ → PublicKey → Bytes → RsaPadding → Option Bytes
  pub rsa_decrypt : PrivateKey → Bytes → RsaPadding → Option Bytes
  pub rsa_sign : PrivateKey → Bytes → HashType → Option Bytes
  pub rsa_verify : PublicKey → Bytes → Bytes → HashType → Option (Unit {0})

-- What is documented of the functions that symmetric keys use: AES in CBC mode, PKCS7 padding, AES key
-- wrapping and HMAC undo or verify what they made, and urandom returns as many bytes as it is asked for.
pub record IsSound (l : Cryptography) : Type 0 where
  pub length-urandom : (seed n : ℕ) → length (l.urandom seed n) ≡ n
  pub aes_decrypt-aes_encrypt :
      (key iv data_ out : Bytes)
      → l.aes_encrypt cbc key iv data_ ≡ some out
      → l.aes_decrypt cbc key iv out ≡ some data_
  pub pkcs7_unpad-pkcs7_pad :
      (n : ℕ) (data_ out : Bytes)
      → l.pkcs7_pad n data_ ≡ some out
      → l.pkcs7_unpad n out ≡ some data_
  pub aes_key_unwrap-aes_key_wrap :
      (key data_ out : Bytes)
      → l.aes_key_wrap key data_ ≡ some out
      → l.aes_key_unwrap key out ≡ some data_
  pub hmac_verify-hmac :
      (h : HashType) (key data_ out : Bytes)
      → l.hmac h key data_ ≡ some out
      → l.hmac_verify h key out data_ ≡ some tt
