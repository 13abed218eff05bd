-- ===== src/Jce/LocalKey/Contracts.antt =====
-- A local key of raw bytes keeps the contracts of delegated keys.
use aws_dynamodb_encryption.Prelude.{
  ℕ, ◌/◌, length, true, arith, Text, Bytes, Option, none, some, ◌++◌, ◌≡◌, ◌∙◌, ap, sym, refl,
  subst,
}
use aws_dynamodb_encryption.Result.{
  Result, ok, ◌>>=◌, >>=-eq-ok, or_raise, or_raise-eq-ok, ok-injective, signing_error, key_error,
}
use aws_dynamodb_encryption.Builtins.{Builtins}
use aws_dynamodb_encryption.Dict.{get}
use aws_dynamodb_encryption.Identifiers.MaterialDescriptionKeys.{cbc_pkcs5_attribute_encryption}
use aws_dynamodb_encryption.Crypto.Materials.{DelegatedKey, DecryptsAt, Decrypts, Verifies, Unwraps}
use aws_dynamodb_encryption.Jce.Library.{symmetric, raw, ModeType, cbc, Cryptography, IsSound}
use aws_dynamodb_encryption.Jce.Primitives
use aws_dynamodb_encryption.Jce.Primitives.{
  JavaEncryptionAlgorithm, JavaPadding, rsa, aes, aes_wrap, pkcs5_padding, algorithm_name,
  bytes_key,
}
use aws_dynamodb_encryption.Jce.Primitives.RoundTrip.{
  aes_decrypt-aes_encrypt, aes_unwrap_key-aes_wrap_key,
}
use aws_dynamodb_encryption.Jce.Cipher
use aws_dynamodb_encryption.Jce.Cipher.{JavaCipher, from_transformation}
use aws_dynamodb_encryption.Jce.Authentication
use aws_dynamodb_encryption.Jce.Authentication.{
  JavaAuthenticator, java_mac, java_signature, java_authenticator,
}
use aws_dynamodb_encryption.Jce.LocalKey.{
  is_symmetric, generate, generate_key, generate_symmetric_key, encryption_and_wrap, authentication,
  JceNameLocalDelegatedKey, new, encrypt, decrypt, wrap, unwrap, unwrap_symmetric, sign, verify,
  if_encrypts, if_authenticates, as_delegated_key, unwrap_delegated, as_wrapping_key,
}
use aws_dynamodb_encryption.Jce.LocalKey.Making.{
  Made-key, raw_key, for_cipher, for_mac, new-Made, content_cipher,
}

-- The content key of some bytes.
unfoldable pub content_key : (l : Cryptography) → Text → Bytes → Result DelegatedKey
content_key l algorithm key = do k ← new l key algorithm symmetric raw; ok (as_delegated_key l k)

module _ (l : Cryptography) (sound : IsSound l) (key : Bytes) where
  cipher-decrypt-encrypt :
      (a : JavaEncryptionAlgorithm) (seed : ℕ) (plaintext ciphertext : Bytes)
      → Primitives.encrypt l a seed (bytes_key key) plaintext cbc pkcs5_padding ≡ ok ciphertext
      → Primitives.decrypt l a (bytes_key key) ciphertext cbc pkcs5_padding ≡ ok plaintext
  unfolding Primitives.encrypt Primitives.decrypt
  cipher-decrypt-encrypt rsa seed plaintext ciphertext h = cc
  cipher-decrypt-encrypt aes seed plaintext ciphertext h =
      aes_decrypt-aes_encrypt l sound seed key plaintext ciphertext h
  cipher-decrypt-encrypt aes_wrap seed plaintext ciphertext h = cc

  cipher-unwrap-wrap :
      (a : JavaEncryptionAlgorithm) (m : ModeType) (p : JavaPadding) (seed : ℕ)
      (content wrapped : Bytes)
      → Cipher.wrap l seed (record { cipher = a; mode = m; padding = p }) (bytes_key key) content
        ≡ ok wrapped
      → Cipher.unwrap l (record { cipher = a; mode = m; padding = p }) (bytes_key key) wrapped
        ≡ ok content
  unfolding Cipher.wrap Cipher.unwrap Primitives.encrypt
  cipher-unwrap-wrap rsa m p seed content wrapped h = cc
  cipher-unwrap-wrap aes m p seed content wrapped h =
      aes_unwrap_key-aes_wrap_key l sound key content wrapped h
  cipher-unwrap-wrap aes_wrap m p seed content wrapped h =
      aes_unwrap_key-aes_wrap_key l sound key content wrapped h

  authenticator-verify-sign :
      (a : JavaAuthenticator) (message signature : Bytes)
      → Authentication.sign l a (bytes_key key) message ≡ ok signature
      → Authentication.verify l a (bytes_key key) signature message ≡ ok tt
  unfolding Authentication.sign Authentication.verify
  authenticator-verify-sign (java_mac h) message signature e =
      rw (sound.hmac_verify-hmac h key message signature (or_raise-eq-ok signing_error _ e))
  authenticator-verify-sign (java_signature h) message signature e = cc

  cipher_key-DecryptsAt :
      (a : JavaEncryptionAlgorithm) (algorithm : Text)
      → algorithm_name a ≡ algorithm
      → DecryptsAt
          (algorithm ++ cbc_pkcs5_attribute_encryption)
          (as_delegated_key l (raw_key l key algorithm encryption_and_wrap))
          (as_delegated_key l (raw_key l key algorithm encryption_and_wrap))
  unfolding if_encrypts encrypt decrypt Cipher.encrypt Cipher.decrypt
  cipher_key-DecryptsAt a algorithm e seed name plaintext ciphertext h =
      let as_named =
        ap (λ t. from_transformation (t ++ cbc_pkcs5_attribute_encryption)) (sym e)
        ∙ content_cipher l a in
      rw as_named (cipher-decrypt-encrypt a seed plaintext ciphertext (rw as_named at h))

  -- A key that the constructor made of raw symmetric bytes decrypts the contents of attributes that it
  -- encrypted, if AES and the padding do what is documented of them.
  pub new-Decrypts :
      (algorithm : Text) (k : JceNameLocalDelegatedKey l)
      → new l key algorithm symmetric raw ≡ ok k
      → Decrypts (as_delegated_key l k) (as_delegated_key l k)
  unfolding if_encrypts
  new-Decrypts algorithm k h = elim (new-Made l key algorithm k h) [
    | for_cipher a e made ↦
        subst (λ x. Decrypts (as_delegated_key l x) (as_delegated_key l x)) made
          (record { same_algorithm = refl; decrypt-encrypt = cipher_key-DecryptsAt a algorithm e })
    | for_mac made ↦
        subst (λ x. Decrypts (as_delegated_key l x) (as_delegated_key l x)) made
          (record {
            same_algorithm = refl;
            decrypt-encrypt = λ seed name plaintext ciphertext e. cc;
          })
  ]

module _ (l : Cryptography) (sound : IsSound l) (key : Bytes) where
  mac_key-Verifies :
      (algorithm : Text)
      → Verifies
          (as_delegated_key l (raw_key l key algorithm authentication))
          (as_delegated_key l (raw_key l key algorithm authentication))
  unfolding if_authenticates sign verify
  mac_key-Verifies algorithm = record {
    same_algorithm = refl;
    verify-sign = λ asked message signature h.
        let (a, p, q) = >>=-eq-ok (or_raise key_error (get asked java_authenticator)) _ h in
        rw p (authenticator-verify-sign l sound key a message signature q);
  }

  -- A key that the constructor made of raw symmetric bytes verifies, under each algorithm, what it signed under
  -- that algorithm, if HMAC does what is documented of it.
  pub new-Verifies :
      (algorithm : Text) (k : JceNameLocalDelegatedKey l)
      → new l key algorithm symmetric raw ≡ ok k
      → Verifies (as_delegated_key l k) (as_delegated_key l k)
  unfolding if_authenticates
  new-Verifies algorithm k h = elim (new-Made l key algorithm k h) [
    | for_cipher a e made ↦
        subst (λ x. Verifies (as_delegated_key l x) (as_delegated_key l x)) made
          (record { same_algorithm = refl; verify-sign = λ asked message signature h. cc })
    | for_mac made ↦
        subst (λ x. Verifies (as_delegated_key l x) (as_delegated_key l x)) made
          (mac_key-Verifies algorithm)
  ]

  cipher_key-Unwraps :
      (algorithm : Text)
      → Unwraps
          (content_key l)
          (as_wrapping_key l (raw_key l key algorithm encryption_and_wrap))
          (as_wrapping_key l (raw_key l key algorithm encryption_and_wrap))
  unfolding if_encrypts wrap unwrap_delegated unwrap unwrap_symmetric content_key
  cipher_key-Unwraps algorithm = record {
    unwrap-wrap = λ seed asked content_algorithm content wrapped h.
        let (c, p, q) = >>=-eq-ok (from_transformation asked) _ h in
        rw (p, cipher-unwrap-wrap l sound key c.cipher c.mode c.padding seed content wrapped q);
    unwrap-Decrypts = λ asked content_algorithm wrapped k h.
        let (j, p, q) =
          >>=-eq-ok
            (unwrap_symmetric l (raw_key l key algorithm encryption_and_wrap) asked wrapped
              content_algorithm)
            _ h in
        let (c, _, p₁) = >>=-eq-ok (from_transformation asked) _ p in
        let (unwrapped, _, p₂) = >>=-eq-ok (Cipher.unwrap l c (bytes_key key) wrapped) _ p₁ in
        subst (λ x. Decrypts x x) (ok-injective q)
          (new-Decrypts l sound unwrapped content_algorithm j p₂);
  }

  -- A key that the constructor made of raw symmetric bytes unwraps each key that it wrapped under the same
  -- algorithm, as the content key of those bytes; each key that it unwraps decrypts the contents that it
  -- encrypts. AES, its key wrapping and the padding must do what is documented of them.
  pub new-Unwraps :
      (algorithm : Text) (k : JceNameLocalDelegatedKey l)
      → new l key algorithm symmetric raw ≡ ok k
      → Unwraps (content_key l) (as_wrapping_key l k) (as_wrapping_key l k)
  unfolding if_encrypts
  new-Unwraps algorithm k h = elim (new-Made l key algorithm k h) [
    | for_cipher a e made ↦
        subst (λ x. Unwraps (content_key l) (as_wrapping_key l x) (as_wrapping_key l x)) made
          (cipher_key-Unwraps algorithm)
    | for_mac made ↦
        subst (λ x. Unwraps (content_key l) (as_wrapping_key l x) (as_wrapping_key l x)) made
          (record {
            unwrap-wrap = λ seed asked content_algorithm content wrapped h. cc;
            unwrap-Decrypts = λ asked content_algorithm wrapped k h. cc;
          })
  ]

-- A generated symmetric key is the one that its bytes make.
pub new-generate :
    (l : Cryptography) (p : Builtins) (seed : ℕ) (algorithm : Text) (key_length : Option ℕ)
    (k : JceNameLocalDelegatedKey l)
    → is_symmetric l p algorithm ≡ true
    → generate l p seed algorithm key_length ≡ ok k
    → new l k.key algorithm symmetric raw ≡ ok k
unfolding generate generate_key generate_symmetric_key
new-generate l p seed algorithm none k s h = absurd (ground (arith, s, h))
new-generate l p seed algorithm (some n) k s h =
    let made : new l (l.urandom seed (n / 8)) algorithm symmetric raw ≡ ok k = rw s at h in
    subst (λ b. new l b algorithm symmetric raw ≡ ok k)
      (Made-key l (l.urandom seed (n / 8)) algorithm k (new-Made l _ algorithm k made)) made

-- A key that was generated for a symmetric algorithm and a length in bits has the whole number of bytes in
-- that length, if urandom returns as many bytes as it is asked for.
pub length-generate :
    (l : Cryptography) (sound : IsSound l) (p : Builtins) (seed : ℕ) (algorithm : Text) (n : ℕ)
    (k : JceNameLocalDelegatedKey l)
    → is_symmetric l p algorithm ≡ true
    → generate l p seed algorithm (some n) ≡ ok k
    → length k.key ≡ n / 8
unfolding generate generate_key generate_symmetric_key
length-generate l sound p seed algorithm n k s h =
    let made : new l (l.urandom seed (n / 8)) algorithm symmetric raw ≡ ok k = rw s at h in
    ap length
      (sym (Made-key l (l.urandom seed (n / 8)) algorithm k (new-Made l _ algorithm k made)))
    ∙ sound.length-urandom seed (n / 8)
