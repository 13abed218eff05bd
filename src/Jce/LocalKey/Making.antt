-- ===== src/Jce/LocalKey/Making.antt =====
-- How a local key is made of raw bytes.
use aws_dynamodb_encryption.Prelude.{
  Text, Bytes, text, Option, none, some, ◌++◌, ◌≡◌, ◌∙◌, ap, refl, arith, text_eq_iff,
}
use aws_dynamodb_encryption.Result.{
  ok, ◌>>=◌, >>=-eq-ok, or_raise, ok-injective, jce_transformation_error,
}
use aws_dynamodb_encryption.Dict.{get}
use aws_dynamodb_encryption.Identifiers.MaterialDescriptionKeys.{cbc_pkcs5_attribute_encryption}
use aws_dynamodb_encryption.Jce.Library.{symmetric, raw, cbc, Cryptography}
use aws_dynamodb_encryption.Jce.Primitives
use aws_dynamodb_encryption.Jce.Primitives.{
  JavaEncryptionAlgorithm, rsa, aes, aes_wrap, pkcs5_padding, algorithm_name,
  java_encryption_algorithm, LoadedKey, bytes_key, load_symmetric_key, load_rsa_key, java_mode,
  java_padding,
}
use aws_dynamodb_encryption.Jce.Cipher
use aws_dynamodb_encryption.Jce.Cipher.{
  JavaCipher, from_transformation, from_parts, expand, map_load_or_error,
}
use aws_dynamodb_encryption.Jce.Cipher.Names.{from_transformation-transformation}
use aws_dynamodb_encryption.Jce.Authentication
use aws_dynamodb_encryption.Jce.Authentication.{
  JavaAuthenticator, java_mac, java_signature, java_authenticator,
}
use aws_dynamodb_encryption.Jce.LocalKey.{
  Methods, encryption_and_wrap, authentication, JceNameLocalDelegatedKey, build, new_authenticator,
  new,
}

find-algorithm_name :
    (algorithm : Text) (a : JavaEncryptionAlgorithm)
    → get algorithm java_encryption_algorithm ≡ some a
    → algorithm_name a ≡ algorithm
unfolding get java_encryption_algorithm algorithm_name
find-algorithm_name algorithm a h = ground (
  arith,
  text_eq_iff (text "RSA") algorithm,
  text_eq_iff (text "AES") algorithm,
  text_eq_iff (text "AESWrap") algorithm,
)

module _ (l : Cryptography) where
  -- A key of raw symmetric bytes, with the methods that its algorithm gives it.
  abbrev pub raw_key : Bytes → Text → Methods → JceNameLocalDelegatedKey l
  raw_key key algorithm enabled = build l key algorithm symmetric raw enabled (bytes_key key)

  -- How the constructor made such a key: for a cipher that takes raw bytes, or for a MAC.
  pub data Made (key : Bytes) (algorithm : Text) (k : JceNameLocalDelegatedKey l) : Type 0 where
    for_cipher :
        (a : JavaEncryptionAlgorithm)
        → algorithm_name a ≡ algorithm
        → raw_key key algorithm encryption_and_wrap ≡ k
        → Made key algorithm k
    for_mac : raw_key key algorithm authentication ≡ k → Made key algorithm k

  pub Made-key :
      (key : Bytes) (algorithm : Text) (k : JceNameLocalDelegatedKey l)
      → Made key algorithm k
      → key ≡ k.key
  Made-key key algorithm k (for_cipher a e made) =
      ap (λ (x : JceNameLocalDelegatedKey l). x.key) made
  Made-key key algorithm k (for_mac made) = ap (λ (x : JceNameLocalDelegatedKey l). x.key) made

  load_key_raw :
      (a : JavaEncryptionAlgorithm) (key : Bytes) {loaded : LoadedKey l}
      → Primitives.load_key l a key symmetric raw ≡ ok loaded
      → bytes_key key ≡ loaded
  unfolding Primitives.load_key load_symmetric_key load_rsa_key
  load_key_raw rsa key h = cc
  load_key_raw aes key h = ok-injective h
  load_key_raw aes_wrap key h = ok-injective h

  load_mac_key :
      (a : JavaAuthenticator) (key : Bytes) {loaded : LoadedKey l}
      → Authentication.load_key l a key symmetric raw ≡ ok loaded
      → bytes_key key ≡ loaded
  unfolding Authentication.load_key load_rsa_key
  load_mac_key (java_mac h) key e = ok-injective e
  load_mac_key (java_signature h) key e = cc

  pub new-Made :
      (key : Bytes) (algorithm : Text) (k : JceNameLocalDelegatedKey l)
      → new l key algorithm symmetric raw ≡ ok k
      → Made key algorithm k
  unfolding new new_authenticator
  new-Made key algorithm k = by_table (get algorithm java_encryption_algorithm) refl
    where
      by_table :
          (o : Option JavaEncryptionAlgorithm)
          → get algorithm java_encryption_algorithm ≡ o
          → (elim o [
            | some key_transformer ↦ do
              loaded ← Primitives.load_key l key_transformer key symmetric raw
              ok (build l key algorithm symmetric raw encryption_and_wrap loaded)
            | none ↦ new_authenticator l key algorithm symmetric raw
          ])
            ≡ ok k
          → Made key algorithm k
      by_table (some a) e h =
          let (loaded, p, q) = >>=-eq-ok (Primitives.load_key l a key symmetric raw) _ h in
          for_cipher a (find-algorithm_name algorithm a e) (
            ap (build l key algorithm symmetric raw encryption_and_wrap) (load_key_raw a key p)
            ∙ ok-injective q)
      by_table none e h =
          let (a, _, h₁) =
            >>=-eq-ok (or_raise jce_transformation_error (get algorithm java_authenticator)) _ h in
          let (loaded, p, q) = >>=-eq-ok (Authentication.load_key l a key symmetric raw) _ h₁ in
          for_mac (
            ap (build l key algorithm symmetric raw authentication) (load_mac_key a key p)
            ∙ ok-injective q)

  -- The cipher for the contents of attributes.
  pub content_cipher :
      (a : JavaEncryptionAlgorithm)
      → from_transformation (algorithm_name a ++ cbc_pkcs5_attribute_encryption)
        ≡ ok (record { cipher = a; mode = cbc; padding = pkcs5_padding })
  unfolding Cipher.transformation Primitives.mode_name Primitives.padding_name
  content_cipher a =
      from_transformation-transformation
        (record { cipher = a; mode = cbc; padding = pkcs5_padding })
