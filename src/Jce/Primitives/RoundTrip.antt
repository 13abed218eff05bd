-- ===== src/Jce/Primitives/RoundTrip.antt =====
-- What a raw key made it takes apart again.
use aws_dynamodb_encryption.Prelude.{
  ℕ, ◌/◌, Bytes, ◌++◌, take, drop, ◌≡◌, subst, take-append, drop-append,
}
use aws_dynamodb_encryption.Result.{
  ok, >>=-eq-ok, or_raise, or_raise-eq-ok, ok-injective, encryption_error, wrapping_error,
}
use aws_dynamodb_encryption.Jce.Library.{cbc, Cryptography, IsSound}
use aws_dynamodb_encryption.Jce.Primitives.{
  pkcs5_padding, bytes_key, pad, unpad, aes_encrypt, aes_decrypt, aes_wrap_key, aes_unwrap_key,
}

module _ (l : Cryptography) (sound : IsSound l) where
  take-iv : (seed n : ℕ) (out : Bytes) → take n (l.urandom seed n ++ out) ≡ l.urandom seed n
  take-iv seed n out =
      subst (λ m. take m (l.urandom seed n ++ out) ≡ l.urandom seed n) (sound.length-urandom seed n)
        (take-append (l.urandom seed n) out)

  drop-iv : (seed n : ℕ) (out : Bytes) → drop n (l.urandom seed n ++ out) ≡ out
  drop-iv seed n out =
      subst (λ m. drop m (l.urandom seed n ++ out) ≡ out) (sound.length-urandom seed n)
        (drop-append (l.urandom seed n) out)

  -- The initialization vector is read off the front, whatever it was.
  pub aes_decrypt-aes_encrypt :
      (seed : ℕ) (key plaintext ciphertext : Bytes)
      → aes_encrypt l seed key plaintext cbc pkcs5_padding ≡ ok ciphertext
      → aes_decrypt l key ciphertext cbc pkcs5_padding ≡ ok plaintext
  unfolding aes_encrypt aes_decrypt pad unpad
  aes_decrypt-aes_encrypt seed key plaintext ciphertext h =
      let n = l.block_size / 8 in
      let (padded, p, h₁) =
        >>=-eq-ok (or_raise encryption_error (l.pkcs7_pad l.block_size plaintext)) _ h in
      let (out, q, h₂) =
        >>=-eq-ok (or_raise encryption_error (l.aes_encrypt cbc key (l.urandom seed n) padded)) _
          h₁ in
      rw (
        ← ok-injective h₂,
        take-iv seed n out,
        drop-iv seed n out,
        sound.aes_decrypt-aes_encrypt key (l.urandom seed n) padded out
            (or_raise-eq-ok encryption_error _ q),
        sound.pkcs7_unpad-pkcs7_pad l.block_size plaintext padded
            (or_raise-eq-ok encryption_error _ p),
      )

  pub aes_unwrap_key-aes_wrap_key :
      (key content_key wrapped : Bytes)
      → aes_wrap_key l (bytes_key key) content_key ≡ ok wrapped
      → aes_unwrap_key l (bytes_key key) wrapped ≡ ok content_key
  unfolding aes_wrap_key aes_unwrap_key
  aes_unwrap_key-aes_wrap_key key content_key wrapped h = rw (
      sound.aes_key_unwrap-aes_key_wrap key content_key wrapped (or_raise-eq-ok wrapping_error _ h))
