-- ===== src/Providers/AwsKms/Requests.antt =====
-- Requests of the provider to AWS KMS: a data key, and its decryption under the same encryption context.
use aws_dynamodb_encryption.Prelude.{
  ℕ, ◌/◌, Text, Bytes, List, some, ◌≡◌, ◌∙◌, ap, refl, Option-cases, inl, inr,
}
use aws_dynamodb_encryption.Result.{
  Result, ok, err, >>=-eq-ok, ok-injective, or_raise-eq-ok, wrapping_error,
}
use aws_dynamodb_encryption.Builtins.{Builtins}
use aws_dynamodb_encryption.Dict.{get, get_or}
use aws_dynamodb_encryption.Structures.EncryptionContext.{EncryptionContext}
use aws_dynamodb_encryption.Providers.AwsKms.{
  Client, Services, KmsContext, AwsKmsCryptographicMaterialsProvider, region,
  kms_encryption_context, Outcome, proceed, followed_by, client_for, add_regional_client, client,
  generate_initial_material, decrypt_request, decrypt_initial_material,
}

-- What is documented of AWS KMS: a data key is decrypted under the encryption context it was made with.
pub record DecryptsDataKeys (kms : Client) : Type 0 where
  pub decrypt-generate_data_key :
      (seed : ℕ) (key_id : Text) (n : ℕ) (context : KmsContext) (tokens : List Text)
      (plaintext ciphertext : Bytes)
      → kms.generate_data_key seed key_id n context tokens ≡ ok (some (plaintext, ciphertext))
      → kms.decrypt ciphertext context tokens ≡ ok (some plaintext)

proceed-eq-ok {ℓ κ} :
    {A : Type ℓ} {B : Type κ} (next : A → AwsKmsCryptographicMaterialsProvider → Outcome B)
    (r : Result A) (self : AwsKmsCryptographicMaterialsProvider) {b : B}
    → (proceed next r self).0 ≡ ok b
    → (a : A) × (r ≡ ok a) × ((next a self).0 ≡ ok b)
unfolding proceed
proceed-eq-ok next (ok a) self h = (a, refl, h)
proceed-eq-ok next (err e) self h = absurd (cc)

proceed-ok {ℓ κ} :
    {A : Type ℓ} {B : Type κ} (next : A → AwsKmsCryptographicMaterialsProvider → Outcome B)
    (r : Result A) (self : AwsKmsCryptographicMaterialsProvider) {a : A}
    → r ≡ ok a
    → proceed next r self ≡ next a self
unfolding proceed
proceed-ok next r self h = rw (h, proceed)

module _ (p : Builtins) (services : Services) (self : AwsKmsCryptographicMaterialsProvider) where
  -- What a successful request for a data key went through.
  pub record Generation (seed : ℕ) (context : EncryptionContext) (plaintext ciphertext : Bytes)
      : Type 0 where
    pub for_request : KmsContext
    pub kms : Client
    pub is_context :
        kms_encryption_context p context
          (some self.content_key_info.description)
          (some self.signing_key_info.description)
        ≡ ok for_request
    pub is_client : (client p services self.key_id self).0 ≡ ok kms
    pub answered :
        kms.generate_data_key seed self.key_id (256 / 8) for_request self.grant_tokens
        ≡ ok (some (plaintext, ciphertext))

  pub generate_initial_material-eq-ok :
      (seed : ℕ) (context : EncryptionContext) (plaintext ciphertext : Bytes)
      → (generate_initial_material p services seed context self).0 ≡ ok (plaintext, ciphertext)
      → Generation seed context plaintext ciphertext
  unfolding generate_initial_material followed_by
  generate_initial_material-eq-ok seed context plaintext ciphertext h =
      let (for_request, is_context, q) =
        proceed-eq-ok _
          (kms_encryption_context p context (some self.content_key_info.description)
            (some self.signing_key_info.description))
          self h in
      let (kms, is_client, q₁) = >>=-eq-ok ((client p services self.key_id self).0) _ q in
      let (response, answered, q₂) =
        >>=-eq-ok (kms.generate_data_key seed self.key_id (256 / 8) for_request self.grant_tokens) _
          q₁ in
      record {
        for_request = for_request;
        kms = kms;
        is_context = is_context;
        is_client = is_client;
        answered = answered ∙ ap ok (or_raise-eq-ok wrapping_error response q₂);
      }

  pub decrypt_initial_material-answered :
      (context : EncryptionContext) (for_request : KmsContext) (ciphertext plaintext : Bytes)
      (kms : Client)
      → decrypt_request p services context ≡ ok (for_request, ciphertext)
      → (client p services self.key_id self).0 ≡ ok kms
      → kms.decrypt ciphertext for_request self.grant_tokens ≡ ok (some plaintext)
      → (decrypt_initial_material p services context self).0 ≡ ok plaintext
  unfolding decrypt_initial_material followed_by
  decrypt_initial_material-answered context for_request ciphertext plaintext kms h g q =
      ap (λ (o : Outcome Bytes). o.0) (proceed-ok _ (decrypt_request p services context) self h)
      ∙ rw (g, q)

  pub client-eq-ok :
      (kms : Client)
      → (client p services self.key_id self).0 ≡ ok kms
      → (r : Text) × (client_for p services self.regional_clients r ≡ kms)
  unfolding client add_regional_client get_or
  client-eq-ok kms h =
      let (r, _, q) =
        proceed-eq-ok (add_regional_client p services) (region self self.key_id) self h in
      (
        r,
        elim (Option-cases (get r self.regional_clients)) [
          | inl (c, g) ↦ rw (g, get_or) (ok-injective (rw (g, add_regional_client) at q))
          | inr g ↦ rw (g, get_or) (ok-injective (rw (g, add_regional_client) at q))
        ],
      )
