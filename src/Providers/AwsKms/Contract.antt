-- ===== src/Providers/AwsKms/Contract.antt =====
-- The provider with keys of AWS KMS keeps the contract of materials providers.
use aws_dynamodb_encryption.Prelude.{
  ℕ, ◌/◌, Text, Bytes, List, Option, some, ◌≡◌, ◌∙◌, ap, refl, subst, text_eq,
}
use aws_dynamodb_encryption.Result.{ok, ◌>>=◌, >>=-eq-ok, ok-injective}
use aws_dynamodb_encryption.Builtins.{Builtins, IsDocumented}
use aws_dynamodb_encryption.Dict.{Dict, get, IsDict}
use aws_dynamodb_encryption.Identifiers.MaterialDescriptionKeys.{
  wrapped_data_key, content_encryption_algorithm, item_signature_algorithm,
}
use aws_dynamodb_encryption.Structures.EncryptionContext.{EncryptionContext}
use aws_dynamodb_encryption.Structures.AttributeActions.{AttributeActions}
use aws_dynamodb_encryption.Crypto.Materials.{CryptographicMaterials}
use aws_dynamodb_encryption.Jce.Library.{Cryptography, IsSound}
use aws_dynamodb_encryption.Encrypted.CryptoConfig
use aws_dynamodb_encryption.Encrypted.CryptoConfig.{CryptoConfig}
use aws_dynamodb_encryption.Encrypted.Item.RoundTrip.{
  Extends, MaterialsMatch, Reopens, with_description,
}
use aws_dynamodb_encryption.Providers.KeyInfo.{content_key_info_of, signing_key_info_of}
use aws_dynamodb_encryption.Providers.AwsKms
use aws_dynamodb_encryption.Providers.AwsKms.{
  Client, Services, KmsContext, HkdfInfo, for_encryption, for_signing, info_bytes,
  AwsKmsCryptographicMaterialsProvider, region, kms_encryption_context, Outcome, proceed,
  followed_by, client_for, add_regional_client, client, generate_initial_material,
  encrypted_initial_material, decrypt_request, decrypt_initial_material, derive_delegated_key,
  decryption_materials_of, decryption_materials, encryption_description, encryption_materials_of,
  encryption_materials, as_provider,
}
use aws_dynamodb_encryption.Providers.AwsKms.Requests.{
  DecryptsDataKeys, Generation, generate_initial_material-eq-ok, decrypt_initial_material-answered,
  client-eq-ok,
}
use aws_dynamodb_encryption.Providers.AwsKms.Keys.{
  decryption_materials_of-match, encryption_materials_of-IsDict, get-stored,
}

module _ (p : Builtins) (services : Services) (l : Cryptography) (documented : IsDocumented p)
    (sound : IsSound l) (key_id : Text) (session_region : Option Text) (tokens : List Text)
    (own : Dict Text) (clients : Dict Client) (self : AwsKmsCryptographicMaterialsProvider)
    (created : AwsKms.new p key_id session_region tokens own clients ≡ ok self)
    (decrypts : (r : Text) → DecryptsDataKeys (client_for p services self.regional_clients r)) where
  new-eq-ok :
      (content_key_info_of p self.material_description ≡ ok (self.content_key_info))
      × (signing_key_info_of p self.material_description ≡ ok (self.signing_key_info))
  unfolding AwsKms.new
  new-eq-ok =
      let (content, is_content, h) = >>=-eq-ok (content_key_info_of p own) _ created in
      let (signing, is_signing, h') = >>=-eq-ok (signing_key_info_of p own) _ h in
      subst
        (λ (x : AwsKmsCryptographicMaterialsProvider).
          (content_key_info_of p x.material_description ≡ ok (x.content_key_info))
          × (signing_key_info_of p x.material_description ≡ ok (x.signing_key_info)))
        (ok-injective h') (is_content, is_signing)

  decrypt_request-stored :
      (context : EncryptionContext) (for_request : KmsContext) (ciphertext : Bytes) (d : Dict Text)
      → kms_encryption_context p context
          (some self.content_key_info.description)
          (some self.signing_key_info.description)
        ≡ ok for_request
      → get wrapped_data_key d ≡ some (p.b64encode ciphertext)
      → get content_encryption_algorithm d ≡ some self.content_key_info.description
      → get item_signature_algorithm d ≡ some self.signing_key_info.description
      → decrypt_request p services (with_description context d) ≡ ok (for_request, ciphertext)
  unfolding decrypt_request kms_encryption_context encrypted_initial_material
  decrypt_request-stored context for_request ciphertext d made wrapped content signing =
      rw (content, signing, made, wrapped, documented.b64decode-b64encode ciphertext)

  -- How the encryption materials came about.
  record Encrypting (seed : ℕ) (context : EncryptionContext) (m : CryptographicMaterials)
      : Type 0 where
    initial : Bytes
    ciphertext : Bytes
    generation : Generation p services self seed context initial ciphertext
    built :
        encryption_materials_of p services l self context.material_description initial ciphertext
        ≡ ok m

  encryption_materials-eq-ok :
      (seed : ℕ) (context : EncryptionContext) (m : CryptographicMaterials)
      → (encryption_materials p services l seed context self).0 ≡ ok m
      → Encrypting seed context m
  unfolding encryption_materials followed_by
  encryption_materials-eq-ok seed context m h =
      let (x, made, h₁) =
        >>=-eq-ok ((generate_initial_material p services seed context self).0) _ h in
      record {
        initial = x.0;
        ciphertext = x.1;
        generation = generate_initial_material-eq-ok p services self seed context (x.0) (x.1) made;
        built = h₁;
      }

  decryption_materials-ok :
      (context : EncryptionContext) (initial : Bytes) (n : CryptographicMaterials)
      → (decrypt_initial_material p services context self).0 ≡ ok initial
      → decryption_materials_of p services l context.material_description initial ≡ ok n
      → (decryption_materials p services l context self).0 ≡ ok n
  unfolding decryption_materials followed_by
  decryption_materials-ok context initial n h g =
      ap (λ r. do x ← r; decryption_materials_of p services l context.material_description x) h ∙ g

  decrypted_again :
      (seed : ℕ) (context : EncryptionContext) (m : CryptographicMaterials)
      (e : Encrypting seed context m) (d : Dict Text)
      → Extends d m.material_description
      → (n : CryptographicMaterials) × ((decryption_materials p services l
            (with_description context d)
            self).0
          ≡ ok n)
        × MaterialsMatch m n
  unfolding text_eq
  decrypted_again seed context m e d extends =
      let (content_info, signing_info) = new-eq-ok in
      let (wrapped, content, signing) =
        get-stored p services l documented sound e.initial self context.material_description
          e.ciphertext m content_info signing_info e.built in
      let found_content = extends content_encryption_algorithm refl refl ∙ content in
      let found_signing = extends item_signature_algorithm refl refl ∙ signing in
      let (n, opened, match) =
        decryption_materials_of-match p services l documented sound e.initial self
          context.material_description e.ciphertext m content_info signing_info e.built d
          found_content found_signing in
      let g = e.generation in
      let (r, is_client) = client-eq-ok p services self g.kms g.is_client in
      let knows : DecryptsDataKeys (g.kms) = subst DecryptsDataKeys is_client (decrypts r) in
      let answer =
        decrypt_initial_material-answered p services self (with_description context d) g.for_request
          e.ciphertext e.initial g.kms
          (decrypt_request-stored context g.for_request e.ciphertext d g.is_context
            (extends wrapped_data_key refl refl ∙ wrapped) found_content found_signing)
          g.is_client
          (knows.decrypt-generate_data_key seed self.key_id (256 / 8) g.for_request
            self.grant_tokens e.initial e.ciphertext g.answered) in
      (n, decryption_materials-ok (with_description context d) e.initial n answer opened, match)

  -- A provider that the constructor made reopens what it encrypted: from every description that extends the one
  -- that its encryption materials were stored with, it sends the stored ciphertext to AWS KMS under the encryption
  -- context that the data key was made with, and derives the same two keys. Each client must decrypt the data
  -- keys that it made, the description of the context must be a dict, and the other parameters must do what is
  -- documented of them.
  pub kms_provider-Reopens :
      (seed : ℕ) (context : EncryptionContext) (actions : AttributeActions)
      → IsDict context.material_description
      → Reopens (record {
        materials_provider = as_provider p services l seed self;
        encryption_context = context;
        attribute_actions = actions;
      })
  unfolding CryptoConfig.encryption_materials
  kms_provider-Reopens seed context actions h = record {
    description_IsDict = λ m made.
        let e = encryption_materials-eq-ok seed context m made in
        let (content_info, signing_info) = new-eq-ok in
        encryption_materials_of-IsDict p services l documented sound e.initial self
          context.material_description e.ciphertext m content_info signing_info e.built h;
    reopen = λ m d made is_dict extends.
        decrypted_again seed context m (encryption_materials-eq-ok seed context m made) d extends;
  }
