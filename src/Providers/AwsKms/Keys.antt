-- ===== src/Providers/AwsKms/Keys.antt =====
-- The materials that are built of one initial material, for encryption and for decryption.
use aws_dynamodb_encryption.Prelude.{◌/◌, Text, Bytes, some, ◌≡◌, ◌∙◌, ap, refl, subst, text_eq}
use aws_dynamodb_encryption.Result.{
  ok, err, >>=-eq-ok, guard, ok-injective, value_error, not_implemented_error,
}
use aws_dynamodb_encryption.Builtins.{Builtins, IsDocumented}
use aws_dynamodb_encryption.Dict.{Dict, get, IsDict, get-put, get-put_self, put-IsDict}
use aws_dynamodb_encryption.Identifiers.MaterialDescriptionKeys.{
  wrapped_data_key, content_encryption_algorithm, item_signature_algorithm,
}
use aws_dynamodb_encryption.Crypto.Materials.{CryptographicMaterials, Decrypts, Verifies}
use aws_dynamodb_encryption.Jce.Library.{Cryptography, IsSound}
use aws_dynamodb_encryption.Jce.LocalKey.{JceNameLocalDelegatedKey, as_delegated_key}
use aws_dynamodb_encryption.Jce.LocalKey.Contracts.{new-Decrypts, new-Verifies}
use aws_dynamodb_encryption.Materials.Raw.{
  key_allowed, raw_encryption_materials, raw_decryption_materials,
}
use aws_dynamodb_encryption.Encrypted.Item.Description.{KeysMatch, present}
use aws_dynamodb_encryption.Encrypted.Item.RoundTrip.{MaterialsMatch}
use aws_dynamodb_encryption.Providers.KeyInfo.{
  KeyInfo, content_key_info_of, signing_key_info_of, content_key_info-again, signing_key_info-again,
}
use aws_dynamodb_encryption.Providers.AwsKms.{
  Services, HkdfInfo, for_encryption, for_signing, info_bytes, AwsKmsCryptographicMaterialsProvider,
  derive_delegated_key, decryption_materials_of, encryption_description, encryption_materials_of,
}

module _ (p : Builtins) (services : Services) (l : Cryptography) (documented : IsDocumented p)
    (sound : IsSound l) (initial : Bytes) where
  -- The keys that are derived of the initial material are local keys of raw bytes.
  derive_delegated_key-Decrypts :
      (info : KeyInfo) (purpose : HkdfInfo) (k : JceNameLocalDelegatedKey l)
      → derive_delegated_key p services l initial info purpose ≡ ok k
      → Decrypts (as_delegated_key l k) (as_delegated_key l k)
  unfolding derive_delegated_key
  derive_delegated_key-Decrypts info purpose k h =
      let (raw_key, _, made) =
        >>=-eq-ok (services.hkdf initial (info.key_length / 8) (info_bytes purpose)) _ h in
      new-Decrypts l sound raw_key info.algorithm k made

  derive_delegated_key-Verifies :
      (info : KeyInfo) (purpose : HkdfInfo) (k : JceNameLocalDelegatedKey l)
      → derive_delegated_key p services l initial info purpose ≡ ok k
      → Verifies (as_delegated_key l k) (as_delegated_key l k)
  unfolding derive_delegated_key
  derive_delegated_key-Verifies info purpose k h =
      let (raw_key, _, made) =
        >>=-eq-ok (services.hkdf initial (info.key_length / 8) (info_bytes purpose)) _ h in
      new-Verifies l sound raw_key info.algorithm k made

  -- The materials for decryption with two derived keys.
  abbrev decryption_materials_with :
      Dict Text → JceNameLocalDelegatedKey l → JceNameLocalDelegatedKey l → CryptographicMaterials
  decryption_materials_with d sk ek = record {
    material_description = d;
    encryption_key = err not_implemented_error;
    decryption_key = ok (as_delegated_key l ek);
    signing_key = err not_implemented_error;
    verification_key = ok (as_delegated_key l sk);
  }

  module _ (self : AwsKmsCryptographicMaterialsProvider)
      (content_info : content_key_info_of p self.material_description ≡ ok (self.content_key_info))
      (signing_info : signing_key_info_of p self.material_description
        ≡ ok (self.signing_key_info)) where
    decryption_materials_of-ok :
        (d : Dict Text) (sk ek : JceNameLocalDelegatedKey l)
        → derive_delegated_key p services l initial self.signing_key_info for_signing ≡ ok sk
        → derive_delegated_key p services l initial self.content_key_info for_encryption ≡ ok ek
        → guard (key_allowed (some (as_delegated_key l ek))) value_error ≡ ok tt
        → get content_encryption_algorithm d ≡ some self.content_key_info.description
        → get item_signature_algorithm d ≡ some self.signing_key_info.description
        → decryption_materials_of p services l d initial ≡ ok (decryption_materials_with d sk ek)
    unfolding decryption_materials_of raw_decryption_materials
    decryption_materials_of-ok d sk ek is_sk is_ek allowed content signing = rw (
      signing_key_info-again p self.material_description d self.signing_key_info signing_info
          signing,
      content_key_info-again p self.material_description d self.content_key_info content_info
          content,
      is_sk,
      is_ek,
      allowed,
    )

  module _ (self : AwsKmsCryptographicMaterialsProvider) (given : Dict Text) (ciphertext : Bytes)
      (m : CryptographicMaterials)
      (content_info : content_key_info_of p self.material_description ≡ ok (self.content_key_info))
      (signing_info : signing_key_info_of p self.material_description ≡ ok (self.signing_key_info))
      (built : encryption_materials_of p services l self given initial ciphertext ≡ ok m) where
    -- What the materials are made of.
    record Built : Type 0 where
      sk : JceNameLocalDelegatedKey l
      ek : JceNameLocalDelegatedKey l
      is_sk : derive_delegated_key p services l initial self.signing_key_info for_signing ≡ ok sk
      is_ek : derive_delegated_key p services l initial self.content_key_info for_encryption ≡ ok ek
      allowed : guard (key_allowed (some (as_delegated_key l ek))) value_error ≡ ok tt
      is_description :
          encryption_description p services l self given ciphertext ≡ m.material_description
      is_encryption_key : ok (as_delegated_key l ek) ≡ m.encryption_key
      is_signing_key : ok (as_delegated_key l sk) ≡ m.signing_key

    encryption_materials_of-eq-ok : Built
    unfolding encryption_materials_of raw_encryption_materials
    encryption_materials_of-eq-ok =
        let (sk, is_sk, h₁) =
          >>=-eq-ok (derive_delegated_key p services l initial self.signing_key_info for_signing) _
            built in
        let (ek, is_ek, h₂) =
          >>=-eq-ok (derive_delegated_key p services l initial self.content_key_info for_encryption)
            _ h₁ in
        let (_, allowed, h₃) =
          >>=-eq-ok (guard (key_allowed (some (as_delegated_key l ek))) value_error) _ h₂ in
        record {
          sk = sk;
          ek = ek;
          is_sk = is_sk;
          is_ek = is_ek;
          allowed = allowed;
          is_description =
              ap (λ (x : CryptographicMaterials). x.material_description) (ok-injective h₃);
          is_encryption_key =
              ap (λ (x : CryptographicMaterials). x.encryption_key) (ok-injective h₃);
          is_signing_key = ap (λ (x : CryptographicMaterials). x.signing_key) (ok-injective h₃);
        }

    Built-match :
        (b : Built) (d : Dict Text) → MaterialsMatch m (decryption_materials_with d b.sk b.ek)
    Built-match b d = record {
      contents =
          subst (λ r. KeysMatch Decrypts r (ok (as_delegated_key l b.ek))) b.is_encryption_key
            (present
              (derive_delegated_key-Decrypts self.content_key_info for_encryption b.ek b.is_ek));
      signatures = λ k g. (
        as_delegated_key l b.sk,
        refl,
        subst (λ x. Verifies x (as_delegated_key l b.sk)) (ok-injective (b.is_signing_key ∙ g))
            (derive_delegated_key-Verifies self.signing_key_info for_signing b.sk b.is_sk),
      );
    }

    -- A description that names the two algorithms as the stored one does gives matching materials.
    pub decryption_materials_of-match :
        (d : Dict Text)
        → get content_encryption_algorithm d ≡ some self.content_key_info.description
        → get item_signature_algorithm d ≡ some self.signing_key_info.description
        → (n : CryptographicMaterials) × (decryption_materials_of p services l d initial ≡ ok n)
          × MaterialsMatch m n
    decryption_materials_of-match d content signing =
        let b = encryption_materials_of-eq-ok in
        (
          decryption_materials_with d b.sk b.ek,
          decryption_materials_of-ok self content_info signing_info d b.sk b.ek b.is_sk b.is_ek
              b.allowed content signing,
          Built-match b d,
        )

    pub encryption_materials_of-IsDict : IsDict given → IsDict m.material_description
    unfolding encryption_description
    encryption_materials_of-IsDict h = subst IsDict encryption_materials_of-eq-ok.is_description (
        put-IsDict _ _ _
          (put-IsDict _ _ _ (put-IsDict _ _ _ (put-IsDict _ _ _ (put-IsDict _ _ _ h)))))

    pub get-stored :
        (get wrapped_data_key m.material_description ≡ some (p.b64encode ciphertext))
        × (get content_encryption_algorithm m.material_description
            ≡ some self.content_key_info.description)
        × (get item_signature_algorithm m.material_description
            ≡ some self.signing_key_info.description)
    unfolding encryption_description text_eq
    get-stored =
        subst
          (λ d.
            (get wrapped_data_key d ≡ some (p.b64encode ciphertext))
            × (get content_encryption_algorithm d ≡ some self.content_key_info.description)
            × (get item_signature_algorithm d ≡ some self.signing_key_info.description))
          encryption_materials_of-eq-ok.is_description
          (
            get-put_self wrapped_data_key _ _,
            get-put wrapped_data_key content_encryption_algorithm _ _
                ∙ get-put item_signature_algorithm content_encryption_algorithm _ _
                ∙ get-put_self content_encryption_algorithm _ _,
            get-put wrapped_data_key item_signature_algorithm _ _
                ∙ get-put_self item_signature_algorithm _ _,
          )
