-- ===== src/Encrypted/Item/RoundTrip.antt =====
-- Decrypting an item that was encrypted with matching materials gives the item back.
use aws_dynamodb_encryption.Prelude.{
  ℕ, Text, Bytes, false, Option, none, some, ◌≡◌, ◌∙◌, sym, subst, text_eq, if_false,
}
use aws_dynamodb_encryption.Result.{ok}
use aws_dynamodb_encryption.Dict.{
  Dict, get, put, remove, IsDict, get-put, get-put_self, remove-put-put, remove-put_new,
}
use aws_dynamodb_encryption.Identifiers.ReservedAttributes
use aws_dynamodb_encryption.Identifiers.MaterialDescriptionKeys.{
  attribute_encryption_mode, signing_key_algorithm,
}
use aws_dynamodb_encryption.Formatting.Attribute.{Attribute, Item, Codec, IsLossless, binary}
use aws_dynamodb_encryption.Formatting.MaterialDescription
use aws_dynamodb_encryption.Formatting.MaterialDescription.RoundTrip.{get-deserialize-serialize}
use aws_dynamodb_encryption.Structures.EncryptionContext.{EncryptionContext}
use aws_dynamodb_encryption.Structures.AttributeActions.{AttributeActions}
use aws_dynamodb_encryption.Crypto.Materials.{
  DelegatedKey, CryptographicMaterials, Decrypts, Verifies,
}
use aws_dynamodb_encryption.Crypto.Encryption.{binary_value}
use aws_dynamodb_encryption.Crypto.Authentication.{string_to_sign, verify_item_signature}
use aws_dynamodb_encryption.Encrypted.CryptoConfig
use aws_dynamodb_encryption.Encrypted.CryptoConfig.{CryptoConfig}
use aws_dynamodb_encryption.Encrypted.Item.{
  encrypted_attributes, verify_and_decrypt_item, encrypt_dynamodb_item, describe_context,
  verify_and_decrypt, decrypt_dynamodb_item,
}
use aws_dynamodb_encryption.Encrypted.Item.Attributes.{restored}
use aws_dynamodb_encryption.Encrypted.Item.Steps.{
  description-ne-signature, signature-ne-description, Signed, sign_and_describe-eq-ok,
  encrypt_and_sign_item-eq-ok,
}
use aws_dynamodb_encryption.Encrypted.Item.Description.{
  KeysMatch, get-add_signing_algorithm, add_signing_algorithm-IsDict, encrypted_attributes-IsDict,
  get-encrypted_attributes, get-inner, signing-ne-mode, decrypted_attributes-encrypted_attributes,
}

-- A description that extends that of the materials, but for the two names that the encryptor sets.
abbrev pub Extends : Dict Text → Dict Text → Type 0
Extends d e =
    (name : Text)
    → text_eq attribute_encryption_mode name ≡ false
    → text_eq signing_key_algorithm name ≡ false
    → get name d ≡ get name e

-- The context that decryption has when it found the description in the item.
abbrev pub with_description : EncryptionContext → Dict Text → EncryptionContext
with_description context d = record context { material_description = d }

-- What the materials `m` encrypt and sign, the materials `n` decrypt and verify.
pub record MaterialsMatch (m n : CryptographicMaterials) : Type 0 where
  pub contents : KeysMatch Decrypts m.encryption_key n.decryption_key
  pub signatures :
      (k : DelegatedKey)
      → m.signing_key ≡ ok k
      → (l : DelegatedKey) × (n.verification_key ≡ ok l) × Verifies k l

-- The contract of a materials provider: from the description that its encryption materials were stored
-- with, it gives decryption materials that match them.
pub record Reopens (config : CryptoConfig) : Type 0 where
  pub description_IsDict :
      (m : CryptographicMaterials)
      → CryptoConfig.encryption_materials config ≡ ok m
      → IsDict m.material_description
  pub reopen :
      (m : CryptographicMaterials) (d : Dict Text)
      → CryptoConfig.encryption_materials config ≡ ok m
      → IsDict d
      → Extends d m.material_description
      → (n : CryptographicMaterials) × (config.materials_provider.decryption_materials
            (with_description config.encryption_context d)
          ≡ ok n)
        × MaterialsMatch m n

module _ (c : Codec) (sha256 : Bytes → Bytes) where
  verify_item_signature_lem :
      (encrypted : Item) (k l : DelegatedKey) (table_name : Option Text)
      (actions : AttributeActions) (message signature : Bytes)
      → Verifies k l
      → string_to_sign c sha256 encrypted table_name actions ≡ ok message
      → k.sign k.algorithm message ≡ ok signature
      → verify_item_signature c sha256 (binary signature) encrypted l table_name actions ≡ ok tt
  unfolding verify_item_signature binary_value
  verify_item_signature_lem encrypted k l table_name actions message signature v p q = rw p (
      subst (λ a. l.verify a signature message ≡ ok tt) (sym v.same_algorithm)
        (v.verify-sign k.algorithm message signature q))

  verify_and_decrypt_item-put :
      (encrypted : Item) (signature attribute : Attribute) (d : Dict Text) (config : CryptoConfig)
      → CryptoConfig.copy config ≡ ok config
      → get ReservedAttributes.material_description encrypted ≡ none
      → get ReservedAttributes.signature encrypted ≡ none
      → MaterialDescription.deserialize c attribute ≡ ok d
      → verify_and_decrypt_item c sha256
          (put ReservedAttributes.material_description attribute
            (put ReservedAttributes.signature signature encrypted))
          config
        ≡ verify_and_decrypt c sha256 signature encrypted
            (record config { encryption_context = with_description config.encryption_context d })
  unfolding verify_and_decrypt_item describe_context
  verify_and_decrypt_item-put encrypted signature attribute d config copied g g' h =
      let md = ReservedAttributes.material_description in
      let sig = ReservedAttributes.signature in
      let found : get sig (put md attribute (put sig signature encrypted)) ≡ some signature =
        get-put md sig attribute (put sig signature encrypted)
        ∙ if_false _ _ _ description-ne-signature
        ∙ get-put_self sig signature encrypted in
      let unsigned : remove sig (put md attribute (put sig signature encrypted))
          ≡ put md attribute encrypted =
        remove-put-put sig md attribute signature encrypted g' g description-ne-signature
          signature-ne-description in
      rw (
        found,
        unsigned,
        copied,
        get-put_self md attribute encrypted,
        h,
        remove-put_new md attribute encrypted g,
      )

  module _ (lossless : IsLossless c) where
    verify_and_decrypt_lem :
        (seed : ℕ) (item encrypted e : Item) (inner d : Dict Text) (config : CryptoConfig)
        (m n : CryptographicMaterials)
        (s : Signed c sha256 config.encryption_context.table_name config.attribute_actions
          m.signing_key encrypted inner e)
        → MaterialsMatch m n
        → config.materials_provider.decryption_materials
            (with_description config.encryption_context d)
          ≡ ok n
        → encrypted_attributes c seed config.attribute_actions m.encryption_key
            m.material_description item
          ≡ ok (encrypted, inner)
        → get attribute_encryption_mode d ≡ get attribute_encryption_mode inner
        → verify_and_decrypt c sha256
            (binary s.signature)
            encrypted
            (record config { encryption_context = with_description config.encryption_context d })
          ≡ ok (restored c config.attribute_actions item)
    unfolding verify_and_decrypt CryptoConfig.decryption_materials
    verify_and_decrypt_lem seed item encrypted e inner d config m n s match opened p mode =
        let (l, has_key, verifies) = match.signatures s.key s.has_key in
        rw (opened, has_key)
          (rw
            (verify_item_signature_lem encrypted s.key l config.encryption_context.table_name
              config.attribute_actions s.message s.signature verifies s.is_message s.is_signature)
            (decrypted_attributes-encrypted_attributes c seed config.attribute_actions
              m.material_description inner item encrypted lossless d m.encryption_key
              n.decryption_key match.contents p mode))

    -- Decrypting what the encryption of an item returned, under the same configuration, returns the item:
    -- each attribute that is encrypted in its canonical form, every other one unchanged. The codec must be
    -- lossless, the provider must reopen what it encrypted, the configuration must be one that its
    -- constructor accepts, and some action must be asked for.
    pub decrypt-encrypt_dynamodb_item :
        (seed : ℕ) (item e : Item) (config : CryptoConfig)
        → config.attribute_actions.take_no_actions ≡ false
        → CryptoConfig.copy config ≡ ok config
        → Reopens config
        → encrypt_dynamodb_item c sha256 seed item config ≡ ok e
        → decrypt_dynamodb_item c sha256 e config ≡ ok (restored c config.attribute_actions item)
    unfolding encrypt_dynamodb_item decrypt_dynamodb_item
    decrypt-encrypt_dynamodb_item seed item e config some_action copied reopens h =
        let actions = config.attribute_actions in
        let (m, encrypted, inner, g, g', has_materials, p, q) =
          encrypt_and_sign_item-eq-ok c sha256 seed item e config
            (sym (if_false actions.take_no_actions _ _ some_action) ∙ h) in
        let s =
          sign_and_describe-eq-ok c sha256 config.encryption_context.table_name actions
            m.signing_key encrypted inner e q in
        let absent : (name : Text) → get name item ≡ none → get name encrypted ≡ none =
          get-encrypted_attributes c seed actions m.material_description inner item encrypted
            m.encryption_key p in
        let was_dict =
          encrypted_attributes-IsDict c seed actions m.material_description inner item encrypted
            m.encryption_key p (reopens.description_IsDict m has_materials) in
        let is_dict =
          add_signing_algorithm-IsDict inner s.description s.key.signing_algorithm s.is_description
            was_dict in
        let (d, read, d_IsDict, same) =
          get-deserialize-serialize c lossless s.description s.attribute is_dict s.is_attribute in
        let as_inner : (name : Text)
            → text_eq signing_key_algorithm name ≡ false
            → get name d ≡ get name inner =
          λ name ne.
            same name
            ∙ get-add_signing_algorithm inner s.description s.key.signing_algorithm name
                s.is_description ne in
        let (n, opened, match) = reopens.reopen m d has_materials d_IsDict (λ name ne ne'.
          as_inner name ne'
          ∙ get-inner c seed actions m.material_description inner item encrypted m.encryption_key p
              name ne) in
        if_false actions.take_no_actions _ _ some_action
        ∙ subst (λ x. verify_and_decrypt_item c sha256 x config ≡ ok (restored c actions item))
            s.is_item
            (verify_and_decrypt_item-put encrypted (binary s.signature) s.attribute d config copied
                (absent _ g) (absent _ g') read
              ∙ verify_and_decrypt_lem seed item encrypted e inner d config m n s match opened p
                  (as_inner attribute_encryption_mode signing-ne-mode))
