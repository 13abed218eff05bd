-- ===== src/Encrypted/Item/Steps.antt =====
-- What the steps of a successful encryption did.
use aws_dynamodb_encryption.Prelude.{ℕ, Text, Bytes, false, not, Option, none, ◌≡◌, refl, text_eq}
use aws_dynamodb_encryption.Result.{
  Result, ok, guard, guard-eq-ok, encryption_error, >>=-eq-ok, ok-injective,
}
use aws_dynamodb_encryption.Dict.{Dict, get, put, contains, not-contains}
use aws_dynamodb_encryption.Identifiers.ReservedAttributes
use aws_dynamodb_encryption.Formatting.Attribute.{Attribute, Item, Codec, binary}
use aws_dynamodb_encryption.Formatting.MaterialDescription
use aws_dynamodb_encryption.Structures.AttributeActions.{AttributeActions}
use aws_dynamodb_encryption.Crypto.Materials.{DelegatedKey, CryptographicMaterials}
use aws_dynamodb_encryption.Crypto.Authentication.{string_to_sign, sign_item}
use aws_dynamodb_encryption.Encrypted.CryptoConfig
use aws_dynamodb_encryption.Encrypted.CryptoConfig.{CryptoConfig}
use aws_dynamodb_encryption.Encrypted.Item.{
  add_signing_algorithm, encrypted_attributes, sign_and_describe, encrypt_and_sign_item,
}

pub description-ne-signature :
    text_eq ReservedAttributes.material_description ReservedAttributes.signature ≡ false
unfolding text_eq
description-ne-signature = refl

pub signature-ne-description :
    text_eq ReservedAttributes.signature ReservedAttributes.material_description ≡ false
unfolding text_eq
signature-ne-description = refl

module _ (c : Codec) (sha256 : Bytes → Bytes) where
  -- What the signature and the description that were written are made of.
  pub record Signed (table_name : Option Text) (actions : AttributeActions)
      (access : Result DelegatedKey) (encrypted : Item) (inner : Dict Text) (e : Item)
      : Type 0 where
    pub key : DelegatedKey
    pub message : Bytes
    pub signature : Bytes
    pub description : Dict Text
    pub attribute : Attribute
    pub has_key : access ≡ ok key
    pub is_message : string_to_sign c sha256 encrypted table_name actions ≡ ok message
    pub is_signature : key.sign key.algorithm message ≡ ok signature
    pub is_description : add_signing_algorithm key.signing_algorithm inner ≡ ok description
    pub is_attribute : MaterialDescription.serialize c description ≡ ok attribute
    pub is_item :
        put ReservedAttributes.material_description attribute
          (put ReservedAttributes.signature (binary signature) encrypted)
        ≡ e

  pub sign_and_describe-eq-ok :
      (table_name : Option Text) (actions : AttributeActions) (access : Result DelegatedKey)
      (encrypted : Item) (inner : Dict Text) (e : Item)
      → sign_and_describe c sha256 table_name actions access (encrypted, inner) ≡ ok e
      → Signed table_name actions access encrypted inner e
  unfolding sign_and_describe sign_item
  sign_and_describe-eq-ok table_name actions access encrypted inner e h =
      let (key, p₁, h₁) = >>=-eq-ok access _ h in
      let (signed, p₂, h₂) = >>=-eq-ok (sign_item c sha256 encrypted key table_name actions) _ h₁ in
      let (message, q₁, g₁) =
        >>=-eq-ok (string_to_sign c sha256 encrypted table_name actions) _ p₂ in
      let (signature, q₂, g₂) = >>=-eq-ok (key.sign key.algorithm message) _ g₁ in
      let (description, p₃, h₃) =
        >>=-eq-ok (add_signing_algorithm key.signing_algorithm inner) _ h₂ in
      let (attribute, p₄, h₄) = >>=-eq-ok (MaterialDescription.serialize c description) _ h₃ in
      record {
        key = key;
        message = message;
        signature = signature;
        description = description;
        attribute = attribute;
        has_key = p₁;
        is_message = q₁;
        is_signature = q₂;
        is_description = p₃;
        is_attribute = p₄;
        is_item = rw (ok-injective g₂) (ok-injective h₄);
      }

  -- The encryption of an item that some action is taken on.
  abbrev pub Encryption : ℕ → Item → CryptoConfig → Item → Type 0
  Encryption seed item config e =
      (m : CryptographicMaterials) × (encrypted : Item) × (inner : Dict Text) × (get
          ReservedAttributes.material_description item
        ≡ none)
      × (get ReservedAttributes.signature item ≡ none)
      × (CryptoConfig.encryption_materials config ≡ ok m)
      × (encrypted_attributes c seed config.attribute_actions m.encryption_key
            m.material_description item
          ≡ ok (encrypted, inner))
      × (sign_and_describe c sha256 config.encryption_context.table_name config.attribute_actions
            m.signing_key (encrypted, inner)
          ≡ ok e)

  pub encrypt_and_sign_item-eq-ok :
      (seed : ℕ) (item e : Item) (config : CryptoConfig)
      → encrypt_and_sign_item c sha256 seed item config ≡ ok e
      → Encryption seed item config e
  unfolding encrypt_and_sign_item
  encrypt_and_sign_item-eq-ok seed item e config h =
      let (_, p₁, h₁) =
        >>=-eq-ok
          (guard (not (contains ReservedAttributes.material_description item)) encryption_error) _
          h in
      let (_, p₂, h₂) =
        >>=-eq-ok (guard (not (contains ReservedAttributes.signature item)) encryption_error) _
          h₁ in
      let (m, p₃, h₃) = >>=-eq-ok (CryptoConfig.encryption_materials config) _ h₂ in
      let (parts, p₄, h₄) =
        >>=-eq-ok
          (encrypted_attributes c seed config.attribute_actions m.encryption_key
            m.material_description item)
          _ h₃ in
      (
        m,
        parts.0,
        parts.1,
        not-contains ReservedAttributes.material_description item
            (guard-eq-ok _ encryption_error p₁),
        not-contains ReservedAttributes.signature item (guard-eq-ok _ encryption_error p₂),
        p₃,
        p₄,
        h₄,
      )
  -- The item apart from the two attributes that were added last.
